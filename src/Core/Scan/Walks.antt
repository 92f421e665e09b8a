-- ===== src/Core/Scan/Walks.antt =====
-- A walk of buckets one after the other, with what it frees.
use aura_redis.Prelude.{
  ℕ, suc, ◌+◌, ◌≤◌, ◌≡◌, refl, ap, ◌∙◌, Bool, true, false, none, some, List, [], ◌∷◌, ◌++◌, length,
  if◌then◌else◌, arith,
}
use aura_redis.Entry.{Entry}
use aura_redis.Table.Weight.{weigh_bucket}
use aura_redis.Core.{Core, Tier}
use aura_redis.Core.Free.{table}
use aura_redis.Core.Find.{is_due}
use aura_redis.Core.Keys.Purge.{Purges, Purges-refl, Purges-trans}
use aura_redis.Core.Invariant.{total, IsValid}
use aura_redis.Core.Scan.Sweeps.{alive, due_part, sweep}
use aura_redis.Core.Scan.Places.{bucket_at, chain_of}
use aura_redis.Core.Scan.Buckets.{Visits, sweep-Visits, gathered, gathered-same}

-- What a walk of `n` buckets from `idx` on does.
pub record Walked (now n idx : ℕ) (c c' : Core) : Type 0 where
  pub purges : Purges now c c'
  pub sums :
      (m : Entry → ℕ)
      → total m c'.dict + weigh_bucket (due_part now m) (gathered n idx c) ≡ total m c.dict
  pub beyond : (j : ℕ) → idx + n ≤ j → bucket_at c' j ≡ bucket_at c j
  pub lengths : (tier : Tier) → length (table tier c'.dict) ≡ length (table tier c.dict)

pub weigh_bucket-append :
    (m : Entry → ℕ) (xs ys : List Entry)
    → weigh_bucket m (xs ++ ys) ≡ weigh_bucket m xs + weigh_bucket m ys
unfolding weigh_bucket
weigh_bucket-append m [] ys = omega arith
weigh_bucket-append m (x ∷ xs) ys = omega (arith, weigh_bucket-append m xs ys)

pub alive-append :
    (now : ℕ) (xs ys : List Entry) → alive now (xs ++ ys) ≡ alive now xs ++ alive now ys
unfolding alive
alive-append now [] ys = refl
alive-append now (x ∷ xs) ys =
    ap (λ r. if is_due now x then r else x ∷ r) (alive-append now xs ys) ∙ either (is_due now x)
  where
    either :
        (b : Bool)
        → (if b then alive now xs ++ alive now ys else x ∷ (alive now xs ++ alive now ys))
          ≡ (if b then alive now xs else x ∷ alive now xs) ++ alive now ys
    either true = refl
    either false = refl

module _ (now : ℕ) where
  pub Walked-none : (idx : ℕ) (c : Core) → IsValid c → Walked now 0 idx c c
  unfolding gathered weigh_bucket
  Walked-none idx c v = record {
    purges = Purges-refl v;
    sums = λ m. omega arith;
    beyond = λ j le. refl;
    lengths = λ tier. refl;
  }

  -- A visit leaves the buckets ahead.
  pub ahead :
      (n idx : ℕ) (c c1 : Core)
      → Visits now idx (chain_of (bucket_at c idx)) c c1
      → gathered n (suc idx) c1 ≡ gathered n (suc idx) c
  ahead n idx c c1 w =
      gathered-same n (suc idx) c c1 (λ j le. w.buckets_same j (λ q. omega (arith, q, le)))

  -- A bucket, then the others.
  pub Walked-visit :
      (n idx : ℕ) (c c1 c' : Core)
      → Visits now idx (chain_of (bucket_at c idx)) c c1
      → Walked now n (suc idx) c1 c'
      → Walked now (suc n) idx c c'
  unfolding gathered
  Walked-visit n idx c c1 c' w rest =
      let same = ahead n idx c c1 w in
      record {
        purges = Purges-trans w.purges rest.purges;
        sums = λ m. omega (
          arith,
          w.sums m,
          rest.sums m,
          ap (weigh_bucket (due_part now m)) same,
          weigh_bucket-append (due_part now m) (chain_of (bucket_at c idx))
              (gathered n (suc idx) c),
        );
        beyond = λ j le.
            rest.beyond j (omega (arith, le)) ∙ w.buckets_same j (λ q. omega (arith, q, le));
        lengths = λ tier. rest.lengths tier ∙ w.lengths tier;
      }

  pub no_bucket :
      (idx : ℕ) (c : Core)
      → IsValid c
      → bucket_at c idx ≡ none
      → Visits now idx (chain_of (bucket_at c idx)) c c
  unfolding weigh_bucket
  no_bucket idx c v h = rw h (record {
    purges = Purges-refl v;
    sums = λ m. omega arith;
    buckets_same = λ j ne. refl;
    lengths = λ tier. refl;
  })

  pub a_bucket :
      (idx : ℕ) (tier : Tier) (es : List Entry) (c : Core)
      → IsValid c
      → bucket_at c idx ≡ some (tier, es)
      → Visits now idx (chain_of (bucket_at c idx)) c (sweep now tier es c)
  a_bucket idx tier es c v h = rw h (sweep-Visits now c idx tier es h v)
