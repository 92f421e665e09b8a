-- ===== src/Core/Scan/Buckets.antt =====
-- The walk of consecutive buckets through both tiers.
use aura_redis.Prelude.{
  ℕ, zero, suc, ◌+◌, ◌-◌, ◌≤◌, ◌≡◌, ◌≢◌, refl, ap, ◌∙◌, Bool, true, false, none, some, List, [],
  ◌++◌, length, get_or, ltb, if◌then◌else◌, arith,
}
use aura_redis.Entry.{Entry}
use aura_redis.Table.Weight.{weigh_bucket}
use aura_redis.Core.{Core, Tier, hot, cold}
use aura_redis.Core.Free.{table}
use aura_redis.Core.Keys.Purge.{Purges}
use aura_redis.Core.Invariant.{total, IsValid}
use aura_redis.Core.Scan.Frees.{Apart}
use aura_redis.Core.Scan.Sweeps.{Sweeps, sweep, sweep-Sweeps, due_part}
use aura_redis.Core.Scan.Places.{bucket_at, chain_of, number, in_tiers, Place, place, place-Stands}

Apart-hot :
    (c : Core) (idx j : ℕ) (tier : Tier) (at : ℕ)
    → idx ≡ number c tier at
    → idx ≢ j
    → Apart tier at hot j
Apart-hot c idx j hot at n ne = λ q. ne (n ∙ q)
Apart-hot c idx j cold at n ne = tt

Apart-cold :
    (c : Core) (idx j : ℕ) (tier : Tier) (at : ℕ)
    → idx ≡ number c tier at
    → idx ≢ j
    → length c.buckets ≤ j
    → Apart tier at cold (j - length c.buckets)
Apart-cold c idx j hot at n ne h = tt
Apart-cold c idx j cold at n ne h = λ q. ne (omega (arith, n, q, h))

-- The buckets but one are the same.
others_kept :
    (now : ℕ) (c c' : Core) (idx : ℕ) (tier : Tier) (es : List Entry)
    → (p : Place c idx tier es) → Sweeps now tier p.at es c c'
    → (j : ℕ) → idx ≢ j
    → bucket_at c' j ≡ bucket_at c j
unfolding bucket_at
others_kept now c c' idx tier es p s j ne =
    rw (s.lengths hot, s.lengths cold) (by_hot (ltb j (length c.buckets)) refl)
  where
    by_hot :
        (a : Bool)
        → ltb j (length c.buckets) ≡ a
        → (if a
            then some (hot, get_or c'.buckets j [])
            else if ltb (j - length c.buckets) (length c.cold_buckets)
            then some (cold, get_or c'.cold_buckets (j - length c.buckets) [])
            else none)
          ≡ in_tiers c j a (ltb (j - length c.buckets) (length c.cold_buckets))
    by_hot true e =
        ap (λ g. some (hot, g)) (s.elsewhere hot j (Apart-hot c idx j tier p.at p.numbered ne))
    by_hot false e =
        ap
          (λ g. if ltb (j - length c.buckets) (length c.cold_buckets) then some (cold, g) else none)
          (s.elsewhere cold (j - length c.buckets)
            (Apart-cold c idx j tier p.at p.numbered ne (ground (arith, e))))

-- What a visit of one bucket does.
pub record Visits (now : ℕ) (idx : ℕ) (es : List Entry) (c c' : Core) : Type 0 where
  pub purges : Purges now c c'
  pub sums : (m : Entry → ℕ) → total m c'.dict + weigh_bucket (due_part now m) es ≡ total m c.dict
  pub buckets_same : (j : ℕ) → idx ≢ j → bucket_at c' j ≡ bucket_at c j
  pub lengths : (tier : Tier) → length (table tier c'.dict) ≡ length (table tier c.dict)

pub sweep-Visits :
    (now : ℕ) (c : Core) (idx : ℕ) (tier : Tier) (es : List Entry)
    → bucket_at c idx ≡ some (tier, es)
    → IsValid c
    → Visits now idx es c (sweep now tier es c)
sweep-Visits now c idx tier es h v =
    let p = place c idx tier es h in
    let s = sweep-Sweeps now tier p.at es c (place-Stands now c idx tier es v p) in
    record {
      purges = s.purges;
      sums = s.sums;
      buckets_same = others_kept now c (sweep now tier es c) idx tier es p s;
      lengths = s.lengths;
    }

-- The entries of `n` buckets from `idx` on.
unfoldable pub gathered : ℕ → ℕ → Core → List Entry
gathered zero idx c = []
gathered (suc n) idx c = chain_of (bucket_at c idx) ++ gathered n (suc idx) c

pub gathered-same :
    (n idx : ℕ) (c c' : Core)
    → ((j : ℕ) → idx ≤ j → bucket_at c' j ≡ bucket_at c j)
    → gathered n idx c' ≡ gathered n idx c
unfolding gathered
gathered-same zero idx c c' h = refl
gathered-same (suc n) idx c c' h =
    ap (λ o. chain_of o ++ gathered n (suc idx) c') (h idx (omega arith))
    ∙ ap (λ g. chain_of (bucket_at c idx) ++ g)
        (gathered-same n (suc idx) c c' (λ j le. h j (omega (arith, le))))
