-- ===== src/Core/Scan/Sums.antt =====
-- The sum over all entries, bucket by bucket through both tiers.
use aura_redis.Prelude.{
  ℕ, zero, suc, ◌+◌, ◌-◌, ◌≤◌, ◌<◌, ◌≡◌, refl, ap, ◌∙◌, Bool, true, false, [], ◌∷◌, length, get_or,
  ltb, arith,
}
use aura_redis.Entry.{Entry}
use aura_redis.Table.{Table}
use aura_redis.Table.Weight.{weigh_bucket, weigh}
use aura_redis.Core.{Core}
use aura_redis.Core.Invariant.{total}
use aura_redis.Core.Scan.Places.{bucket_at, chain_of}
use aura_redis.Core.Scan.Buckets.{gathered}
use aura_redis.Core.Scan.Walks.{weigh_bucket-append}

pub skip : ℕ → Table → Table
skip zero t = t
skip (suc n) [] = []
skip (suc n) (b ∷ t) = skip n t

skip_step :
    (m : Entry → ℕ) (t : Table) (i : ℕ)
    → weigh m (skip i t) ≡ weigh_bucket m (get_or t i []) + weigh m (skip (suc i) t)
unfolding skip weigh weigh_bucket
skip_step m [] zero = omega arith
skip_step m [] (suc i) = omega arith
skip_step m (b ∷ t) zero = omega arith
skip_step m (b ∷ t) (suc i) = skip_step m t i

pub skip_end : (m : Entry → ℕ) (t : Table) (i : ℕ) → length t ≤ i → weigh m (skip i t) ≡ 0
unfolding skip weigh
skip_end m [] zero h = refl
skip_end m [] (suc i) h = refl
skip_end m (b ∷ t) zero h = absurd (omega (arith, h))
skip_end m (b ∷ t) (suc i) h = skip_end m t i (omega (arith, h))

pub skip-le : (m : Entry → ℕ) (i : ℕ) (t : Table) → weigh m (skip i t) ≤ weigh m t
unfolding skip weigh
skip-le m zero t = omega arith
skip-le m (suc i) [] = omega arith
skip-le m (suc i) (b ∷ t) = omega (arith, skip-le m i t)

chain_hot :
    (idx : ℕ) (c : Core)
    → ltb idx (length c.buckets) ≡ true
    → chain_of (bucket_at c idx) ≡ get_or c.buckets idx []
unfolding bucket_at
chain_hot idx c e = rw e refl

chain_cold :
    (idx : ℕ) (c : Core)
    → ltb idx (length c.buckets) ≡ false
    → idx - length c.buckets < length c.cold_buckets
    → chain_of (bucket_at c idx) ≡ get_or c.cold_buckets (idx - length c.buckets) []
unfolding bucket_at
chain_cold idx c e h =
    let inside : ltb (idx - length c.buckets) (length c.cold_buckets) ≡ true = ground (arith, h) in
    rw (e, inside) refl

-- The buckets from a number on are those left in both tables.
pub weigh-gathered :
    (m : Entry → ℕ) (n idx : ℕ) (c : Core)
    → idx + n ≡ length c.buckets + length c.cold_buckets
    → weigh_bucket m (gathered n idx c)
      ≡ weigh m (skip idx c.buckets) + weigh m (skip (idx - length c.buckets) c.cold_buckets)
unfolding gathered weigh_bucket
weigh-gathered m zero idx c h = omega (
  arith,
  skip_end m c.buckets idx (omega (arith, h)),
  skip_end m c.cold_buckets (idx - length c.buckets) (omega (arith, h)),
)
weigh-gathered m (suc n) idx c h =
    weigh_bucket-append m (chain_of (bucket_at c idx)) (gathered n (suc idx) c)
    ∙ by_tier (ltb idx (length c.buckets)) refl (weigh-gathered m n (suc idx) c (omega (arith, h)))
  where
    by_tier :
        (b : Bool)
        → ltb idx (length c.buckets) ≡ b
        → weigh_bucket m (gathered n (suc idx) c)
          ≡ weigh m (skip (suc idx) c.buckets)
            + weigh m (skip (suc idx - length c.buckets) c.cold_buckets)
        → weigh_bucket m (chain_of (bucket_at c idx)) + weigh_bucket m (gathered n (suc idx) c)
          ≡ weigh m (skip idx c.buckets) + weigh m (skip (idx - length c.buckets) c.cold_buckets)
    by_tier true e rest =
        let still : suc idx - length c.buckets ≡ idx - length c.buckets = ground (arith, e) in
        omega (
          arith,
          ap (weigh_bucket m) (chain_hot idx c e),
          skip_step m c.buckets idx,
          rest,
          ap (λ i. weigh m (skip i c.cold_buckets)) still,
        )
    by_tier false e rest =
        let far : length c.buckets ≤ idx = ground (arith, e) in
        let next : suc idx - length c.buckets ≡ suc (idx - length c.buckets) = omega (arith, far) in
        omega (
          arith,
          ap (weigh_bucket m) (chain_cold idx c e (omega (arith, far, h))),
          skip_step m c.cold_buckets (idx - length c.buckets),
          skip_end m c.buckets idx far,
          skip_end m c.buckets (suc idx) (omega (arith, far)),
          rest,
          ap (λ i. weigh m (skip i c.cold_buckets)) next,
        )

pub weigh-all :
    (m : Entry → ℕ) (c : Core)
    → weigh_bucket m (gathered (length c.buckets + length c.cold_buckets) 0 c) ≡ total m c.dict
unfolding skip
weigh-all m c =
    let start : 0 - length c.buckets ≡ 0 = omega arith in
    weigh-gathered m (length c.buckets + length c.cold_buckets) 0 c (omega arith)
    ∙ ap (λ i. weigh m c.buckets + weigh m (skip i c.cold_buckets)) start
