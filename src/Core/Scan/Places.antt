-- ===== src/Core/Scan/Places.antt =====
-- The buckets of both tiers by their numbers, as a walk meets them.
use aura_redis.Prelude.{
  ℕ, ◌+◌, ◌-◌, ◌≤◌, ◌<◌, ◌≡◌, refl, subst, ap, Bool, true, false, ◌&&◌, Option, none, some, List,
  [], length, get_or, ltb, if◌then◌else◌, arith,
}
use aura_redis.Bytes.{Bytes}
use aura_redis.Entry.{Entry}
use aura_redis.Table.{Table}
use aura_redis.Table.Weight.{weigh}
use aura_redis.Table.Placed.{IsPlaced}
use aura_redis.Table.Search.{tally, weigh_bucket-le}
use aura_redis.Table.Member.{find-Member}
use aura_redis.Core.{Core, Tier, hot, cold, Layout, flat, hot_cold, if_tiered}
use aura_redis.Core.Free.{table}
use aura_redis.Core.Evict.Drops.{weigh-tier, IsPlaced-tier}
use aura_redis.Core.Tiers.{is_tiered, has_cold}
use aura_redis.Core.Invariant.{IsValid}
use aura_redis.Core.Scan.{scan_bucket_at, scan_total_buckets}
use aura_redis.Core.Scan.Frees.{slot-Member}
use aura_redis.Core.Scan.Sweeps.{Stands}

-- The bucket by its number, where the cold tier is there exactly in the layout that has it.
unfoldable pub bucket_at : Core → ℕ → Option (Tier × List Entry)
bucket_at c idx =
    if ltb idx (length c.buckets)
    then some (hot, get_or c.buckets idx [])
    else if ltb (idx - length c.buckets) (length c.cold_buckets)
    then some (cold, get_or c.cold_buckets (idx - length c.buckets) [])
    else none

tiered_when : (c : Core) → IsValid c → (is_tiered c && has_cold c) ≡ has_cold c
tiered_when c v = by_layout c.layout refl
  where
    by_layout : (l : Layout) → c.layout ≡ l → (is_tiered c && has_cold c) ≡ has_cold c
    by_layout flat e =
        let bare : length c.cold_buckets ≡ 0 =
          subst (λ l. length c.cold_buckets ≡ if_tiered l (length c.cold_buckets) 0) e
            v.shape.cold_null in
        rw (e, bare) refl
    by_layout hot_cold e = rw e refl

in_cold :
    (c : Core)
    → IsValid c
    → (x : ℕ)
    → (is_tiered c && has_cold c && ltb x (length c.cold_buckets)) ≡ ltb x (length c.cold_buckets)
in_cold c v x = by_layout c.layout refl
  where
    by_layout :
        (l : Layout)
        → c.layout ≡ l
        → (is_tiered c && has_cold c && ltb x (length c.cold_buckets))
          ≡ ltb x (length c.cold_buckets)
    by_layout flat e =
        let bare : length c.cold_buckets ≡ 0 =
          subst (λ l. length c.cold_buckets ≡ if_tiered l (length c.cold_buckets) 0) e
            v.shape.cold_null in
        rw (e, bare) (ground arith)
    by_layout hot_cold e = rw e (ground arith)

pub scan_bucket_at-bucket_at :
    (c : Core) (idx : ℕ) → IsValid c → scan_bucket_at c idx ≡ bucket_at c idx
unfolding scan_bucket_at bucket_at
scan_bucket_at-bucket_at c idx v =
    ap
      (λ b.
        if ltb idx (length c.buckets)
        then some (hot, get_or c.buckets idx [])
        else if b
        then some (cold, get_or c.cold_buckets (idx - length c.buckets) [])
        else none)
      (in_cold c v (idx - length c.buckets))

pub scan_total_buckets_sum :
    (c : Core) → IsValid c → scan_total_buckets c ≡ length c.buckets + length c.cold_buckets
unfolding scan_total_buckets
scan_total_buckets_sum c v = ground (arith, tiered_when c v)

abbrev pub chain_of : Option (Tier × List Entry) → List Entry
chain_of none = []
chain_of (some (tier, es)) = es

-- The number of a bucket, by its tier and its place there.
abbrev pub number : Core → Tier → ℕ → ℕ
number c hot i = i
number c cold i = length c.buckets + i

some_inj : {A : Type 0} {a b : A} → some a ≡ some b → a ≡ b
some_inj e = cc

-- Where a bucket stands.
pub record Place (c : Core) (idx : ℕ) (tier : Tier) (es : List Entry) : Type 0 where
  pub at : ℕ
  pub chain : es ≡ get_or (table tier c.dict) at []
  pub inside : at < length (table tier c.dict)
  pub numbered : idx ≡ number c tier at

abbrev pub in_tiers : Core → ℕ → Bool → Bool → Option (Tier × List Entry)
in_tiers c idx a b =
    if a
    then some (hot, get_or c.buckets idx [])
    else if b
    then some (cold, get_or c.cold_buckets (idx - length c.buckets) [])
    else none

pub place :
    (c : Core) (idx : ℕ) (tier : Tier) (es : List Entry)
    → bucket_at c idx ≡ some (tier, es)
    → Place c idx tier es
unfolding bucket_at
place c idx tier es h = by_hot (ltb idx (length c.buckets)) refl h
  where
    by_cold :
        (b : Bool)
        → ltb idx (length c.buckets) ≡ false
        → ltb (idx - length c.buckets) (length c.cold_buckets) ≡ b
        → in_tiers c idx false b ≡ some (tier, es)
        → Place c idx tier es
    by_cold true e f q =
        subst (λ p. Place c idx p.0 p.1) (some_inj q)
          (record {
            at = idx - length c.buckets;
            chain = refl;
            inside = ground (arith, f);
            numbered = ground (arith, e);
          })
    by_cold false e f q = absurd (ground arith)

    by_hot :
        (a : Bool)
        → ltb idx (length c.buckets) ≡ a
        → in_tiers c idx a (ltb (idx - length c.buckets) (length c.cold_buckets)) ≡ some (tier, es)
        → Place c idx tier es
    by_hot true e q =
        subst (λ p. Place c idx p.0 p.1) (some_inj q)
          (record { at = idx; chain = refl; inside = ground (arith, e); numbered = refl })
    by_hot false e q = by_cold (ltb (idx - length c.buckets) (length c.cold_buckets)) e refl q

-- The chain stands as a walk wants it.
pub place-Stands :
    (now : ℕ) (c : Core) (idx : ℕ) (tier : Tier) (es : List Entry)
    → IsValid c
    → (p : Place c idx tier es) → Stands now tier p.at es c
place-Stands now c idx tier es v p = rw p.chain (record {
  valid = v;
  found = λ y m. find-Member y t p.at m (once y.key) placed;
  slots = λ y m. slot-Member y t p.at m p.inside (once y.key) placed;
  once = λ k. omega (arith, weigh_bucket-le (tally k) t p.at, once k);
})
  where
    t : Table
    t = table tier c.dict

    once : (k : Bytes) → weigh (tally k) t ≤ 1
    once k = omega (arith, weigh-tier tier (tally k) c, v.shape.once k)

    placed : IsPlaced t
    placed = IsPlaced-tier tier c v.shape
