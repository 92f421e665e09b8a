-- ===== src/Core/Tiers/Keeps.antt =====
-- About demotion and rehash, `maybe_demote_hot` and `ar_rehash_if_needed` of native/src/ar_core.c.
use aura_redis.Prelude.{
  if_elim, ℕ, zero, suc, ◌<◌, ◌≡◌, refl, Bool, true, false, not, ◌||◌, ◌&&◌, Option, none, some,
  length, ltb, leb, if◌then◌else◌, ◌==◌, arith,
}
use aura_redis.Entry.{Entry}
use aura_redis.Table.Weight.{weigh-rehash_table, length-rehash_table}
use aura_redis.Table.Search.{tally}
use aura_redis.Table.Rehash.{find-rehash_table, rehash-IsPlaced}
use aura_redis.Core.{Core, flat, hot_cold}
use aura_redis.Core.Tiers.{
  is_tiered, has_cold, hot_soft_cap, no_sample, sample_hot, demote_picked, demote_one_hot_to_cold,
  demote_rounds, maybe_demote_hot, rehash_hot, rehash_cold, ar_rehash_if_needed,
}
use aura_redis.Core.Tiers.Picks.{Stands, Stands-sample}
use aura_redis.Core.Tiers.Moves.{
  Transparent, Transparent-refl, Transparent-trans, same-Accounted, Transparent-move_to_cold,
}
use aura_redis.Core.Invariant.{total, one, IsValid, lookup}

pub tiered-layout : (c : Core) → is_tiered c ≡ true → c.layout ≡ hot_cold
tiered-layout c h = ground arith

pub flat-layout : (c : Core) → is_tiered c ≡ false → c.layout ≡ flat
flat-layout c h = ground arith

-- The count of `rand()` calls is not part of what is stored.
abbrev with_rolls : ℕ → Core → Core
with_rolls n c = record c { rolls = n }

Transparent-rolls : (n : ℕ) (c d : Core) → Transparent (with_rolls n c) d → Transparent c d
Transparent-rolls n c d t = record {
  valid = t.valid;
  lookups = t.lookups;
  totals = t.totals;
  same_usage = t.same_usage;
  same_knobs = t.same_knobs;
  same_layout = t.same_layout;
}

IsValid-rolls : (n : ℕ) (c : Core) → IsValid c → IsValid (with_rolls n c)
IsValid-rolls n c v = record { shape = v.shape; counts = v.counts; accounts = v.accounts }

module _ (rand : ℕ → ℕ) where
  Transparent-demote_picked :
      (c : Core) (o : Option Entry)
      → IsValid c
      → c.layout ≡ hot_cold
      → Stands c.buckets o
      → Transparent c (demote_picked rand c o).0
  unfolding demote_picked
  Transparent-demote_picked c none v l s = Transparent-refl v
  Transparent-demote_picked c (some e) v l s =
      Transparent-move_to_cold rand e c v s (ground (arith, l, v.shape.cold_pos)) l

  Transparent-demote_one : (c : Core) → IsValid c → Transparent c (demote_one_hot_to_cold rand c).0
  unfolding demote_one_hot_to_cold
  Transparent-demote_one c v =
      if_elim (λ (r : Core × Bool). Transparent c r.0)
        (not (is_tiered c) || not (has_cold c) || c.hot_nkeys == 0) _ _ (λ _. Transparent-refl v)
        (λ go. Transparent-rolls (sample_hot rand 64 c.buckets c.rolls no_sample).0 c _ (
          Transparent-demote_picked
            (with_rolls (sample_hot rand 64 c.buckets c.rolls no_sample).0 c)
            (sample_hot rand 64 c.buckets c.rolls no_sample).1.best (IsValid-rolls _ c v)
            (tiered-layout c (ground arith))
            (Stands-sample rand c.buckets v.shape.placed_hot
              (λ e. omega (arith, v.shape.once e.key)) 64 c.rolls)))

  pub Transparent-demote_rounds :
      (n : ℕ) (c : Core) → IsValid c → Transparent c (demote_rounds rand n c)
  unfolding demote_rounds
  Transparent-demote_rounds zero c v = Transparent-refl v
  Transparent-demote_rounds (suc n) c v =
      let one = Transparent-demote_one c v in
      let rest = Transparent-demote_rounds n (demote_one_hot_to_cold rand c).0 one.valid in
      if_elim (Transparent c) (ltb (hot_soft_cap c) c.hot_nkeys) _ _
        (λ _.
          if_elim (Transparent c) (demote_one_hot_to_cold rand c).1 _ _
            (λ _. Transparent-trans one rest) (λ _. one))
        (λ _. Transparent-refl v)

  -- Where the invariant holds, demoting down to the soft cap keeps it, what every key has stored,
  -- every sum over the entries, `usage`, the settings and the layout.
  pub Transparent-maybe_demote_hot :
      (c : Core) → IsValid c → Transparent c (maybe_demote_hot rand c)
  unfolding maybe_demote_hot
  Transparent-maybe_demote_hot c v =
      if_elim (Transparent c) (is_tiered c) _ _ (λ _. Transparent-demote_rounds 64 c v)
        (λ _. Transparent-refl v)

Transparent-rehash_hot : (c : Core) → IsValid c → Transparent c (rehash_hot c)
unfolding rehash_hot lookup
Transparent-rehash_hot c v =
    let s = v.shape in
    let w = λ (m : Entry → ℕ). weigh-rehash_table m c.buckets s.hot_pos in
    let t : (m : Entry → ℕ) → total m (rehash_hot c).dict ≡ total m c.dict =
      λ m. omega (arith, w m) in
    record {
      valid = record {
        shape = record {
          hot_pos = omega (arith, length-rehash_table c.buckets, s.hot_pos);
          cold_pos = s.cold_pos;
          cold_null = s.cold_null;
          placed_hot = rehash-IsPlaced c.buckets s.hot_pos;
          placed_cold = s.placed_cold;
          once = λ k. omega (arith, w (tally k), s.once k);
        };
        counts = record {
          keys = omega (arith, w one, v.counts.keys);
          hot_keys = rw (w one) v.counts.hot_keys;
          cold_keys = v.counts.cold_keys;
        };
        accounts = same-Accounted c (rehash_hot c) t refl v.accounts;
      };
      lookups = λ k.
          rw (find-rehash_table k c.buckets s.hot_pos s.placed_hot (omega (arith, s.once k))) refl;
      totals = t;
      same_usage = refl;
      same_knobs = refl;
      same_layout = refl;
    }

Transparent-rehash_cold :
    (c : Core) → IsValid c → 0 < length c.cold_buckets → Transparent c (rehash_cold c)
unfolding rehash_cold lookup
Transparent-rehash_cold c v pos =
    let s = v.shape in
    let w = λ (m : Entry → ℕ). weigh-rehash_table m c.cold_buckets pos in
    let n = length-rehash_table c.cold_buckets in
    let t : (m : Entry → ℕ) → total m (rehash_cold c).dict ≡ total m c.dict =
      λ m. omega (arith, w m) in
    record {
      valid = record {
        shape = record {
          hot_pos = s.hot_pos;
          cold_pos = omega (arith, n, s.cold_pos);
          cold_null = ground (arith, n, s.cold_null);
          placed_hot = s.placed_hot;
          placed_cold = rehash-IsPlaced c.cold_buckets pos;
          once = λ k. omega (arith, w (tally k), s.once k);
        };
        counts = record {
          keys = omega (arith, w one, v.counts.keys);
          hot_keys = v.counts.hot_keys;
          cold_keys = rw (w one) v.counts.cold_keys;
        };
        accounts = same-Accounted c (rehash_cold c) t refl v.accounts;
      };
      lookups = λ k.
          rw (find-rehash_table k c.cold_buckets pos s.placed_cold (omega (arith, s.once k))) refl;
      totals = t;
      same_usage = refl;
      same_knobs = refl;
      same_layout = refl;
    }

Transparent-cold_step :
    (c : Core) (b : Bool) → IsValid c → Transparent c (if has_cold c && b then rehash_cold c else c)
Transparent-cold_step c b v =
    if_elim (Transparent c) (has_cold c && b) _ _
      (λ there. Transparent-rehash_cold c v (ground arith)) (λ _. Transparent-refl v)

-- Where the invariant holds, `ar_rehash_if_needed` keeps it, what every key has stored, every sum
-- over the entries, `usage`, the settings and the layout.
pub Transparent-rehash : (c : Core) → IsValid c → Transparent c (ar_rehash_if_needed c)
unfolding ar_rehash_if_needed
Transparent-rehash c v =
    let hot_step =
      if_elim (Transparent c) (ltb (length c.buckets) c.hot_nkeys) (rehash_hot c) c
        (λ _. Transparent-rehash_hot c v) (λ _. Transparent-refl v) in
    if_elim (Transparent c) (not (is_tiered c)) _ _
      (λ _.
        if_elim (Transparent c) (leb c.nkeys (length c.buckets)) _ _ (λ _. Transparent-refl v)
          (λ _. Transparent-rehash_hot c v))
      (λ _. Transparent-trans hot_step (
        Transparent-cold_step (if ltb (length c.buckets) c.hot_nkeys then rehash_hot c else c) _
          hot_step.valid))
