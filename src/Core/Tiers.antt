-- ===== src/Core/Tiers.antt =====
-- The hot and cold tiers of native/src/ar_core.c: soft cap, demotion, promotion, rehash and the
-- migrations between the layouts. `rand` gives the value of each call of `rand()`; `rand() % (int)nb`
-- is taken for tables below 2^31 buckets.
pub mod Picks
pub mod Moves
pub mod Keeps
pub mod Migrate
use aura_redis.Prelude.{
  ℕ, zero, suc, ◌+◌, ◌-◌, ◌*◌, ◌/◌, ◌%◌, ◌^◌, Bool, true, false, not, ◌&&◌, ◌||◌, Option, none,
  some, List, [], ◌∷◌, length, replicate, ltb, leb, ◌==◌, if◌then◌else◌, dec, get_or,
}
use aura_redis.Bytes.{Bytes}
use aura_redis.Entry.{Entry}
use aura_redis.Table.{Table, unlink_entry, link_entry, rehash_table, link_all}
use aura_redis.Core.{Core, Dict, Layout, flat, hot_cold, Tier, hot, cold, if_tiered}
use aura_redis.Core.Store.{store_at}

abbrev pub is_tiered : Core → Bool
is_tiered c = elim c.layout [ flat ↦ false | hot_cold ↦ true ]

-- `cold_buckets != NULL`
abbrev pub has_cold : Core → Bool
has_cold c = not (length c.cold_buckets == 0)

unfoldable pub hot_soft_cap : Core → ℕ
hot_soft_cap c =
    let set = if ltb 0 c.hot_soft_cap_pct then c.hot_soft_cap_pct else 25 in
    let pct = if ltb 100 set then 100 else set in
    let cap = c.nkeys * pct / 100 in if ltb cap c.hot_soft_cap_min then c.hot_soft_cap_min else cap

-- The best candidate so far, its time (UINT64_MAX at first), and the entries looked at.
pub record Sample : Type 0 where
  pub best : Option Entry
  pub best_t : ℕ
  pub samples : ℕ

abbrev pub no_sample : Sample
no_sample = record { best = none; best_t = 2 ^ 64 - 1; samples = 0 }

unfoldable pub sample_one : Entry → Sample → Sample
sample_one e s = record {
  best = if ltb e.last_access s.best_t then some e else s.best;
  best_t = if ltb e.last_access s.best_t then e.last_access else s.best_t;
  samples = s.samples + 1;
}

unfoldable pub sample_chain : List Entry → Sample → Sample
sample_chain [] s = s
sample_chain (e ∷ es) s = if ltb s.samples 16 then sample_chain es (sample_one e s) else s

abbrev pub is_cold : Tier → Bool
is_cold hot = false
is_cold cold = true

module _ (rand : ℕ → ℕ) where
  -- The attempts that are left; the number of `rand()` calls comes back with the sample.
  pub sample_hot : ℕ → Table → ℕ → Sample → ℕ × Sample
  sample_hot zero t rolls s = (rolls, s)
  sample_hot (suc n) t rolls s =
      let next =
        sample_hot n t (rolls + 1) (sample_chain (get_or t (rand rolls % length t) []) s) in
      if ltb s.samples 16 then next else (rolls, s)

  -- The oldest sampled entry moves from the hot table to the cold one.
  unfoldable pub move_to_cold : Entry → Core → Core
  move_to_cold best c = record c {
    dict = record c.dict {
      buckets = unlink_entry best.key c.buckets;
      hot_nkeys = c.hot_nkeys - 1;
      cold_buckets = link_entry best c.cold_buckets;
      cold_nkeys = c.cold_nkeys + 1;
    };
    metrics = record c.metrics { demotions = c.demotions + 1 };
  }

  unfoldable pub demote_picked : Core → Option Entry → Core × Bool
  unfolding move_to_cold
  demote_picked c none = (c, false)
  demote_picked c (some best) = (move_to_cold best c, true)

  unfoldable pub demote_one_hot_to_cold : Core → Core × Bool
  unfolding demote_picked
  demote_one_hot_to_cold c =
      if not (is_tiered c) || not (has_cold c) || c.hot_nkeys == 0
      then (c, false)
      else (let (rolls, s) = sample_hot 64 c.buckets c.rolls no_sample in
          demote_picked (record c { rolls = rolls }) s.best)

  -- `while (hot_nkeys > hot_soft_cap(core) && guard++ < 64)`, with the rounds that are left.
  unfoldable pub demote_rounds : ℕ → Core → Core
  demote_rounds zero c = c
  demote_rounds (suc n) c =
      let (c', moved) = demote_one_hot_to_cold c in
      let rest = demote_rounds n c' in
      if ltb (hot_soft_cap c) c.hot_nkeys then (if moved then rest else c') else c

  unfoldable pub maybe_demote_hot : Core → Core
  unfolding demote_rounds
  maybe_demote_hot c = if is_tiered c then demote_rounds 64 c else c

  unfoldable pub move_to_hot : Entry → Core → Core
  move_to_hot e c = record c {
    dict = record c.dict {
      cold_buckets = unlink_entry e.key c.cold_buckets;
      cold_nkeys = dec c.cold_nkeys;
      buckets = link_entry e c.buckets;
      hot_nkeys = c.hot_nkeys + 1;
    };
    metrics = record c.metrics { promotions = c.promotions + 1 };
  }

  -- The access time is written first; a promoted entry takes it along.
  unfoldable pub ar_touch_get : Tier → Entry → Core → Core
  ar_touch_get tier e c =
      let c1 = record c { clock = c.clock + 1 } in
      let e1 = record e { last_access = c.clock + 1 } in
      let c2 = store_at tier e1 c1 in
      if is_tiered c && is_cold tier && has_cold c && c.hot_promote_on_get
      then maybe_demote_hot (move_to_hot e1 c2)
      else c2

unfoldable pub rehash_hot : Core → Core
rehash_hot c = record c { dict = record c.dict { buckets = rehash_table c.buckets } }

unfoldable pub rehash_cold : Core → Core
rehash_cold c = record c { dict = record c.dict { cold_buckets = rehash_table c.cold_buckets } }

unfoldable pub ar_rehash_if_needed : Core → Core
unfolding rehash_hot rehash_cold
ar_rehash_if_needed c =
    if not (is_tiered c)
    then (if leb c.nkeys (length c.buckets) then c else rehash_hot c)
    else (let c1 = if ltb (length c.buckets) c.hot_nkeys then rehash_hot c else c in
        if has_cold c1 && ltb (length c1.cold_buckets) c1.cold_nkeys then rehash_cold c1 else c1)

-- `calloc` of the cold table: at least 256 buckets.
unfoldable pub migrate_to_hot_cold : Core → Core
migrate_to_hot_cold c =
    let cn = if ltb (length c.buckets) 256 then 256 else length c.buckets in
    if is_tiered c then c else record c {
      dict = record c.dict {
        cold_buckets = replicate cn [];
        cold_nkeys = 0;
        hot_nkeys = c.nkeys;
        layout = hot_cold;
      };
      metrics = record c.metrics { layout_gen = c.layout_gen + 1; migrates = c.migrates + 1 };
    }

-- The cold chains are linked into the hot table.
unfoldable pub migrate_to_flat : Core → Core
migrate_to_flat c =
    if not (is_tiered c)
    then c
    else ar_rehash_if_needed (record c {
      dict = record c.dict {
        buckets = link_all c.cold_buckets c.buckets;
        cold_buckets = [];
        cold_nkeys = 0;
        hot_nkeys = 0;
        layout = flat;
      };
      metrics = record c.metrics { layout_gen = c.layout_gen + 1; migrates = c.migrates + 1 };
    })

abbrev pub same_layout : Layout → Layout → Bool
same_layout flat flat = true
same_layout hot_cold hot_cold = true
same_layout _ _ = false

abbrev pub migrate : Layout → Core → Core
migrate flat c = migrate_to_flat c
migrate hot_cold c = migrate_to_hot_cold c

-- `want` is the parsed name, `none` for a name that is not known.
unfoldable pub ar_core_set_layout : Option Layout → Core → Core × Bool
ar_core_set_layout none c = (c, false)
ar_core_set_layout (some want) c =
    if c.layout_busy
    then (c, false)
    else if same_layout c.layout want
    then (c, true)
    else (record (migrate want c) { layout_busy = false }, true)

unfoldable pub ar_core_adapt_layout : Core → Core × Bool
unfolding ar_core_set_layout
ar_core_adapt_layout c =
    if c.layout_busy
    then (c, false)
    else if leb 500 c.nkeys && ltb (c.sets * 3) c.gets
    then (if is_tiered c then (c, false) else ar_core_set_layout (some hot_cold) c)
    else if ltb c.nkeys 64 && is_tiered c
    then ar_core_set_layout (some flat) c
    else (c, false)
