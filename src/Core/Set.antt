-- ===== src/Core/Set.antt =====
-- `ar_entry_set_ex` of native/src/ar_core.c and the commands over it. The entry that the code holds
-- by a pointer is written back to its table after each change; allocation does not fail.
pub mod Retype
pub mod Steps
pub mod Rewrites
pub mod Touches
pub mod Links
pub mod Sets
pub mod Keeps
use aura_redis.Prelude.{
  ℕ, suc, ◌+◌, ◌*◌, ◌%◌, ◌^◌, Bool, true, false, ◌&&◌, Option, none, some, List, [], ◌∷◌, length,
  ltb, if◌then◌else◌, add64, sub64, sat_sub, ℤ, is_nonpos, magnitude,
}
use aura_redis.Bytes.{Bytes}
use aura_redis.Entry.{
  ArType, string, Value, str, hash_obj, list_obj, zset_obj, type_of, Entry, entry_bytes,
  payload_bytes, sizeof_entry,
}
use aura_redis.Table.{find_in_table, link_entry}
use aura_redis.Core.{Core, Tier, hot, cold, if_tiered}
use aura_redis.Core.Counters.{
  ar_mem_add, ar_mem_sub, ar_type_stats_sub_key, ar_type_stats_add_key, ar_type_stats_note_bigkey,
  type_bytes_add, type_bytes_sub, entry_set_expire_at,
}
use aura_redis.Core.Watch.{ar_watch_touch}
use aura_redis.Core.Find.{ar_find_entry_ex}
use aura_redis.Core.Store.{store_at}
use aura_redis.Core.Tiers.{is_tiered, is_cold, ar_touch_get, maybe_demote_hot, ar_rehash_if_needed}
use aura_redis.Core.Evict.{on_set, maybe_evict}

abbrev pub blank : Entry → Entry
blank e = record e { value = str [] }

abbrev pub as_str : Entry → Entry
as_str e = elim e.value [ str v ↦ e | _ ↦ blank e ]

-- A value of another type is given up: its bytes, and its share of the type's counters.
unfoldable pub drop_obj : Tier → Entry → Core → Core
drop_obj tier e c =
    let pay = payload_bytes e.value in
    let c1 = ar_type_stats_sub_key (type_of e.value) (entry_bytes e) c in
    let c2 = ar_mem_sub pay c1 in
    let c3 = ar_type_stats_add_key string (length e.key + sizeof_entry) c2 in
    store_at tier (blank e) c3

unfoldable pub retype : Value → Tier → Entry → Core → Core
unfolding drop_obj
retype (str v) tier e c = c
retype _ tier e c = drop_obj tier e c

-- `used_memory -= e->vlen; ... used_memory += vlen;` and the new value.
unfoldable pub set_value : Bytes → ℕ → Tier → Entry → Core → Core
set_value val old tier e c =
    let c1 = record c {
      usage = record c.usage { used_memory = add64 (sub64 c.used_memory old) (length val) };
    } in
    let c2 = type_bytes_add string (length val) (type_bytes_sub string old c1) in
    let c3 = ar_type_stats_note_bigkey string (length val) c2 in
    store_at tier (record e { value = str val; last_access = c.clock + 1 })
      (record c3 { clock = c.clock + 1 })

unfoldable pub put_deadline : ℕ → Tier → Entry → Core → Core
put_deadline at tier e c = let (c1, e1) = entry_set_expire_at c e at in store_at tier e1 c1

-- The entry that a pointer to `key` reaches, in either table.
unfoldable pub locate : Bytes → Core → Option (Tier × Entry)
locate key c = elim (find_in_table key c.buckets) [
  | some e ↦ some (hot, e)
  | none ↦ elim (find_in_table key c.cold_buckets) [ some e ↦ some (cold, e) | none ↦ none ]
]

unfoldable pub run_on_set : Core → Option (Tier × Entry) → Core
run_on_set c none = c
run_on_set c (some (tier, e)) = let (c1, e1) = on_set c.evict c e in store_at tier e1 c1

-- `core->evict->on_set(core, e)`
unfoldable pub call_on_set : Bytes → Core → Core
unfolding run_on_set
call_on_set key c = run_on_set c (locate key c)

abbrev pub new_entry : Bytes → Bytes → Core → Entry
new_entry key val c = record {
  key = key;
  value = str val;
  last_access = c.clock + 1;
  lfu_freq = 5;
  pinned = false;
  expire_at = 0;
}

-- A new key enters the hot table.
unfoldable pub link_new : Bytes → Bytes → Core → Core
link_new key val c =
    let tot = length key + length val + sizeof_entry in
    let c1 = record c {
      clock = c.clock + 1;
      metrics = record c.metrics { unique_sets = suc c.unique_sets };
      dict = record c.dict {
        buckets = link_entry (new_entry key val c) c.buckets;
        nkeys = suc c.nkeys;
        hot_nkeys = if_tiered c.layout (suc c.hot_nkeys) c.hot_nkeys;
      };
    } in
    let c2 = ar_type_stats_add_key string tot (ar_mem_add tot c1) in
    ar_type_stats_note_bigkey string (length val) c2

abbrev pub string_len : Value → ℕ
string_len (str v) = length v
string_len _ = 0

module _ (rand : ℕ → ℕ) (now : ℕ) (key val : Bytes) (at : ℕ) where
  -- The branch for a key that is there.
  unfoldable pub set_old : Tier → Entry → Core → Core
  set_old tier e c =
      let e0 = as_str e in
      let c1 = retype e.value tier e c in
      let e1 = record e { value = str val; last_access = c1.clock + 1 } in
      let c2 = set_value val (string_len e.value) tier e0 c1 in
      let c3 = put_deadline at tier e1 c2 in
      let c4 =
        if is_tiered c && is_cold tier
        then ar_touch_get rand tier (record e1 { expire_at = at }) c3
        else c3 in
      ar_watch_touch key (maybe_evict rand now (call_on_set key c4))

  -- The branch for a new key.
  unfoldable pub set_new : Core → Core
  set_new c =
      let c1 = put_deadline at hot (new_entry key val c) (link_new key val c) in
      let c2 = maybe_demote_hot rand (call_on_set key c1) in
      ar_watch_touch key (maybe_evict rand now (ar_rehash_if_needed c2))

  unfoldable pub set_found : Core × Option (Tier × Entry) → Core
  unfolding set_old set_new
  set_found (c, none) = set_new c
  set_found (c, some (tier, e)) = set_old tier e c

  unfoldable pub ar_entry_set_ex : Core → Core
  unfolding set_found
  ar_entry_set_ex c = set_found (ar_find_entry_ex now key c)

-- `core->ops++; core->sets++;`
unfoldable pub count_set : Core → Core
count_set c = record c { metrics = record c.metrics { ops = suc c.ops; sets = suc c.sets } }

unfoldable pub ar_set_bin : (ℕ → ℕ) → ℕ → Bytes → Bytes → Core → Core
ar_set_bin rand now key val c = ar_entry_set_ex rand now key val 0 (count_set c)

unfoldable pub ar_set_bin_ex : (ℕ → ℕ) → ℕ → Bytes → Bytes → ℤ → Core → Core
ar_set_bin_ex rand now key val sec c =
    ar_entry_set_ex rand now key val
      (if is_nonpos sec then 0 else add64 now (magnitude sec * 1000 % 2 ^ 64)) (count_set c)

unfoldable pub ar_set_bin_px : (ℕ → ℕ) → ℕ → Bytes → Bytes → ℤ → Core → Core
ar_set_bin_px rand now key val ms c =
    ar_entry_set_ex rand now key val (if is_nonpos ms then 0 else add64 now (magnitude ms))
      (count_set c)

unfoldable pub ar_mset : (ℕ → ℕ) → ℕ → List (Bytes × Bytes) → Core → Core
ar_mset rand now [] c = c
ar_mset rand now ((key, val) ∷ rest) c = ar_mset rand now rest (ar_set_bin rand now key val c)
