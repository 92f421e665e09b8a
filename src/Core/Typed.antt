-- ===== src/Core/Typed.antt =====
-- Entries with a value of one type, found or created: `ar_entry_get_typed` and
-- `ar_entry_get_or_create` of native/src/ar_types.c, and how the commands settle the sums.
pub mod Writes
pub mod Creates
pub mod Keeps
pub mod Stores
pub mod Obtains
pub mod Updates
pub mod Examples
use aura_redis.Prelude.{
  ℕ, suc, ◌+◌, ◌-◌, false, Option, none, some, List, [], length, leb, if◌then◌else◌, replicate,
}
use aura_redis.Bytes.{Bytes}
use aura_redis.Entry.{
  ArType, hash, list, zset, HashObj, ZSet, Value, hash_obj, list_obj, zset_obj, payload_bytes,
  Entry, sizeof_entry,
}
use aura_redis.Table.{link_entry}
use aura_redis.Core.{Core, Tier, if_tiered}
use aura_redis.Core.Counters.{
  ar_mem_add, ar_mem_sub, type_bytes_add, type_bytes_sub, ar_type_stats_add_key,
  ar_type_stats_note_bigkey,
}
use aura_redis.Core.Watch.{ar_watch_touch}
use aura_redis.Core.Find.{ar_find_entry_ex}
use aura_redis.Core.Store.{store_at}
use aura_redis.Core.Tiers.{ar_rehash_if_needed}
use aura_redis.Core.Evict.{ar_maybe_evict_pub}
use aura_redis.Core.Set.{call_on_set}

-- A type of values with the object that `calloc` gives for it.
pub record Kind (A : Type 0) : Type 0 where
  pub tag : ArType
  pub wrap : A → Value
  pub unwrap : Value → Option A
  pub fresh : A

abbrev pub as_hash : Value → Option HashObj
as_hash (hash_obj h) = some h
as_hash _ = none

abbrev pub as_list : Value → Option (List Bytes)
as_list (list_obj l) = some l
as_list _ = none

abbrev pub as_zset : Value → Option ZSet
as_zset (zset_obj z) = some z
as_zset _ = none

-- `hash_create`
abbrev pub hash_create : HashObj
hash_create = record { buckets = replicate 16 []; nfields = 0 }

abbrev pub hash_kind : Kind HashObj
hash_kind = record { tag = hash; wrap = hash_obj; unwrap = as_hash; fresh = hash_create }

abbrev pub list_kind : Kind (List Bytes)
list_kind = record { tag = list; wrap = list_obj; unwrap = as_list; fresh = [] }

abbrev pub zset_kind : Kind ZSet
zset_kind = record {
  tag = zset;
  wrap = zset_obj;
  unwrap = as_zset;
  fresh = record { arr = []; cap = 0 };
}

-- No entry, the `wrongtype` flag, or the entry with its object.
pub data Typed (A : Type 0) : Type 0 where
  absent wrong_type : Typed A
  typed : Tier → Entry → A → Typed A

-- The results of the commands that add to an object, which are -1 for the first two: no entry with the
-- `wrongtype` flag clear, as where the eviction took the new key; the flag; or a number.
pub data Wrote : Type 0 where
  gone flagged : Wrote
  counted : ℕ → Wrote

-- The bytes that an object has lost leave both sums.
unfoldable pub settle : ArType → ℕ → ℕ → Core → Core
settle t old_pay new_pay c =
    if leb new_pay old_pay
    then type_bytes_sub t (old_pay - new_pay) (ar_mem_sub (old_pay - new_pay) c)
    else c

-- The sums follow an object that has grown or shrunk.
unfoldable pub resize : ArType → ℕ → ℕ → Core → Core
resize t old_pay new_pay c =
    if leb old_pay new_pay
    then ar_type_stats_note_bigkey t new_pay
        (type_bytes_add t (new_pay - old_pay) (ar_mem_add (new_pay - old_pay) c))
    else type_bytes_sub t (old_pay - new_pay) (ar_mem_sub (old_pay - new_pay) c)

module _ {A : Type 0} (k : Kind A) where
  abbrev pub unwrapped : Tier → Entry → Option A → Typed A
  unwrapped tier e none = wrong_type
  unwrapped tier e (some a) = typed tier e a

  abbrev pub typed_of : Option (Tier × Entry) → Typed A
  typed_of none = absent
  typed_of (some (tier, e)) = unwrapped tier e (k.unwrap e.value)

  unfoldable pub ar_entry_get_typed : ℕ → Bytes → Core → Core × Typed A
  ar_entry_get_typed now key c = let (c1, r) = ar_find_entry_ex now key c in (c1, typed_of r)

  -- The entry with the object `a`, written to its place.
  abbrev pub put_obj : Tier → Entry → A → Core → Core
  put_obj tier e a c = store_at tier (record e { value = k.wrap a }) c

  abbrev pub new_object : Bytes → Core → Entry
  new_object key c = record {
    key = key;
    value = k.wrap k.fresh;
    last_access = c.clock + 1;
    lfu_freq = 5;
    pinned = false;
    expire_at = 0;
  }

  -- The new entry in its bucket, counted.
  unfoldable pub link_object : Bytes → Core → Core
  link_object key c =
      let pay = payload_bytes (k.wrap k.fresh) in
      let tot = length key + sizeof_entry + pay in
      let c1 = record c {
        clock = c.clock + 1;
        dict = record c.dict {
          buckets = link_entry (new_object key c) c.buckets;
          nkeys = suc c.nkeys;
          hot_nkeys = if_tiered c.layout (suc c.hot_nkeys) c.hot_nkeys;
        };
      } in
      ar_type_stats_note_bigkey k.tag pay (ar_type_stats_add_key k.tag tot (ar_mem_add tot c1))

  -- The creation in `ar_entry_get_or_create`, up to the second search.
  unfoldable pub create_object : (ℕ → ℕ) → ℕ → Bytes → Core → Core
  unfolding link_object
  create_object rand now key c =
      ar_maybe_evict_pub rand now (ar_rehash_if_needed (call_on_set key (link_object key c)))

  unfoldable pub created : (ℕ → ℕ) → ℕ → Bytes → Core × Typed A → Core × Typed A
  unfolding create_object
  created rand now key (c, absent) = ar_entry_get_typed now key (create_object rand now key c)
  created rand now key (c, wrong_type) = (c, wrong_type)
  created rand now key (c, typed tier e a) = (c, typed tier e a)

  unfoldable pub ar_entry_get_or_create : (ℕ → ℕ) → ℕ → Bytes → Core → Core × Typed A
  unfolding created
  ar_entry_get_or_create rand now key c = created rand now key (ar_entry_get_typed now key c)

  -- The object `new` in the place of `old`, with the sums and the clock, up to the eviction.
  unfoldable pub replace_object : Tier → Entry → A → A → Core → Core
  replace_object tier e old new c =
      let c1 = resize k.tag (payload_bytes (k.wrap old)) (payload_bytes (k.wrap new)) c in
      let e1 = record e { value = k.wrap new; last_access = c.clock + 1 } in
      store_at tier e1 (record c1 { clock = c.clock + 1 })

  -- The end of the commands that add to an object.
  unfoldable pub store_object : (ℕ → ℕ) → ℕ → Bytes → Tier → Entry → A → A → Core → Core
  unfolding replace_object
  store_object rand now key tier e old new c =
      ar_watch_touch key (ar_maybe_evict_pub rand now (replace_object tier e old new c))
