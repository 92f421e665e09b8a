-- ===== src/Core/Strings.antt =====
-- The commands that read or extend a string: `ar_get_bin`, STRLEN and APPEND of native/src/ar_core.c,
-- and `get_ptr` of native/src/ar_server.c, which the commands GET, GETSET and MGET run.
pub mod Keeps
use aura_redis.Prelude.{
  ℕ, suc, ◌+◌, ◌%◌, ◌*◌, Bool, true, false, not, ◌&&◌, Option, none, some, ◌++◌, length, ltb, ◌==◌,
  if◌then◌else◌, add64,
}
use aura_redis.Bytes.{Bytes}
use aura_redis.Entry.{string, Value, str, hash_obj, list_obj, zset_obj, Entry}
use aura_redis.Core.{Core, Tier}
use aura_redis.Core.Counters.{type_bytes_add, ar_type_stats_note_bigkey}
use aura_redis.Core.Watch.{ar_watch_touch}
use aura_redis.Core.Find.{ar_find_entry_ex}
use aura_redis.Core.Store.{store_at}
use aura_redis.Core.Tiers.{is_tiered, is_cold, ar_touch_get}
use aura_redis.Core.Evict.{on_get, maybe_evict}
use aura_redis.Core.Set.{locate, string_len, call_on_set, count_set, ar_entry_set_ex}

-- The integer reply of STRLEN and APPEND, with the `wrongtype` flag.
pub data LengthReply : Type 0 where
  len : ℕ → LengthReply
  wrongtype failed : LengthReply

abbrev pub run_on_get : Core → Option (Tier × Entry) → Core
run_on_get c none = c
run_on_get c (some (tier, e)) = let (c1, e1) = on_get c.evict c e in store_at tier e1 c1

-- `core->evict->on_get(core, e)`
unfoldable pub call_on_get : Bytes → Core → Core
call_on_get key c = run_on_get c (locate key c)

-- `core->ops++; core->gets++;`
abbrev pub count_get : Core → Core
count_get c = record c { metrics = record c.metrics { ops = suc c.ops; gets = suc c.gets } }

module _ (rand : ℕ → ℕ) where
  -- The hit or miss, and with the sampling on one call of `rand()` that may count it again.
  unfoldable pub count_hit : Bool → Core → Core
  count_hit found c =
      let sampled = ltb 0 c.shadow_sample_pct && ltb (rand c.rolls % 100) c.shadow_sample_pct in
      record c {
        rolls = if ltb 0 c.shadow_sample_pct then c.rolls + 1 else c.rolls;
        metrics = record c.metrics {
          hits = if found then suc c.hits else c.hits;
          misses = if found then c.misses else suc c.misses;
          shadow_samples = if sampled then suc c.shadow_samples else c.shadow_samples;
          shadow_hits = if sampled && found then suc c.shadow_hits else c.shadow_hits;
          shadow_misses = if sampled && not found then suc c.shadow_misses else c.shadow_misses;
        };
      }

  unfoldable pub get_value : Bytes → Value → Tier → Entry → Core → Core × Option Bytes
  unfolding count_hit call_on_get
  get_value key (str v) tier e c =
      (call_on_get key (ar_touch_get rand tier e (count_hit true c)), some v)
  get_value key _ tier e c = (count_hit false c, none)

  unfoldable pub get_found : Bytes → Core × Option (Tier × Entry) → Core × Option Bytes
  unfolding get_value
  get_found key (c, none) = (count_hit false c, none)
  get_found key (c, some (tier, e)) = get_value key e.value tier e c

  unfoldable pub ar_get_bin : ℕ → Bytes → Core → Core × Option Bytes
  unfolding get_found
  ar_get_bin now key c = get_found key (ar_find_entry_ex now key (count_get c))

-- What `get_ptr` returns: 1 with the value, 0, or -1.
pub data GetReply : Type 0 where
  hit : Bytes → GetReply
  miss wrong_kind : GetReply

module _ (rand : ℕ → ℕ) where
  -- A value of another type counts as neither a hit nor a miss.
  unfoldable pub ptr_value : Bytes → Value → Tier → Entry → Core → Core × GetReply
  unfolding count_hit call_on_get
  ptr_value key (str v) tier e c =
      (call_on_get key (ar_touch_get rand tier e (count_hit rand true c)), hit v)
  ptr_value key _ tier e c = (c, wrong_kind)

  unfoldable pub ptr_found : Bytes → Core × Option (Tier × Entry) → Core × GetReply
  unfolding ptr_value
  ptr_found key (c, none) = (count_hit rand false c, miss)
  ptr_found key (c, some (tier, e)) = ptr_value key e.value tier e c

  unfoldable pub get_ptr : ℕ → Bytes → Core → Core × GetReply
  unfolding ptr_found
  get_ptr now key c = ptr_found key (ar_find_entry_ex now key (count_get c))

abbrev pub length_of : Value → LengthReply
length_of (str v) = len (length v)
length_of _ = wrongtype

abbrev pub strlen_of : Option (Tier × Entry) → LengthReply
strlen_of none = len 0
strlen_of (some (tier, e)) = length_of e.value

unfoldable pub ar_strlen : ℕ → Bytes → Core → Core × LengthReply
ar_strlen now key c =
    let c0 = record c { metrics = record c.metrics { ops = suc c.ops } } in
    let (c1, r) = ar_find_entry_ex now key c0 in (c1, strlen_of r)

module _ (rand : ℕ → ℕ) (now : ℕ) (key val : Bytes) where
  -- `core->used_memory += vlen; ...` and the longer value.
  unfoldable pub extend : Bytes → Tier → Entry → Core → Core
  extend v tier e c =
      let e1 = record e { value = str (v ++ val); last_access = c.clock + 1 } in
      let c1 = record c {
        usage = record c.usage { used_memory = add64 c.used_memory (length val) };
        clock = c.clock + 1;
      } in
      let c2 =
        ar_type_stats_note_bigkey string (length v + length val)
          (type_bytes_add string (length val) c1) in
      let c3 = store_at tier e1 c2 in
      let c4 = if is_tiered c && is_cold tier then ar_touch_get rand tier e1 c3 else c3 in
      ar_watch_touch key (maybe_evict rand now (call_on_set key c4))

  unfoldable pub append_value : Value → Tier → Entry → Core → Core × LengthReply
  unfolding extend
  append_value (str v) tier e c =
      if length val == 0
      then (c, len (length v))
      else (extend v tier e c, len (length v + length val))
  append_value _ tier e c = (c, wrongtype)

  -- The key after it was created: -1 where it is gone again.
  abbrev created_len : Option (Tier × Entry) → LengthReply
  created_len none = failed
  created_len (some (tier, e)) = len (string_len e.value)

  unfoldable pub append_found : Core × Option (Tier × Entry) → Core × LengthReply
  unfolding append_value
  append_found (c, none) =
      let (c1, r) = ar_find_entry_ex now key (ar_entry_set_ex rand now key val 0 c) in
      (c1, created_len r)
  append_found (c, some (tier, e)) = append_value e.value tier e c

  unfoldable pub ar_append : Core → Core × LengthReply
  unfolding append_found
  ar_append c = append_found (ar_find_entry_ex now key (count_set c))
