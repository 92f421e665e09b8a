-- ===== src/Core.antt =====
-- The state of the data plane: `struct ArCore` of native/src/ar_internal.h, without the network and
-- configuration fields. Its operations are in the modules below.
pub mod Counters
pub mod Watch
pub mod Free
pub mod Find
pub mod Invariant
pub mod Store
pub mod Tiers
pub mod Evict
pub mod Set
pub mod Expire
pub mod Keys
pub mod Strings
pub mod Typed
pub mod Lists
pub mod ZSets
pub mod Hashes
pub mod Scan
pub mod Examples
use aura_redis.Prelude.{ℕ, Bool, true, false, Option, none, some, List, [], replicate}
use aura_redis.Bytes.{Bytes}
use aura_redis.Entry.{ArType, string, Entry}
use aura_redis.Table.{Table}

pub data Layout : Type 0 where
  flat hot_cold : Layout

-- The built-in eviction kernels (`kEvictNoop`, `kEvictLru`, ...).
pub data EvictOps : Type 0 where
  noop lru lfu ttl_aware slru tinylfu : EvictOps

-- `tier_out`: 0 is the hot (or only) table, 1 the cold one.
pub data Tier : Type 0 where
  hot cold : Tier

-- The WATCH fields of `struct ArConn`.
pub record Conn : Type 0 where
  pub in_use : Bool
  pub watch_keys : List Bytes
  pub watch_dirty : Bool

-- The two tables and their key counts.
pub record Dict : Type 0 where
  pub buckets : Table
  pub cold_buckets : Table
  pub layout : Layout
  pub nkeys : ℕ
  pub hot_nkeys : ℕ
  pub cold_nkeys : ℕ

-- By layout: the first number where there are two tiers.
abbrev pub if_tiered : Layout → ℕ → ℕ → ℕ
if_tiered flat n m = m
if_tiered hot_cold n m = n

-- The counters that summarise the stored entries.
pub record Usage : Type 0 where
  pub used_memory : ℕ
  pub type_nkeys : ArType → ℕ
  pub type_bytes : ArType → ℕ
  pub keys_with_ttl : ℕ
  pub expire_at_sum : ℕ
  pub pinned_keys : ℕ

-- Counters of events.
pub record Metrics : Type 0 where
  pub ops : ℕ
  pub gets : ℕ
  pub sets : ℕ
  pub hits : ℕ
  pub misses : ℕ
  pub evicted : ℕ
  pub expired : ℕ
  pub unique_sets : ℕ
  pub promotions : ℕ
  pub demotions : ℕ
  pub migrates : ℕ
  pub layout_gen : ℕ
  pub shadow_samples : ℕ
  pub shadow_hits : ℕ
  pub shadow_misses : ℕ
  pub bigkey_bytes : ℕ
  pub bigkey_type : ArType

-- Settings, changed by CONFIG and the policy commands.
pub record Knobs : Type 0 where
  pub evict : EvictOps
  pub evict_samples : ℕ
  pub maxmemory : ℕ
  pub hot_soft_cap_pct : ℕ
  pub hot_soft_cap_min : ℕ
  pub hot_promote_on_get : Bool
  pub shadow_sample_pct : ℕ

-- `rolls` counts the calls of `rand()` made so far.
pub record Core : Type 0 where
  pub dict : Dict
  pub open dict use *
  pub usage : Usage
  pub open usage use *
  pub metrics : Metrics
  pub open metrics use *
  pub knobs : Knobs
  pub open knobs use *
  pub conns : List Conn
  pub clock : ℕ
  pub layout_busy : Bool
  pub rolls : ℕ

-- `ar_core_create`: `calloc`, 1024 buckets and the default settings.
unfoldable pub ar_core_create : Core
ar_core_create = record {
  dict = record {
    buckets = replicate 1024 [];
    cold_buckets = [];
    layout = flat;
    nkeys = 0;
    hot_nkeys = 0;
    cold_nkeys = 0;
  };
  usage = record {
    used_memory = 0;
    type_nkeys = λ t. 0;
    type_bytes = λ t. 0;
    keys_with_ttl = 0;
    expire_at_sum = 0;
    pinned_keys = 0;
  };
  metrics = record {
    ops = 0;
    gets = 0;
    sets = 0;
    hits = 0;
    misses = 0;
    evicted = 0;
    expired = 0;
    unique_sets = 0;
    promotions = 0;
    demotions = 0;
    migrates = 0;
    layout_gen = 0;
    shadow_samples = 0;
    shadow_hits = 0;
    shadow_misses = 0;
    bigkey_bytes = 0;
    bigkey_type = string;
  };
  knobs = record {
    evict = noop;
    evict_samples = 16;
    maxmemory = 0;
    hot_soft_cap_pct = 25;
    hot_soft_cap_min = 256;
    hot_promote_on_get = true;
    shadow_sample_pct = 0;
  };
  conns = [];
  clock = 0;
  layout_busy = false;
  rolls = 0;
}
