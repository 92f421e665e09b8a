-- ===== src/Core/Invariant.antt =====
-- The invariant of the data plane: entries stand in the bucket of their key, once over both tiers,
-- and every counter is the sum that it stands for.
use aura_redis.Prelude.{ℕ, ◌+◌, ◌≤◌, ◌<◌, ◌≡◌, Option, length, if◌then◌else◌, ◌==◌}
use aura_redis.Bytes.{Bytes}
use aura_redis.Entry.{ArType, type_eq, type_of, Entry, entry_bytes}
use aura_redis.Table.{find_in_table}
use aura_redis.Table.Weight.{weigh}
use aura_redis.Table.Search.{tally}
use aura_redis.Table.Placed.{IsPlaced}
use aura_redis.Table.Rehash.{or_else}
use aura_redis.Core.{Core, Dict, Usage, if_tiered}

-- The sum of `m` over all entries of both tiers.
abbrev pub total : (Entry → ℕ) → Dict → ℕ
total m d = weigh m d.buckets + weigh m d.cold_buckets

abbrev pub one : Entry → ℕ
one e = 1

abbrev pub has_ttl : Entry → ℕ
has_ttl e = if e.expire_at == 0 then 0 else 1

abbrev pub deadline : Entry → ℕ
deadline e = e.expire_at

abbrev pub is_pinned : Entry → ℕ
is_pinned e = if e.pinned then 1 else 0

abbrev pub of_type : ArType → Entry → ℕ
of_type t e = if type_eq (type_of e.value) t then 1 else 0

abbrev pub bytes_of_type : ArType → Entry → ℕ
bytes_of_type t e = if type_eq (type_of e.value) t then entry_bytes e else 0

-- Every counter is the sum that it stands for.
pub record Accounted (d : Dict) (u : Usage) : Type 0 where
  pub memory : u.used_memory ≡ total entry_bytes d
  pub ttl_keys : u.keys_with_ttl ≡ total has_ttl d
  pub ttl_sum : u.expire_at_sum ≡ total deadline d
  pub pins : u.pinned_keys ≡ total is_pinned d
  pub type_keys : (t : ArType) → u.type_nkeys t ≡ total (of_type t) d
  pub type_memory : (t : ArType) → u.type_bytes t ≡ total (bytes_of_type t) d

-- The cold table exists exactly in the layout that uses it, and no key stands twice.
pub record IsShaped (d : Dict) : Type 0 where
  pub hot_pos : 0 < length d.buckets
  pub cold_pos : if_tiered d.layout 1 0 ≤ length d.cold_buckets
  pub cold_null : length d.cold_buckets ≡ if_tiered d.layout (length d.cold_buckets) 0
  pub placed_hot : IsPlaced d.buckets
  pub placed_cold : IsPlaced d.cold_buckets
  pub once : (k : Bytes) → total (tally k) d ≤ 1

-- `nkeys` counts the entries; the tiers' counts are kept in the layout that has two.
pub record IsCounted (d : Dict) : Type 0 where
  pub keys : d.nkeys ≡ total one d
  pub hot_keys : weigh one d.buckets ≡ if_tiered d.layout d.hot_nkeys (weigh one d.buckets)
  pub cold_keys :
      weigh one d.cold_buckets ≡ if_tiered d.layout d.cold_nkeys (weigh one d.cold_buckets)

pub record IsValid (c : Core) : Type 0 where
  pub shape : IsShaped c.dict
  pub counts : IsCounted c.dict
  pub accounts : Accounted c.dict c.usage

-- What is stored under a key, due or not.
unfoldable pub lookup : Bytes → Dict → Option Entry
lookup k d = or_else (find_in_table k d.buckets) (find_in_table k d.cold_buckets)
