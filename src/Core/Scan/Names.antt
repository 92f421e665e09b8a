-- ===== src/Core/Scan/Names.antt =====
-- KEYS: each live key that matches is listed once, and no other.
use aura_redis.Prelude.{ℕ, ◌+◌, ◌≡◌, Option, none, some, List, [], ◌∷◌, if◌then◌else◌}
use aura_redis.Bytes.{Bytes, bytes_eq}
use aura_redis.Entry.{Entry}
use aura_redis.Table.{Table}
use aura_redis.Table.Search.{tally}
use aura_redis.Core.{Core}
use aura_redis.Core.Find.{is_due}
use aura_redis.Core.Find.Keeps.{live}
use aura_redis.Core.Keys.Purge.{Purges}
use aura_redis.Core.Invariant.{lookup}
use aura_redis.Core.Scan.{matches}

abbrev share : (Entry → ℕ) → Option Entry → ℕ
share m none = 0
share m (some e) = m e

-- How often a key is in a list.
abbrev pub occurs : Bytes → List Bytes → ℕ
occurs k [] = 0
occurs k (x ∷ xs) = (if bytes_eq x k then 1 else 0) + occurs k xs

-- How often KEYS is to list a key, by its live entry.
abbrev pub listings : Bytes → Bytes → Option Entry → ℕ
listings pat k none = 0
listings pat k (some e) = if matches pat k then 1 else 0

-- The keys that KEYS lists of `c`, with the state it leaves.
pub record Lists (now : ℕ) (pat : Bytes) (c : Core) (r : Core × List Bytes) : Type 0 where
  pub purges : Purges now c r.0
  pub once : (k : Bytes) → occurs k r.1 ≡ listings pat k (live now (lookup k c.dict))

module _ (now : ℕ) (pat k : Bytes) where
  abbrev listed_part : Entry → ℕ
  listed_part e = if is_due now e then 0 else if matches pat e.key then tally k e else 0
