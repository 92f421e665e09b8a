-- ===== src/Core/Scan.antt =====
-- SCAN, KEYS and DBSIZE of native/src/ar_core.c: the walk over the buckets of both tiers, which frees
-- what is due. Copying a key does not fail.
pub mod Frees
pub mod Sweeps
pub mod Places
pub mod Buckets
pub mod Walks
pub mod Sums
pub mod Counts
pub mod Pages
pub mod Lists
pub mod Names
pub mod Examples
use aura_redis.Prelude.{
  ℕ, zero, suc, ◌+◌, ◌-◌, Bool, true, false, not, ◌&&◌, ◌||◌, Option, none, some, List, [], ◌∷◌,
  ◌++◌, length, get_or, leb, ltb, ◌==◌, if◌then◌else◌, ℤ, pos, is_nonpos, magnitude,
}
use aura_redis.Bytes.{Bytes}
use aura_redis.Entry.{Entry}
use aura_redis.Glob.{ar_glob_match}
use aura_redis.Core.{Core, Tier, hot, cold}
use aura_redis.Core.Free.{ar_entry_free_ex}
use aura_redis.Core.Find.{is_due, bump_expired}
use aura_redis.Core.Keys.{count_op}
use aura_redis.Core.Tiers.{is_tiered, has_cold}

unfoldable pub scan_total_buckets : Core → ℕ
scan_total_buckets c =
    if is_tiered c && has_cold c then length c.buckets + length c.cold_buckets else length c.buckets

-- The tier and the chain of a bucket, numbered through both tiers.
unfoldable pub scan_bucket_at : Core → ℕ → Option (Tier × List Entry)
scan_bucket_at c idx =
    if ltb idx (length c.buckets)
    then some (hot, get_or c.buckets idx [])
    else if is_tiered c && has_cold c && ltb (idx - length c.buckets) (length c.cold_buckets)
    then some (cold, get_or c.cold_buckets (idx - length c.buckets) [])
    else none

-- `!pat || patlen == 0 || (patlen == 1 && pat[0] == '*')`
abbrev pub match_all : Bytes → Bool
match_all [] = true
match_all (c ∷ []) = c == b'*'
match_all (c ∷ d ∷ s) = false

abbrev pub is_match : Option Bool → Bool
is_match none = false
is_match (some b) = b

unfoldable pub matches : Bytes → Bytes → Bool
matches pat key = match_all pat || is_match (ar_glob_match pat key)

-- A page of SCAN: the state, the next cursor and the keys.
pub record Page : Type 0 where
  pub core : Core
  pub next_cursor : ℕ
  pub keys : List Bytes

module _ (now : ℕ) where
  -- One chain of DBSIZE.
  unfoldable pub count_chain : Tier → List Entry → Core → Core × ℕ
  unfolding bump_expired
  count_chain tier [] c = (c, 0)
  count_chain tier (e ∷ es) c =
      let c1 = if is_due now e then bump_expired (ar_entry_free_ex tier e c) else c in
      let (c2, n) = count_chain tier es c1 in (c2, if is_due now e then n else suc n)

  unfoldable pub count_buckets : ℕ → ℕ → Core → Core × ℕ
  unfolding count_chain scan_bucket_at
  count_buckets zero idx c = (c, 0)
  count_buckets (suc n) idx c = elim (scan_bucket_at c idx) [
    | none ↦ count_buckets n (suc idx) c
    | some (tier, chain) ↦
        let (c1, k) = count_chain tier chain c in
        let (c2, more) = count_buckets n (suc idx) c1 in (c2, k + more)
  ]

  unfoldable pub ar_dbsize : Core → Core × ℕ
  unfolding count_buckets scan_total_buckets
  ar_dbsize c = count_buckets (scan_total_buckets c) 0 (count_op c)

  module _ (pat : Bytes) where
    -- One chain of SCAN, with the keys that match.
    unfoldable pub scan_chain : Tier → List Entry → Core → Core × List Bytes
    unfolding bump_expired matches
    scan_chain tier [] c = (c, [])
    scan_chain tier (e ∷ es) c =
        let c1 = if is_due now e then ar_entry_free_ex tier e (bump_expired c) else c in
        let (c2, ks) = scan_chain tier es c1 in
        (c2, if is_due now e then ks else if matches pat e.key then e.key ∷ ks else ks)

    -- `while (slots < max_slots)`, with the slots that are left.
    unfoldable pub scan_slots : ℕ → ℕ → ℕ → Core → Page
    unfolding scan_chain scan_bucket_at
    scan_slots total zero idx c = record { core = c; next_cursor = idx; keys = [] }
    scan_slots total (suc n) idx c = elim (scan_bucket_at c idx) [
      | none ↦ record { core = c; next_cursor = idx; keys = [] }
      | some (tier, chain) ↦
          let (c1, ks) = scan_chain tier chain c in
          let rest = scan_slots total n (suc idx) c1 in
          if leb total (suc idx)
          then record { core = c1; next_cursor = 0; keys = ks }
          else record rest { keys = ks ++ rest.keys }
    ]

    abbrev pub max_slots : ℤ → ℕ
    max_slots count =
        if is_nonpos count
        then 10
        else if ltb 10000 (magnitude count)
        then 10000
        else magnitude count

    unfoldable pub ar_scan : ℕ → ℤ → Core → Page
    unfolding scan_slots scan_total_buckets
    ar_scan cursor count c =
        let total = scan_total_buckets c in
        if c.nkeys == 0 || leb total cursor
        then record { core = c; next_cursor = 0; keys = [] }
        else scan_slots total (max_slots count) cursor c

    -- `do ... while (cursor != 0)`; a page that goes on is behind the one before it, so that the
    -- number of buckets is fuel enough.
    unfoldable pub scan_pages : ℕ → ℤ → ℕ → Core → Core × List Bytes
    unfolding ar_scan
    scan_pages zero count cursor c = (c, [])
    scan_pages (suc fuel) count cursor c =
        let p = ar_scan cursor count c in
        let (c1, more) = scan_pages fuel count p.next_cursor p.core in
        if p.next_cursor == 0 then (p.core, p.keys) else (c1, p.keys ++ more)

    unfoldable pub ar_keys : Core → Core × List Bytes
    unfolding scan_pages scan_total_buckets
    ar_keys c =
        let total = scan_total_buckets c in
        if total == 0
        then (c, [])
        else scan_pages total (pos (if ltb 10000 total then 10000 else total)) 0 c
