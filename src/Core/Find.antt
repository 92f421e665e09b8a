-- ===== src/Core/Find.antt =====
-- `ar_find_entry_ex` of native/src/ar_core.c: a search in both tiers that frees what has expired.
-- `now` is the value of `ar_now_ms()`, the same within one operation.
pub mod Keeps
use aura_redis.Prelude.{
  ℕ, suc, Bool, true, false, not, ◌&&◌, Option, none, some, ◌==◌, leb, ltb, if◌then◌else◌,
}
use aura_redis.Bytes.{Bytes}
use aura_redis.Entry.{Entry}
use aura_redis.Table.{find_in_table}
use aura_redis.Core.{Core, Tier, hot, cold, flat, hot_cold}
use aura_redis.Core.Free.{ar_entry_free_ex}

-- `e->expire_at && now >= e->expire_at`
abbrev pub is_due : ℕ → Entry → Bool
is_due now e = not (e.expire_at == 0) && leb e.expire_at now

unfoldable pub bump_expired : Core → Core
bump_expired c = record c { metrics = record c.metrics { expired = suc c.expired } }

-- An entry in hand, with the tier it stands in, after the lazy expiry.
unfoldable pub check_due : ℕ → Tier → Entry → Core → Core × Option (Tier × Entry)
unfolding bump_expired
check_due now tier e c =
    if is_due now e then (bump_expired (ar_entry_free_ex tier e c), none) else (c, some (tier, e))

unfoldable pub find_cold : ℕ → Bytes → Core → Core × Option (Tier × Entry)
unfolding check_due
find_cold now key c = elim c.layout [
  | flat ↦ (c, none)
  | hot_cold ↦ elim (find_in_table key c.cold_buckets) [
    | none ↦ (c, none)
    | some e ↦ check_due now cold e c
  ]
]

unfoldable pub ar_find_entry_ex : ℕ → Bytes → Core → Core × Option (Tier × Entry)
unfolding find_cold
ar_find_entry_ex now key c = elim (find_in_table key c.buckets) [
  | none ↦ find_cold now key c
  | some e ↦
      if is_due now e
      then find_cold now key (bump_expired (ar_entry_free_ex hot e c))
      else (c, some (hot, e))
]
