-- ===== src/Core/Keys.antt =====
-- The operations of native/src/ar_core.c on whole keys: DEL, EXISTS, the pins, FLUSHDB and the
-- active expiry.
pub mod Keeps
pub mod Purge
use aura_redis.Prelude.{
  ℕ, zero, suc, ◌+◌, ◌%◌, Bool, true, false, not, ◌&&◌, ◌||◌, Option, none, some, List, [], ◌∷◌,
  length, replicate, get_or, ltb, ◌==◌, if◌then◌else◌, dec,
}
use aura_redis.Bytes.{Bytes}
use aura_redis.Entry.{Entry}
use aura_redis.Table.{Table}
use aura_redis.Core.{Core, Tier, hot, cold, if_tiered}
use aura_redis.Core.Counters.{ar_type_stats_reset}
use aura_redis.Core.Watch.{ar_watch_touch_all}
use aura_redis.Core.Free.{ar_entry_free_ex, table}
use aura_redis.Core.Find.{is_due, bump_expired, ar_find_entry_ex}
use aura_redis.Core.Store.{store_at}
use aura_redis.Core.Tiers.{is_tiered, has_cold}

-- `core->ops++;`
abbrev pub count_op : Core → Core
count_op c = record c { metrics = record c.metrics { ops = suc c.ops } }

unfoldable pub del_found : Core × Option (Tier × Entry) → Core × Bool
del_found (c, none) = (c, false)
del_found (c, some (tier, e)) = (count_op (ar_entry_free_ex tier e c), true)

unfoldable pub ar_del_bin : ℕ → Bytes → Core → Core × Bool
unfolding del_found
ar_del_bin now key c = del_found (ar_find_entry_ex now key c)

abbrev pub is_found : Option (Tier × Entry) → Bool
is_found none = false
is_found (some p) = true

unfoldable pub ar_exists_bin : ℕ → Bytes → Core → Core × Bool
ar_exists_bin now key c = let (c1, r) = ar_find_entry_ex now key c in (c1, is_found r)

unfoldable pub pin_found : Core × Option (Tier × Entry) → Core × Bool
pin_found (c, none) = (c, false)
pin_found (c, some (tier, e)) = (
  store_at tier (record e { pinned = true })
      (record c {
        usage = record c.usage {
          pinned_keys = if e.pinned then c.pinned_keys else suc c.pinned_keys;
        };
      }),
  true,
)

unfoldable pub ar_core_pin : ℕ → Bytes → Core → Core × Bool
unfolding pin_found
ar_core_pin now key c = pin_found (ar_find_entry_ex now key c)

unfoldable pub unpin_found : Core × Option (Tier × Entry) → Core × Bool
unpin_found (c, none) = (c, false)
unpin_found (c, some (tier, e)) =
    if e.pinned
    then (
      store_at tier (record e { pinned = false })
          (record c { usage = record c.usage { pinned_keys = dec c.pinned_keys } }),
      true,
    )
    else (c, false)

unfoldable pub ar_core_unpin : ℕ → Bytes → Core → Core × Bool
unfolding unpin_found
ar_core_unpin now key c = unpin_found (ar_find_entry_ex now key c)

-- Every bucket becomes empty; `pinned_keys` is left as it is.
unfoldable pub ar_flushdb : Core → Core
unfolding ar_type_stats_reset ar_watch_touch_all
ar_flushdb c =
    let c1 = record c {
      dict = record c.dict {
        buckets = replicate (length c.buckets) [];
        cold_buckets = replicate (length c.cold_buckets) [];
        cold_nkeys = if has_cold c then 0 else c.cold_nkeys;
        nkeys = 0;
        hot_nkeys = 0;
      };
      usage = record c.usage { used_memory = 0; keys_with_ttl = 0; expire_at_sum = 0 };
    } in
    ar_watch_touch_all (count_op (ar_type_stats_reset c1))

-- The first entry of a chain that is due.
unfoldable pub first_due : ℕ → List Entry → Option Entry
first_due now [] = none
first_due now (e ∷ es) = if is_due now e then some e else first_due now es

unfoldable pub expire_picked : Tier → Option Entry → Core × ℕ → Core × ℕ
unfolding bump_expired
expire_picked tier none (c, freed) = (c, freed)
expire_picked tier (some e) (c, freed) = (bump_expired (ar_entry_free_ex tier e c), suc freed)

module _ (rand : ℕ → ℕ) (now : ℕ) where
  abbrev pub expire_tier : Bool → Core → Tier
  expire_tier odd c = if is_tiered c && has_cold c && ltb 0 c.cold_nkeys && odd then cold else hot

  -- One round over one sampled bucket.
  unfoldable pub expire_round : Tier → Core × ℕ → Core × ℕ
  unfolding expire_picked first_due
  expire_round tier (c, freed) =
      let t = table tier c.dict in
      if length t == 0
      then (c, freed)
      else expire_picked tier (first_due now (get_or t (rand c.rolls % length t) []))
          (record c { rolls = c.rolls + 1 }, freed)

  -- `for (int s = 0; s < effort; ++s)`, with the rounds that are left; `odd` is `s & 1`.
  unfoldable pub expire_rounds : ℕ → Bool → Core × ℕ → Core × ℕ
  unfolding expire_round
  expire_rounds zero odd s = s
  expire_rounds (suc n) odd (c, freed) =
      expire_rounds n (not odd) (expire_round (expire_tier odd c) (c, freed))

  unfoldable pub ar_core_active_expire : ℕ → Core → Core × ℕ
  unfolding expire_rounds
  ar_core_active_expire effort c =
      if effort == 0 || c.nkeys == 0
      then (c, 0)
      else expire_rounds (if ltb 64 effort then 64 else effort) false (c, 0)
