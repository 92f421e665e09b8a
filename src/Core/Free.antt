-- ===== src/Core/Free.antt =====
-- `ar_entry_free_ex` of native/src/ar_core.c, and the places where an entry stands.
pub mod Keeps
use aura_redis.Prelude.{ℕ, ◌+◌, Option, none, some, length, if◌then◌else◌, dec, sat_sub, ◌==◌}
use aura_redis.Bytes.{Bytes}
use aura_redis.Entry.{type_of, Entry, entry_bytes}
use aura_redis.Table.{Table, find_in_table, unlink_entry, store_entry, link_entry}
use aura_redis.Core.{Core, Dict, Tier, hot, cold, if_tiered}
use aura_redis.Core.Counters.{
  ar_mem_sub, ar_type_stats_sub_key, entry_clear_expire, clear_expire_usage,
}
use aura_redis.Core.Watch.{ar_watch_touch}

-- The table of a tier; the code falls back to the hot table where the cold one is NULL.
unfoldable pub tier_of : Tier → Dict → Tier
tier_of hot d = hot
tier_of cold d = if length d.cold_buckets == 0 then hot else cold

abbrev pub table : Tier → Dict → Table
table hot d = d.buckets
table cold d = d.cold_buckets

abbrev pub put_table : Tier → Table → Dict → Dict
put_table tier t d = record d {
  buckets = elim tier [ hot ↦ t | cold ↦ d.buckets ];
  cold_buckets = elim tier [ hot ↦ d.cold_buckets | cold ↦ t ];
}

-- `if (core->layout == AR_LAYOUT_HOT_COLD) ...`: the tier's key count goes down by one.
abbrev pub drop_tier_key : Tier → Dict → Dict
drop_tier_key tier d = record d {
  hot_nkeys = elim tier [
    | hot ↦ if_tiered d.layout (dec d.hot_nkeys) d.hot_nkeys
    | cold ↦ d.hot_nkeys
  ];
  cold_nkeys = elim tier [
    | hot ↦ d.cold_nkeys
    | cold ↦ if_tiered d.layout (dec d.cold_nkeys) d.cold_nkeys
  ];
}

-- `if (e->pinned && core->pinned_keys) core->pinned_keys--;`
unfoldable pub drop_pin : Entry → Core → Core
drop_pin e c = record c {
  usage = record c.usage { pinned_keys = if e.pinned then dec c.pinned_keys else c.pinned_keys };
}

unfoldable pub ar_entry_free_ex : Tier → Entry → Core → Core
unfolding ar_watch_touch entry_clear_expire ar_type_stats_sub_key ar_mem_sub drop_pin tier_of
ar_entry_free_ex tier e c =
    let c1 = ar_watch_touch e.key c in
    let c2 = (entry_clear_expire c1 e).0 in
    let from = tier_of tier c2.dict in
    let c3 = record c2 {
      dict = put_table from (unlink_entry e.key (table from c2.dict)) c2.dict;
    } in
    let total = entry_bytes e in
    let c4 = ar_type_stats_sub_key (type_of e.value) total c3 in
    let c5 = ar_mem_sub total c4 in
    let c6 = drop_pin e c5 in
    let c7 = record c6 { dict = drop_tier_key tier c6.dict } in
    record c7 { dict = record c7.dict { nkeys = dec c7.nkeys } }
