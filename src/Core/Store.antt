-- ===== src/Core/Store.antt =====
-- Writes through an entry pointer: the entry is overwritten in the table of its tier.
pub mod Keeps
use aura_redis.Entry.{Entry}
use aura_redis.Table.{store_entry}
use aura_redis.Core.{Core, Tier}
use aura_redis.Core.Free.{table, put_table}

unfoldable pub store_at : Tier → Entry → Core → Core
store_at tier e c = record c {
  dict = put_table tier (store_entry e.key e (table tier c.dict)) c.dict;
}
