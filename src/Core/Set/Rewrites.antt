-- ===== src/Core/Set/Rewrites.antt =====
-- About SET's writes to an entry that stands in a table: its value, deadline and access time.
use aura_redis.Prelude.{ℕ, ◌+◌, ◌^◌, ◌<◌, ◌≡◌, refl, some, [], length, arith}
use aura_redis.Bytes.{Bytes}
use aura_redis.Entry.{string, str, Entry, entry_bytes, payload_bytes, sizeof_entry}
use aura_redis.Table.{find_in_table}
use aura_redis.Core.{Core, Tier}
use aura_redis.Core.Counters.{
  ar_type_stats_note_bigkey, ar_type_stats_sub_key, ar_type_stats_add_key, ar_mem_sub,
  type_bytes_add, type_bytes_sub, entry_set_expire_at,
}
use aura_redis.Core.Free.{table}
use aura_redis.Core.Watch.{ar_watch_touch}
use aura_redis.Core.Expire.{set_deadline}
use aura_redis.Core.Expire.Keeps.{with_deadline, set_deadline-Accounted}
use aura_redis.Core.Store.{store_at}
use aura_redis.Core.Store.Keeps.{le-total, total-store, store-stands}
use aura_redis.Core.Set.{blank, drop_obj, set_value, put_deadline}
use aura_redis.Core.Set.Steps.{content, Rewrites, store-Rewrites, drop_obj-Accounted, strings_le}
use aura_redis.Core.Invariant.{
  total, has_ttl, deadline, is_pinned, of_type, bytes_of_type, Accounted, IsValid,
}

-- `e'` has taken the place of `e`.
pub record Writes (tier : Tier) (e e' : Entry) (c c' : Core) : Type 0 where
  pub rewrites : Rewrites e'.key (content (some e')) c c'
  pub stands : find_in_table e'.key (table tier c'.dict) ≡ some e'
  pub totals : (m : Entry → ℕ) → total m c'.dict + m e ≡ total m c.dict + m e'
  pub same_layout : c'.layout ≡ c.layout

abbrev pub with_string : Bytes → Entry → Entry
with_string v e = record e { value = str v }

module _ (tier : Tier) (c : Core) where
  pub drop_obj-Writes :
      (e : Entry)
      → find_in_table e.key (table tier c.dict) ≡ some e
      → total entry_bytes c.dict + (length e.key + sizeof_entry) < 2 ^ 64
      → IsValid c
      → Writes tier e (blank e) c (drop_obj tier e c)
  unfolding drop_obj ar_type_stats_sub_key ar_mem_sub ar_type_stats_add_key store_at
  drop_obj-Writes e f h v = record {
    rewrites =
        store-Rewrites tier e (blank e) c (drop_obj tier e c) f refl refl refl
          (drop_obj-Accounted tier e c f h v.accounts) v;
    stands = store-stands tier e (blank e) c f;
    totals = λ m. total-store tier e (blank e) c f refl m;
    same_layout = refl;
  }

  module _ (old val : Bytes) (e : Entry)
      (f : find_in_table e.key (table tier c.dict) ≡ some (with_string old e)) where
    abbrev b : Entry
    b = with_string old e

    abbrev new : Entry
    new = record b { value = str val; last_access = c.clock + 1 }

    abbrev after : Core
    after = set_value val (length old) tier b c

    pub set_value-Writes :
        total entry_bytes c.dict + (length b.key + length val + sizeof_entry) < 2 ^ 64
        → IsValid c
        → Writes tier b new c after
    unfolding set_value ar_type_stats_note_bigkey type_bytes_add type_bytes_sub store_at
    set_value-Writes h v =
        let sum = λ (m : Entry → ℕ). total-store tier b new c f refl m in
        let low = λ (m : Entry → ℕ). le-total m tier b c f in
        let a = v.accounts in
        record {
          rewrites =
              store-Rewrites tier b new c after f refl refl refl
                (unfold entry_bytes payload_bytes in
                  record {
                    memory = ground (arith, sum entry_bytes, low entry_bytes, a.memory, h);
                    ttl_keys = ground (arith, sum has_ttl, a.ttl_keys);
                    ttl_sum = ground (arith, sum deadline, a.ttl_sum);
                    pins = ground (arith, sum is_pinned, a.pins);
                    type_keys = λ t. ground (arith, sum (of_type t), a.type_keys t);
                    type_memory = λ t. ground (
                      arith,
                      sum (bytes_of_type t),
                      low (bytes_of_type t),
                      a.type_memory t,
                      a.type_memory string,
                      strings_le c.dict,
                      h,
                    );
                  })
                v;
          stands = store-stands tier b new c f;
          totals = sum;
          same_layout = refl;
        }

  pub put_deadline-Writes :
      (at : ℕ) (e : Entry)
      → find_in_table e.key (table tier c.dict) ≡ some e
      → total deadline c.dict + at < 2 ^ 64
      → IsValid c
      → Writes tier e (with_deadline at e) c (put_deadline at tier e c)
  unfolding put_deadline entry_set_expire_at store_at
  put_deadline-Writes at e f h v = record {
    rewrites =
        store-Rewrites tier e (with_deadline at e) c (put_deadline at tier e c) f refl refl refl
          (accounted) v;
    stands = store-stands tier e (with_deadline at e) c f;
    totals = λ m. total-store tier e (with_deadline at e) c f refl m;
    same_layout = refl;
  }
    where
      accounted : Accounted (put_deadline at tier e c).dict (put_deadline at tier e c).usage
      accounted =
          unfold ar_watch_touch set_deadline in set_deadline-Accounted [] tier e c f at h v.accounts
