-- ===== src/Core/Typed/Creates.antt =====
-- About the creation of an entry with an empty object.
use aura_redis.Prelude.{ℕ, ◌+◌, ◌^◌, ◌<◌, ◌≡◌, refl, none, some, length, arith}
use aura_redis.Bytes.{Bytes, bytes_eq_refl, eq_of_bytes_eq}
use aura_redis.Entry.{Entry, entry_bytes, payload_bytes, sizeof_entry}
use aura_redis.Table.{find_in_table}
use aura_redis.Table.Weight.{weigh-link_entry, length-link_entry}
use aura_redis.Table.Search.{tally, find-link_entry}
use aura_redis.Table.Placed.{link-IsPlaced}
use aura_redis.Core.{Core}
use aura_redis.Core.Counters.{ar_mem_add, ar_type_stats_add_key, ar_type_stats_note_bigkey}
use aura_redis.Core.Set.Steps.{content, Rewrites}
use aura_redis.Core.Set.Links.{absent}
use aura_redis.Core.Typed.{Kind, new_object, link_object}
use aura_redis.Core.Typed.Writes.{IsKind, type_le}
use aura_redis.Core.Invariant.{
  total, one, has_ttl, deadline, is_pinned, of_type, bytes_of_type, Accounted, IsShaped, IsCounted,
  IsValid, lookup,
}

module _ {A : Type 0} (k : Kind A) (laws : IsKind k) (key : Bytes) (c : Core) (v : IsValid c)
    (missing : lookup key c.dict ≡ none) where
  abbrev fresh_pay : ℕ
  fresh_pay = payload_bytes (k.wrap k.fresh)

  abbrev e : Entry
  e = new_object k key c

  missing_hot : find_in_table key c.buckets ≡ none
  unfolding lookup
  missing_hot = ground (arith, missing)

  missing_cold : find_in_table key c.cold_buckets ≡ none
  unfolding lookup
  missing_cold = ground (arith, missing)

  pub total-link_object :
      (m : Entry → ℕ) → total m (link_object k key c).dict ≡ total m c.dict + m e
  unfolding link_object ar_mem_add ar_type_stats_add_key ar_type_stats_note_bigkey
  total-link_object m = omega (arith, weigh-link_entry m e c.buckets v.shape.hot_pos)

  pub bytes-new : entry_bytes e ≡ length key + sizeof_entry + fresh_pay
  unfolding entry_bytes
  bytes-new = omega arith

  link_object-IsShaped : IsShaped (link_object k key c).dict
  unfolding link_object ar_mem_add ar_type_stats_add_key ar_type_stats_note_bigkey
  link_object-IsShaped = record {
    hot_pos = omega (arith, length-link_entry e c.buckets, v.shape.hot_pos);
    cold_pos = v.shape.cold_pos;
    cold_null = v.shape.cold_null;
    placed_hot = link-IsPlaced e c.buckets v.shape.hot_pos v.shape.placed_hot;
    placed_cold = v.shape.placed_cold;
    once = λ j. ground (
      arith,
      total-link_object (tally j),
      v.shape.once j,
      eq_of_bytes_eq key j,
      absent key c.buckets v.shape.placed_hot missing_hot,
      absent key c.cold_buckets v.shape.placed_cold missing_cold,
    );
  }

  link_object-IsCounted : IsCounted (link_object k key c).dict
  unfolding link_object ar_mem_add ar_type_stats_add_key ar_type_stats_note_bigkey
  link_object-IsCounted = record {
    keys = ground (arith, total-link_object one, v.counts.keys);
    hot_keys = ground (arith, weigh-link_entry one e c.buckets v.shape.hot_pos, v.counts.hot_keys);
    cold_keys = v.counts.cold_keys;
  }

  module _ (h : total entry_bytes c.dict + (length key + sizeof_entry + fresh_pay) < 2 ^ 64) where
    link_object-Accounted : Accounted (link_object k key c).dict (link_object k key c).usage
    unfolding link_object ar_mem_add ar_type_stats_add_key ar_type_stats_note_bigkey
    link_object-Accounted =
        let a = v.accounts in
        record {
          memory = ground (arith, total-link_object entry_bytes, bytes-new, a.memory, h);
          ttl_keys = ground (arith, total-link_object has_ttl, a.ttl_keys);
          ttl_sum = ground (arith, total-link_object deadline, a.ttl_sum);
          pins = ground (arith, total-link_object is_pinned, a.pins);
          type_keys = λ t. ground (
            arith,
            total-link_object (of_type t),
            a.type_keys t,
            a.type_keys k.tag,
            laws.tagged k.fresh,
          );
          type_memory = λ t. ground (
            arith,
            total-link_object (bytes_of_type t),
            bytes-new,
            laws.tagged k.fresh,
            a.type_memory t,
            a.type_memory k.tag,
            type_le k.tag c.dict,
            h,
          );
        }

    pub link_object-Rewrites : Rewrites key (content (some e)) c (link_object k key c)
    unfolding link_object ar_mem_add ar_type_stats_add_key ar_type_stats_note_bigkey lookup
    link_object-Rewrites = record {
      valid = record {
        shape = link_object-IsShaped;
        counts = link_object-IsCounted;
        accounts = link_object-Accounted;
      };
      at_key = rw (find-link_entry e c.buckets key v.shape.hot_pos) (rw (bytes_eq_refl key) refl);
      others = λ j ne. rw (find-link_entry e c.buckets j v.shape.hot_pos) (rw ne refl);
      same_knobs = refl;
    }
