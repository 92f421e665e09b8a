-- ===== src/Core/Set/Links.antt =====
-- About SET of a new key, in `ar_entry_set_ex` of native/src/ar_core.c.
use aura_redis.Prelude.{
  ℕ, ◌+◌, ◌^◌, ◌<◌, ◌≡◌, refl, ◌∙◌, none, some, length, get_or, [], ◌∷◌, arith,
}
use aura_redis.Bytes.{Bytes, bytes_eq_refl, eq_of_bytes_eq}
use aura_redis.Entry.{string, Entry, entry_bytes, payload_bytes, sizeof_entry}
use aura_redis.Table.{Table, find_in_table, slot}
use aura_redis.Table.Weight.{weigh, weigh-link_entry, length-link_entry}
use aura_redis.Table.Search.{tally, tally-eq_zero, find-link_entry}
use aura_redis.Table.Placed.{IsPlaced, link-IsPlaced}
use aura_redis.Core.{Core}
use aura_redis.Core.Counters.{ar_mem_add, ar_type_stats_add_key, ar_type_stats_note_bigkey}
use aura_redis.Core.Set.{new_entry, link_new}
use aura_redis.Core.Set.Steps.{content, Rewrites, strings_le}
use aura_redis.Core.Invariant.{
  total, one, has_ttl, deadline, is_pinned, of_type, bytes_of_type, Accounted, IsShaped, IsCounted,
  IsValid, lookup,
}

-- A key that a search does not find stands nowhere.
pub absent : (k : Bytes) (t : Table) → IsPlaced t → find_in_table k t ≡ none → weigh (tally k) t ≡ 0
unfolding find_in_table
absent k [] p h = unfold weigh in refl
absent k (b ∷ t) p h = ground (arith, p.at k, tally-eq_zero k (get_or (b ∷ t) (slot k (b ∷ t)) []))

module _ (key val : Bytes) (c : Core) (v : IsValid c) (missing : lookup key c.dict ≡ none) where
  abbrev e : Entry
  e = new_entry key val c

  missing_hot : find_in_table key c.buckets ≡ none
  unfolding lookup
  missing_hot = ground (arith, missing)

  missing_cold : find_in_table key c.cold_buckets ≡ none
  unfolding lookup
  missing_cold = ground (arith, missing)

  pub total-link_new : (m : Entry → ℕ) → total m (link_new key val c).dict ≡ total m c.dict + m e
  unfolding link_new ar_mem_add ar_type_stats_add_key ar_type_stats_note_bigkey
  total-link_new m = omega (arith, weigh-link_entry m e c.buckets v.shape.hot_pos)

  bytes-new : entry_bytes e ≡ length key + length val + sizeof_entry
  unfolding entry_bytes payload_bytes
  bytes-new = refl

  link_new-IsShaped : IsShaped (link_new key val c).dict
  unfolding link_new ar_mem_add ar_type_stats_add_key ar_type_stats_note_bigkey
  link_new-IsShaped = record {
    hot_pos = omega (arith, length-link_entry e c.buckets, v.shape.hot_pos);
    cold_pos = v.shape.cold_pos;
    cold_null = v.shape.cold_null;
    placed_hot = link-IsPlaced e c.buckets v.shape.hot_pos v.shape.placed_hot;
    placed_cold = v.shape.placed_cold;
    once = λ k. ground (
      arith,
      total-link_new (tally k),
      v.shape.once k,
      eq_of_bytes_eq key k,
      absent key c.buckets v.shape.placed_hot missing_hot,
      absent key c.cold_buckets v.shape.placed_cold missing_cold,
    );
  }

  link_new-IsCounted : IsCounted (link_new key val c).dict
  unfolding link_new ar_mem_add ar_type_stats_add_key ar_type_stats_note_bigkey
  link_new-IsCounted = record {
    keys = ground (arith, total-link_new one, v.counts.keys);
    hot_keys = ground (arith, weigh-link_entry one e c.buckets v.shape.hot_pos, v.counts.hot_keys);
    cold_keys = v.counts.cold_keys;
  }

  module _ (h : total entry_bytes c.dict + (length key + length val + sizeof_entry) < 2 ^ 64) where
    link_new-Accounted : Accounted (link_new key val c).dict (link_new key val c).usage
    unfolding link_new ar_mem_add ar_type_stats_add_key ar_type_stats_note_bigkey
    link_new-Accounted =
        let a = v.accounts in
        record {
          memory = ground (arith, total-link_new entry_bytes, bytes-new, a.memory, h);
          ttl_keys = ground (arith, total-link_new has_ttl, a.ttl_keys);
          ttl_sum = ground (arith, total-link_new deadline, a.ttl_sum);
          pins = ground (arith, total-link_new is_pinned, a.pins);
          type_keys =
              λ t. ground (arith, total-link_new (of_type t), a.type_keys t, a.type_keys string);
          type_memory = λ t. ground (
            arith,
            total-link_new (bytes_of_type t),
            bytes-new,
            a.type_memory t,
            a.type_memory string,
            strings_le c.dict,
            h,
          );
        }

    pub link_new-Rewrites : Rewrites key (content (some e)) c (link_new key val c)
    unfolding link_new ar_mem_add ar_type_stats_add_key ar_type_stats_note_bigkey lookup
    link_new-Rewrites = record {
      valid = record {
        shape = link_new-IsShaped;
        counts = link_new-IsCounted;
        accounts = link_new-Accounted;
      };
      at_key = rw (find-link_entry e c.buckets key v.shape.hot_pos) (rw (bytes_eq_refl key) refl);
      others = λ k ne. rw (find-link_entry e c.buckets k v.shape.hot_pos) (rw ne refl);
      same_knobs = refl;
    }

  pub link_new-stands : find_in_table key (link_new key val c).buckets ≡ some e
  unfolding link_new ar_mem_add ar_type_stats_add_key ar_type_stats_note_bigkey
  link_new-stands = find-link_entry e c.buckets key v.shape.hot_pos ∙ (rw (bytes_eq_refl key) refl)
