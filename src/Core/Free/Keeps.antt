-- ===== src/Core/Free/Keeps.antt =====
-- About `ar_entry_free_ex` of native/src/ar_core.c: the invariant, sums and searches.
use aura_redis.Prelude.{
  get_or, inl, inr, Bool-cases, Option-cases, ℕ, ◌+◌, ◌≤◌, ◌≡◌, refl, false, none, some, [], length,
  if◌then◌else◌, ◌==◌, arith, length-set,
}
use aura_redis.Bytes.{Bytes, bytes_eq, bytes_eq_refl, eq_of_bytes_eq}
use aura_redis.Entry.{Entry, entry_bytes}
use aura_redis.Table.{Table, slot, unlink_bucket, find_in_table, unlink_entry}
use aura_redis.Table.Weight.{weigh, weigh-unlink_entry, find-pos}
use aura_redis.Table.Search.{tally, find-key, find_in_table-none, find-unlink_ne, find-unlink_self}
use aura_redis.Table.Placed.{unlink-IsPlaced}
use aura_redis.Core.{Core, Dict, Tier, hot, cold}
use aura_redis.Core.Free.{ar_entry_free_ex, table}
use aura_redis.Core.Invariant.{
  total, one, has_ttl, deadline, is_pinned, of_type, bytes_of_type, Accounted, IsShaped, IsCounted,
  IsValid, lookup,
}

module _ (e : Entry) (c : Core) where
  abbrev freed : Tier → Core
  freed tier = ar_entry_free_ex tier e c

  pub total-free :
      (m : Entry → ℕ) (tier : Tier)
      → find_in_table e.key (table tier c.dict) ≡ some e
      → total m (freed tier).dict + m e ≡ total m c.dict
  unfolding ar_entry_free_ex
  total-free m hot f = ground (arith, weigh-unlink_entry m e.key c.buckets e f)
  total-free m cold f =
      ground
        (arith, weigh-unlink_entry m e.key c.cold_buckets e f, find-pos e.key c.cold_buckets e f)

  module _ (tier : Tier) (f : find_in_table e.key (table tier c.dict) ≡ some e) where
    free-Accounted : Accounted c.dict c.usage → Accounted (freed tier).dict (freed tier).usage
    unfolding ar_entry_free_ex
    free-Accounted a = record {
      memory = ground (arith, total-free entry_bytes tier f, a.memory);
      ttl_keys = ground (arith, total-free has_ttl tier f, a.ttl_keys);
      ttl_sum = ground (arith, total-free deadline tier f, a.ttl_sum);
      pins = ground (arith, total-free is_pinned tier f, a.pins);
      type_keys = λ t. ground (arith, total-free (of_type t) tier f, a.type_keys t);
      type_memory = λ t. ground (arith, total-free (bytes_of_type t) tier f, a.type_memory t);
    }

    free-IsCounted : IsCounted c.dict → IsCounted (freed tier).dict
    unfolding ar_entry_free_ex
    free-IsCounted a = record {
      keys = ground (arith, total-free one tier f, a.keys);
      hot_keys = ground (
        arith,
        weigh-unlink_entry one e.key (table tier c.dict) e f,
        a.hot_keys,
        find-pos e.key (table tier c.dict) e f,
      );
      cold_keys = ground (
        arith,
        weigh-unlink_entry one e.key (table tier c.dict) e f,
        a.cold_keys,
        find-pos e.key (table tier c.dict) e f,
      );
    }

  pub unlink-length : (k : Bytes) (t : Table) → length (unlink_entry k t) ≡ length t
  unfolding unlink_entry
  unlink-length k t = length-set t (slot k t) (unlink_bucket k (get_or t (slot k t) []))

  free-IsShaped :
      (tier : Tier)
      → find_in_table e.key (table tier c.dict) ≡ some e
      → IsShaped c.dict
      → IsShaped (freed tier).dict
  unfolding ar_entry_free_ex
  free-IsShaped hot f a = record {
    hot_pos = omega (arith, unlink-length e.key c.buckets, a.hot_pos);
    cold_pos = a.cold_pos;
    cold_null = a.cold_null;
    placed_hot = unlink-IsPlaced e.key c.buckets e f (bytes_eq_refl e.key) a.placed_hot;
    placed_cold = a.placed_cold;
    once = λ k. omega (arith, total-free (tally k) hot f, a.once k);
  }
  free-IsShaped cold f a =
      let n = find-pos e.key c.cold_buckets e f in
      let there : (length c.cold_buckets == 0) ≡ false = ground arith in
      let same = unlink-length e.key c.cold_buckets in
      rw there (record {
        hot_pos = a.hot_pos;
        cold_pos = omega (arith, same, a.cold_pos);
        cold_null = ground (arith, same, a.cold_null);
        placed_hot = a.placed_hot;
        placed_cold = unlink-IsPlaced e.key c.cold_buckets e f (bytes_eq_refl e.key) a.placed_cold;
        once = λ k. omega (arith, weigh-unlink_entry (tally k) e.key c.cold_buckets e f, a.once k);
      })

-- Freeing an entry that stands in the tier named keeps the invariant.
pub free-IsValid :
    (tier : Tier) (e : Entry) (c : Core)
    → find_in_table e.key (table tier c.dict) ≡ some e
    → IsValid c
    → IsValid (ar_entry_free_ex tier e c)
free-IsValid tier e c f v = record {
  shape = free-IsShaped e c tier f v.shape;
  counts = free-IsCounted e c tier f v.counts;
  accounts = free-Accounted e c tier f v.accounts;
}

pub tally-find :
    (k : Bytes) (t : Table) (e : Entry) → find_in_table k t ≡ some e → 1 ≤ weigh (tally k) t
tally-find k t e f = ground (arith, find_in_table-none k t)

-- Afterwards its key finds nothing, and every other key finds what it found.
pub lookup-free :
    (tier : Tier) (e : Entry) (c : Core) (k : Bytes)
    → find_in_table e.key (table tier c.dict) ≡ some e
    → IsShaped c.dict
    → lookup k (ar_entry_free_ex tier e c).dict
      ≡ (if bytes_eq e.key k then none else lookup k c.dict)
unfolding lookup ar_entry_free_ex
lookup-free hot e c k f a = elim (Bool-cases (bytes_eq e.key k)) [
  | inl same ↦
      let p : e.key ≡ k = eq_of_bytes_eq e.key k same in
      rw (same, ← p)
        (ground (
          arith,
          find-unlink_self e.key c.buckets a.hot_pos (omega (arith, a.once e.key)),
          find_in_table-none e.key c.cold_buckets
              (omega (arith, a.once e.key, tally-find e.key c.buckets e f)),
        ))
  | inr other ↦ rw other (rw (find-unlink_ne e.key k c.buckets a.hot_pos other) refl)
]
lookup-free cold e c k f a =
    let pos = find-pos e.key c.cold_buckets e f in
    let there : (length c.cold_buckets == 0) ≡ false = ground arith in
    rw there (elim (Bool-cases (bytes_eq e.key k)) [
      | inl same ↦
          let p : e.key ≡ k = eq_of_bytes_eq e.key k same in
          rw (same, ← p)
            (ground (
              arith,
              find-unlink_self e.key c.cold_buckets pos (omega (arith, a.once e.key)),
              find_in_table-none e.key c.buckets
                  (omega (arith, a.once e.key, tally-find e.key c.cold_buckets e f)),
            ))
      | inr other ↦ rw other (rw (find-unlink_ne e.key k c.cold_buckets pos other) refl)
    ])

-- What is stored under a key has that key.
pub lookup-key : (k : Bytes) (d : Dict) (e : Entry) → lookup k d ≡ some e → e.key ≡ k
unfolding lookup
lookup-key k d e h = elim (Option-cases (find_in_table k d.buckets)) [
  | inl n ↦ find-key k d.cold_buckets e (ground arith)
  | inr (x, f) ↦ find-key k d.buckets e (ground arith)
]
