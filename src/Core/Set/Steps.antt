-- ===== src/Core/Set/Steps.antt =====
-- About the steps of SET, one by one, in `ar_entry_set_ex` of native/src/ar_core.c.
use aura_redis.Prelude.{
  ℕ, ◌+◌, ◌^◌, ◌≤◌, ◌<◌, ◌≡◌, refl, false, Option, none, some, length, arith, if◌then◌else◌,
}
use aura_redis.Bytes.{Bytes, bytes_eq, bytes_eq_refl}
use aura_redis.Entry.{
  string, type_eq, Value, type_of, Entry, entry_bytes, payload_bytes, sizeof_entry,
}
use aura_redis.Table.{find_in_table}
use aura_redis.Table.Weight.{weigh_mono}
use aura_redis.Core.{Core, Dict, Tier}
use aura_redis.Core.Counters.{ar_mem_sub, ar_type_stats_sub_key, ar_type_stats_add_key}
use aura_redis.Core.Free.{table}
use aura_redis.Core.Store.{store_at}
use aura_redis.Core.Store.Keeps.{
  le-total, total-store, store-IsShaped, store-IsCounted, lookup-store,
}
use aura_redis.Core.Set.Retype.{moved_keys, moved_bytes}
use aura_redis.Core.Set.{blank, drop_obj}
use aura_redis.Core.Invariant.{
  total, has_ttl, deadline, is_pinned, of_type, bytes_of_type, Accounted, IsValid, lookup,
}

-- What a client can tell of a stored entry: the value and the deadline.
pub record Content : Type 0 where
  pub value : Value
  pub expire_at : ℕ

abbrev pub content : Option Entry → Option Content
content none = none
content (some e) = some (record { value = e.value; expire_at = e.expire_at })

abbrev pub view : Bytes → Core → Option Content
view k c = content (lookup k c.dict)

-- After `c'` the entry of `key` is `o`, and the other keys have what they had in `c`.
pub record Rewrites (key : Bytes) (o : Option Content) (c c' : Core) : Type 0 where
  pub valid : IsValid c'
  pub at_key : view key c' ≡ o
  pub others : (k : Bytes) → bytes_eq key k ≡ false → view k c' ≡ view k c
  pub same_knobs : c'.knobs ≡ c.knobs

pub strings_le : (d : Dict) → total (bytes_of_type string) d ≤ total entry_bytes d
strings_le d =
    let part : (e : Entry) → bytes_of_type string e ≤ entry_bytes e = λ e. ground arith in
    omega (
      arith,
      weigh_mono (bytes_of_type string) entry_bytes part d.buckets,
      weigh_mono (bytes_of_type string) entry_bytes part d.cold_buckets,
    )

module _ (tier : Tier) (e : Entry) (c : Core)
    (f : find_in_table e.key (table tier c.dict) ≡ some e) where
  sum-blank :
      (m : Entry → ℕ) → total m (drop_obj tier e c).dict + m e ≡ total m c.dict + m (blank e)
  unfolding drop_obj ar_type_stats_sub_key ar_mem_sub ar_type_stats_add_key store_at
  sum-blank m = unfold store_at in total-store tier e (blank e) c f refl m

  blank_bytes : entry_bytes (blank e) ≡ length e.key + sizeof_entry
  unfolding entry_bytes payload_bytes
  blank_bytes = ground arith

  pub blank_le : entry_bytes (blank e) ≤ entry_bytes e
  unfolding entry_bytes payload_bytes
  blank_le = ground arith

  own_type : (m : ℕ) → (if type_eq (type_of e.value) (type_of e.value) then m else 0) ≡ m
  own_type m = ground arith

  pub drop_obj-Accounted :
      total entry_bytes c.dict + (length e.key + sizeof_entry) < 2 ^ 64
      → Accounted c.dict c.usage
      → Accounted (drop_obj tier e c).dict (drop_obj tier e c).usage
  unfolding drop_obj ar_type_stats_sub_key ar_mem_sub ar_type_stats_add_key store_at
  drop_obj-Accounted h a = record {
    memory =
        unfold entry_bytes payload_bytes in
        ground (arith, sum-blank entry_bytes, a.memory, le-total entry_bytes tier e c f);
    ttl_keys = ground (arith, sum-blank has_ttl, a.ttl_keys);
    ttl_sum = ground (arith, sum-blank deadline, a.ttl_sum);
    pins = ground (arith, sum-blank is_pinned, a.pins);
    type_keys = λ t.
        moved_keys c.type_nkeys (λ u. total (of_type u) c.dict)
          (λ u. total (of_type u) (drop_obj tier e c).dict) a.type_keys (type_of e.value) t
          (omega (arith, le-total (of_type (type_of e.value)) tier e c f, own_type 1))
          (sum-blank (of_type t));
    type_memory = λ t.
        moved_bytes c.type_bytes (λ u. total (bytes_of_type u) c.dict)
          (λ u. total (bytes_of_type u) (drop_obj tier e c).dict) a.type_memory (entry_bytes e)
          (length e.key + sizeof_entry) (type_of e.value) t
          (omega (
            arith,
            le-total (bytes_of_type (type_of e.value)) tier e c f,
            own_type (entry_bytes e),
          ))
          (omega (arith, h, strings_le c.dict))
          (ground (arith, sum-blank (bytes_of_type t), blank_bytes));
  }

-- What is needed of a state that has overwritten one entry.
pub store-Rewrites :
    (tier : Tier) (e e' : Entry) (c c' : Core)
    → find_in_table e'.key (table tier c.dict) ≡ some e
    → e.key ≡ e'.key
    → c'.dict ≡ (store_at tier e' c).dict
    → c'.knobs ≡ c.knobs
    → Accounted c'.dict c'.usage
    → IsValid c
    → Rewrites e'.key (content (some e')) c c'
store-Rewrites tier e e' c c' f own d n a v = record {
  valid = record {
    shape = rw d (store-IsShaped tier e e' c f own v.shape);
    counts = rw d (store-IsCounted tier e e' c f own v.counts);
    accounts = a;
  };
  at_key = rw d (rw (lookup-store tier e e' c e'.key f v.shape) (rw (bytes_eq_refl e'.key) refl));
  others = λ k ne. rw d (rw (lookup-store tier e e' c k f v.shape) (rw ne refl));
  same_knobs = n;
}
