-- ===== src/Core/Store/Keeps.antt =====
-- About overwriting an entry in its table: the shape of the tables, sums and searches.
use aura_redis.Prelude.{
  ℕ, ◌+◌, ◌∙◌, ◌≤◌, ◌≡◌, refl, ap, some, [], length, get_or, length-set, if◌then◌else◌, arith,
}
use aura_redis.Bytes.{Bytes, bytes_eq, bytes_eq_refl, eq_of_bytes_eq}
use aura_redis.Entry.{Entry}
use aura_redis.Table.{Table, find_in_table, slot, store_bucket, store_entry}
use aura_redis.Table.Weight.{weigh-store_entry, weigh-unlink_entry}
use aura_redis.Table.Search.{tally, find-store_entry, find_in_table-none}
use aura_redis.Table.Placed.{store-IsPlaced}
use aura_redis.Core.{Core, Tier, hot, cold}
use aura_redis.Core.Free.{table}
use aura_redis.Core.Free.Keeps.{tally-find}
use aura_redis.Core.Store.{store_at}
use aura_redis.Core.Invariant.{total, one, IsShaped, IsCounted, lookup}

store-length : (k : Bytes) (e : Entry) (t : Table) → length (store_entry k e t) ≡ length t
unfolding store_entry
store-length k e t = length-set t (slot k t) (store_bucket k e (get_or t (slot k t) []))

-- A stored entry is part of every sum.
pub le-total :
    (m : Entry → ℕ) (tier : Tier) (e : Entry) (c : Core)
    → find_in_table e.key (table tier c.dict) ≡ some e
    → m e ≤ total m c.dict
le-total m hot e c f = omega (arith, weigh-unlink_entry m e.key c.buckets e f)
le-total m cold e c f = omega (arith, weigh-unlink_entry m e.key c.cold_buckets e f)

module _ (tier : Tier) (e e' : Entry) (c : Core)
    (f : find_in_table e'.key (table tier c.dict) ≡ some e) (own : e.key ≡ e'.key) where
  pub total-store :
      (m : Entry → ℕ) → total m (store_at tier e' c).dict + m e ≡ total m c.dict + m e'
  unfolding store_at
  total-store m = ground (arith, weigh-store_entry m e'.key e' (table tier c.dict) e f)

  pub store-IsCounted : IsCounted c.dict → IsCounted (store_at tier e' c).dict
  unfolding store_at
  store-IsCounted a = record {
    keys = ground (arith, total-store one, a.keys);
    hot_keys = ground (arith, weigh-store_entry one e'.key e' (table tier c.dict) e f, a.hot_keys);
    cold_keys =
        ground (arith, weigh-store_entry one e'.key e' (table tier c.dict) e f, a.cold_keys);
  }

  same_tally : (k : Bytes) → tally k e ≡ tally k e'
  same_tally k = ap (λ j. if bytes_eq j k then 1 else 0) own

pub store-IsShaped :
    (tier : Tier) (e e' : Entry) (c : Core)
    → find_in_table e'.key (table tier c.dict) ≡ some e
    → e.key ≡ e'.key
    → IsShaped c.dict
    → IsShaped (store_at tier e' c).dict
unfolding store_at
store-IsShaped hot e e' c f own a = record {
  hot_pos = omega (arith, store-length e'.key e' c.buckets, a.hot_pos);
  cold_pos = a.cold_pos;
  cold_null = a.cold_null;
  placed_hot =
      store-IsPlaced e'.key e' c.buckets e f (rw own (bytes_eq_refl e'.key)) (bytes_eq_refl e'.key)
        a.placed_hot;
  placed_cold = a.placed_cold;
  once = λ k. omega (
    arith,
    weigh-store_entry (tally k) e'.key e' c.buckets e f,
    same_tally hot e e' c f own k,
    a.once k,
  );
}
store-IsShaped cold e e' c f own a = record {
  hot_pos = a.hot_pos;
  cold_pos = omega (arith, store-length e'.key e' c.cold_buckets, a.cold_pos);
  cold_null = rw (store-length e'.key e' c.cold_buckets) a.cold_null;
  placed_hot = a.placed_hot;
  placed_cold =
      store-IsPlaced e'.key e' c.cold_buckets e f (rw own (bytes_eq_refl e'.key))
        (bytes_eq_refl e'.key) a.placed_cold;
  once = λ k. omega (
    arith,
    weigh-store_entry (tally k) e'.key e' c.cold_buckets e f,
    same_tally cold e e' c f own k,
    a.once k,
  );
}

pub lookup-store :
    (tier : Tier) (e e' : Entry) (c : Core) (k : Bytes)
    → find_in_table e'.key (table tier c.dict) ≡ some e
    → IsShaped c.dict
    → lookup k (store_at tier e' c).dict ≡ (if bytes_eq e'.key k then some e' else lookup k c.dict)
unfolding lookup store_at
lookup-store hot e e' c k f a =
    ground (arith, find-store_entry e'.key k e' c.buckets e (bytes_eq_refl e'.key) f)
lookup-store cold e e' c k f a = ground (
  arith,
  find-store_entry e'.key k e' c.cold_buckets e (bytes_eq_refl e'.key) f,
  eq_of_bytes_eq e'.key k,
  find_in_table-none e'.key c.buckets,
  tally-find e'.key c.cold_buckets e f,
  a.once e'.key,
)

pub store-stands :
    (tier : Tier) (e e' : Entry) (c : Core)
    → find_in_table e'.key (table tier c.dict) ≡ some e
    → find_in_table e'.key (table tier (store_at tier e' c).dict) ≡ some e'
unfolding store_at
store-stands hot e e' c f =
    find-store_entry e'.key e'.key e' c.buckets e (bytes_eq_refl e'.key) f
    ∙ (rw (bytes_eq_refl e'.key) refl)
store-stands cold e e' c f =
    find-store_entry e'.key e'.key e' c.cold_buckets e (bytes_eq_refl e'.key) f
    ∙ (rw (bytes_eq_refl e'.key) refl)
