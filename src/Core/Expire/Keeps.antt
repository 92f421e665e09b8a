-- ===== src/Core/Expire/Keeps.antt =====
-- About the expiry commands of native/src/ar_core.c and the invariant.
use aura_redis.Prelude.{
  ℕ, ◌+◌, ◌^◌, ◌<◌, ◌≡◌, refl, Option, none, some, inl, inr, Bool-cases, if◌then◌else◌, arith,
  add64, ℤ, is_nonpos, magnitude,
}
use aura_redis.Bytes.{Bytes, bytes_eq}
use aura_redis.Entry.{Entry, entry_bytes}
use aura_redis.Table.{find_in_table}
use aura_redis.Core.{Core, Tier}
use aura_redis.Core.Counters.{entry_clear_expire, entry_set_expire_at}
use aura_redis.Core.Watch.{ar_watch_touch}
use aura_redis.Core.Free.{table}
use aura_redis.Core.Find.{ar_find_entry_ex}
use aura_redis.Core.Find.Keeps.{Located, find-Finds}
use aura_redis.Core.Store.{store_at}
use aura_redis.Core.Store.Keeps.{
  le-total, total-store, store-IsShaped, store-IsCounted, lookup-store,
}
use aura_redis.Core.Expire.{clear_deadline, set_deadline, expire_found, ar_pexpire}
use aura_redis.Core.Invariant.{
  total, has_ttl, deadline, is_pinned, of_type, bytes_of_type, Accounted, IsShaped, IsValid, lookup,
}

-- The entry with another deadline.
abbrev pub with_deadline : ℕ → Entry → Entry
with_deadline at e = record e { expire_at = at }

module _ (key : Bytes) (tier : Tier) (e : Entry) (c : Core)
    (f : find_in_table e.key (table tier c.dict) ≡ some e) where
  sum-store :
      (at : ℕ) (m : Entry → ℕ)
      → total m (store_at tier (with_deadline at e) c).dict + m e
        ≡ total m c.dict + m (with_deadline at e)
  sum-store at m = total-store tier e (with_deadline at e) c f refl m

  pub set_deadline-Accounted :
      (at : ℕ)
      → total deadline c.dict + at < 2 ^ 64
      → Accounted c.dict c.usage
      → Accounted (set_deadline key at tier e c).dict (set_deadline key at tier e c).usage
  unfolding set_deadline entry_set_expire_at ar_watch_touch store_at entry_bytes
  set_deadline-Accounted at h a = record {
    memory = ground (arith, sum-store at entry_bytes, a.memory);
    ttl_keys = ground (arith, sum-store at has_ttl, a.ttl_keys, le-total has_ttl tier e c f);
    ttl_sum = ground (arith, sum-store at deadline, a.ttl_sum, h, le-total deadline tier e c f);
    pins = ground (arith, sum-store at is_pinned, a.pins);
    type_keys = λ t. ground (arith, sum-store at (of_type t), a.type_keys t);
    type_memory = λ t. ground (arith, sum-store at (bytes_of_type t), a.type_memory t);
  }

  clear_deadline-Accounted :
      Accounted c.dict c.usage
      → Accounted (clear_deadline key tier e c).dict (clear_deadline key tier e c).usage
  unfolding clear_deadline entry_clear_expire ar_watch_touch store_at entry_bytes
  clear_deadline-Accounted a = record {
    memory = ground (arith, sum-store 0 entry_bytes, a.memory);
    ttl_keys = ground (arith, sum-store 0 has_ttl, a.ttl_keys);
    ttl_sum = ground (arith, sum-store 0 deadline, a.ttl_sum);
    pins = ground (arith, sum-store 0 is_pinned, a.pins);
    type_keys = λ t. ground (arith, sum-store 0 (of_type t), a.type_keys t);
    type_memory = λ t. ground (arith, sum-store 0 (bytes_of_type t), a.type_memory t);
  }

  set_deadline-IsValid :
      (at : ℕ)
      → total deadline c.dict + at < 2 ^ 64
      → IsValid c
      → IsValid (set_deadline key at tier e c)
  unfolding set_deadline entry_set_expire_at ar_watch_touch store_at
  set_deadline-IsValid at h v = record {
    shape = store-IsShaped tier e (with_deadline at e) c f refl v.shape;
    counts = store-IsCounted tier e (with_deadline at e) c f refl v.counts;
    accounts = set_deadline-Accounted at h v.accounts;
  }

  clear_deadline-IsValid : IsValid c → IsValid (clear_deadline key tier e c)
  unfolding clear_deadline entry_clear_expire ar_watch_touch store_at
  clear_deadline-IsValid v = record {
    shape = store-IsShaped tier e (with_deadline 0 e) c f refl v.shape;
    counts = store-IsCounted tier e (with_deadline 0 e) c f refl v.counts;
    accounts = clear_deadline-Accounted v.accounts;
  }

  pub lookup-clear_deadline :
      (k : Bytes)
      → IsShaped c.dict
      → lookup k (clear_deadline key tier e c).dict
        ≡ (if bytes_eq e.key k then some (with_deadline 0 e) else lookup k c.dict)
  unfolding clear_deadline entry_clear_expire ar_watch_touch store_at
  lookup-clear_deadline k a = lookup-store tier e (with_deadline 0 e) c k f a

  pub lookup-set_deadline :
      (at : ℕ) (k : Bytes)
      → IsShaped c.dict
      → lookup k (set_deadline key at tier e c).dict
        ≡ (if bytes_eq e.key k then some (with_deadline at e) else lookup k c.dict)
  unfolding set_deadline entry_set_expire_at ar_watch_touch store_at
  lookup-set_deadline at k a = lookup-store tier e (with_deadline at e) c k f a

module _ (key : Bytes) (amount : ℤ) (at : ℕ) where
  expire_found-IsValid :
      (r : Core × Option (Tier × Entry))
      → IsValid r.0
      → Located r.0 r.1
      → total deadline r.0.dict + at < 2 ^ 64
      → IsValid (expire_found key amount at r).0
  unfolding expire_found
  expire_found-IsValid (c, none) v l h = v
  expire_found-IsValid (c, some (tier, e)) v l h = elim (Bool-cases (is_nonpos amount)) [
    | inl past ↦ rw past (clear_deadline-IsValid key tier e c l v)
    | inr future ↦ rw future (set_deadline-IsValid key tier e c l at h v)
  ]

  pub expire-IsValid :
      (now : ℕ) (c : Core)
      → IsValid c
      → total deadline c.dict + at < 2 ^ 64
      → IsValid (expire_found key amount at (ar_find_entry_ex now key c)).0
  expire-IsValid now c v h =
      let s = find-Finds now key c v in
      expire_found-IsValid (ar_find_entry_ex now key c) s.valid s.located
        (omega (arith, s.shrinks deadline))

-- PEXPIRE, with any argument, keeps the invariant while the sum of deadlines stays below 2^64.
pub pexpire-IsValid :
    (now : ℕ) (key : Bytes) (ms : ℤ) (c : Core)
    → IsValid c
    → total deadline c.dict + add64 now (magnitude ms) < 2 ^ 64
    → IsValid (ar_pexpire now key ms c).0
unfolding ar_pexpire
pexpire-IsValid now key ms c v h = expire-IsValid key ms (add64 now (magnitude ms)) now c v h
