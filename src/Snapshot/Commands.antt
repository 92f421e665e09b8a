-- ===== src/Snapshot/Commands.antt =====
-- The commands that a load runs for the elements of objects.
use aura_redis.Prelude.{ℕ, ◌≡◌, refl, true, false, Option, List, [], ◌∷◌, arith}
use aura_redis.Bytes.{Bytes}
use aura_redis.Entry.{HashField, HashObj, ZNode, ZSet, Entry}
use aura_redis.Core.{Core}
use aura_redis.Core.Find.Keeps.{live}
use aura_redis.Core.Typed.{
  Typed, absent, wrong_type, typed, hash_kind, list_kind, zset_kind, ar_entry_get_or_create,
}
use aura_redis.Core.Typed.Stores.{is_wrong, object_at}
use aura_redis.Core.Typed.Obtains.{Obtains, get_or_create-Obtains}
use aura_redis.Core.Typed.Updates.{hash_kind-IsKind, list_kind-IsKind, zset_kind-IsKind}
use aura_redis.Core.Hashes.{hset_typed, ar_hash_hset}
use aura_redis.Core.Hashes.Stores.{with_fields, hset-Updates}
use aura_redis.Core.Lists.Writes.{push_values, push_typed, ar_list_push}
use aura_redis.Core.Lists.Stores.{push-Updates}
use aura_redis.Core.ZSets.{exceeds, zadd_typed, ar_zset_zadd}
use aura_redis.Core.ZSets.Stores.{with_nodes, zadd-Updates}
use aura_redis.Core.Invariant.{lookup}
use aura_redis.Snapshot.Read.{is_done, was_added, hset_loaded, push_loaded, zadd_loaded}
use aura_redis.Snapshot.Puts.{IsPut}

-- No condition on an element.
abbrev pub Any : {E A : Type 0} → E → A → Type 0
Any x a = Unit

-- The set has room for one more member, or has this one.
abbrev pub FitsSet : ZNode → ZSet → Type 0
FitsSet n z = exceeds (n ∷ []) z ≡ false

module _ (rand : ℕ → ℕ) (now : ℕ) (key : Bytes) where
  hset-done :
      (f : HashField) (L : Option Entry) (c : Core) (r : Core × Typed HashObj)
      → Obtains hash_kind hash_kind-IsKind rand now key L c r
      → c.maxmemory ≡ 0
      → is_wrong hash_kind L ≡ false
      → is_done (hset_typed rand now key (f ∷ []) r).1 ≡ true
  unfolding hset_typed
  hset-done f L c (c1, absent) o calm right = absurd (o.result calm)
  hset-done f L c (c1, wrong_type) o calm right =
      let wrong : is_wrong hash_kind L ≡ true = o.result in absurd cc
  hset-done f L c (c1, typed tier e h) o calm right = refl

  push-done :
      (v : Bytes) (L : Option Entry) (c : Core) (r : Core × Typed (List Bytes))
      → Obtains list_kind list_kind-IsKind rand now key L c r
      → c.maxmemory ≡ 0
      → is_wrong list_kind L ≡ false
      → is_done (push_typed rand now key false (v ∷ []) r).1 ≡ true
  unfolding push_typed
  push-done v L c (c1, absent) o calm right = absurd (o.result calm)
  push-done v L c (c1, wrong_type) o calm right =
      let wrong : is_wrong list_kind L ≡ true = o.result in absurd cc
  push-done v L c (c1, typed tier e l) o calm right = refl

  zadd-done :
      (n : ZNode) (L : Option Entry) (c : Core) (r : Core × Typed ZSet)
      → Obtains zset_kind zset_kind-IsKind rand now key L c r
      → c.maxmemory ≡ 0
      → is_wrong zset_kind L ≡ false
      → exceeds (n ∷ []) (object_at zset_kind L) ≡ false
      → was_added (zadd_typed rand now key (n ∷ []) r).1 ≡ true
  unfolding zadd_typed
  zadd-done n L c (c1, absent) o calm right ok = absurd (o.result calm)
  zadd-done n L c (c1, wrong_type) o calm right ok =
      let wrong : is_wrong zset_kind L ≡ true = o.result in absurd cc
  zadd-done n L c (c1, typed tier e z) o calm right ok =
      let (own, f, held, start, at) = o.result in rw start (rw ok refl)

  pub hset-IsPut :
      IsPut hash_kind hash_kind-IsKind rand now key
        (λ f. with_fields (f ∷ []))
        (hset_loaded rand now key)
        Any
  unfolding hset_loaded ar_hash_hset
  hset-IsPut = record {
    puts = λ f c v calm right ok room.
        let o =
          get_or_create-Obtains hash_kind hash_kind-IsKind rand now key c v (omega (arith, room)) in
        (
          hset-done f (live now (lookup key c.dict)) c
              (ar_entry_get_or_create hash_kind rand now key c) o calm right,
          hset-Updates rand now key f [] c v room,
        );
  }

  pub push-IsPut :
      IsPut list_kind list_kind-IsKind rand now key
        (λ v. push_values false (v ∷ []))
        (push_loaded rand now key)
        Any
  unfolding push_loaded ar_list_push
  push-IsPut = record {
    puts = λ x c v calm right ok room.
        let o =
          get_or_create-Obtains list_kind list_kind-IsKind rand now key c v (omega (arith, room)) in
        (
          push-done x (live now (lookup key c.dict)) c
              (ar_entry_get_or_create list_kind rand now key c) o calm right,
          push-Updates rand now key false x [] c v room,
        );
  }

  pub zadd-IsPut :
      IsPut zset_kind zset_kind-IsKind rand now key
        (λ n. with_nodes (n ∷ []))
        (zadd_loaded rand now key)
        FitsSet
  unfolding zadd_loaded ar_zset_zadd
  zadd-IsPut = record {
    puts = λ n c v calm right ok room.
        let o =
          get_or_create-Obtains zset_kind zset_kind-IsKind rand now key c v (omega (arith, room)) in
        (
          zadd-done n (live now (lookup key c.dict)) c
              (ar_entry_get_or_create zset_kind rand now key c) o calm right ok,
          zadd-Updates rand now key n [] c v room,
        );
  }
