-- ===== src/Core/ZSets/Stores.antt =====
-- ZADD on the keyspace.
use aura_redis.Prelude.{ℕ, ◌≡◌, refl, ◌⊎◌, inl, inr, Bool, true, false, List, ◌∷◌, if◌then◌else◌}
use aura_redis.Bytes.{Bytes}
use aura_redis.Entry.{ZNode, ZSet, Entry}
use aura_redis.Core.{Core, Tier}
use aura_redis.Core.Find.Keeps.{live}
use aura_redis.Core.Typed.{Typed, typed, zset_kind, store_object}
use aura_redis.Core.Typed.Updates.{zset_kind-IsKind, Updates, Applies, Room, get_or_create-Updates}
use aura_redis.Core.ZSets.{exceeds, zadd_all, zadd_typed, ar_zset_zadd}
use aura_redis.Core.Invariant.{IsValid, lookup}

-- The set with the nodes added, or as it was where they are refused.
abbrev pub with_nodes : List ZNode → ZSet → ZSet
with_nodes ns z = if exceeds ns z then z else (zadd_all ns z).0

module _ (rand : ℕ → ℕ) (now : ℕ) (key : Bytes) (ns : List ZNode) where
  abbrev body : Core × Typed ZSet → Core
  body r = (zadd_typed rand now key ns r).0

  stored_or_kept :
      (c : Core) (tier : Tier) (e : Entry) (z : ZSet)
      → (body (c, typed tier e z)
          ≡ store_object zset_kind rand now key tier e z (with_nodes ns z) c)
        ⊎ ((body (c, typed tier e z) ≡ c) × (with_nodes ns z ≡ z))
  unfolding zadd_typed
  stored_or_kept c tier e z = by_size (exceeds ns z) refl
    where
      by_size :
          (b : Bool)
          → exceeds ns z ≡ b
          → ((if b then c else store_object zset_kind rand now key tier e z (zadd_all ns z).0 c)
              ≡ store_object zset_kind rand now key tier e z (if b then z else (zadd_all ns z).0) c)
            ⊎ (((if b then c else store_object zset_kind rand now key tier e z (zadd_all ns z).0 c)
                  ≡ c)
                × ((if b then z else (zadd_all ns z).0) ≡ z))
      by_size true q = inr (refl, refl)
      by_size false q = inl refl

  body-Applies : Applies zset_kind zset_kind-IsKind (with_nodes ns) rand now key body
  unfolding zadd_typed
  body-Applies = record { without = λ c. refl; refuses = λ c. refl; applies = stored_or_kept }

-- Where the invariant holds and the bytes stay below 2^64, ZADD keeps the invariant and leaves the
-- other keys, up to eviction. Without a memory limit, and unless the key has another type, the key
-- then holds its sorted set, or the empty one, with the nodes added, under the deadline that it had;
-- a ZADD that is refused for its size leaves the set, or creates the empty one.
pub zadd-Updates :
    (rand : ℕ → ℕ) (now : ℕ) (key : Bytes) (n : ZNode) (ns : List ZNode) (c : Core)
    → IsValid c
    → Room zset_kind zset_kind-IsKind
        (with_nodes (n ∷ ns))
        rand
        now
        key
        (live now (lookup key c.dict))
        c
    → Updates zset_kind zset_kind-IsKind
        (with_nodes (n ∷ ns))
        rand
        now
        key
        (live now (lookup key c.dict))
        c
        (ar_zset_zadd rand now key (n ∷ ns) c).0
unfolding ar_zset_zadd
zadd-Updates rand now key n ns c v h =
    get_or_create-Updates zset_kind zset_kind-IsKind (with_nodes (n ∷ ns)) rand now key
      (λ r. (zadd_typed rand now key (n ∷ ns) r).0) (body-Applies rand now key (n ∷ ns)) c v h
