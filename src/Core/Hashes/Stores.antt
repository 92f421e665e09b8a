-- ===== src/Core/Hashes/Stores.antt =====
-- HSET on the keyspace.
use aura_redis.Prelude.{ℕ, refl, inl, List, ◌∷◌}
use aura_redis.Bytes.{Bytes}
use aura_redis.Entry.{HashField, HashObj}
use aura_redis.Core.{Core}
use aura_redis.Core.Find.Keeps.{live}
use aura_redis.Core.Typed.{hash_kind}
use aura_redis.Core.Typed.Updates.{hash_kind-IsKind, Updates, Applies, Room, get_or_create-Updates}
use aura_redis.Core.Hashes.{hset_all, hset_typed, ar_hash_hset}
use aura_redis.Core.Invariant.{IsValid, lookup}

abbrev pub with_fields : List HashField → HashObj → HashObj
with_fields fs h = (hset_all fs h).0

body-Applies :
    (rand : ℕ → ℕ) (now : ℕ) (key : Bytes) (fs : List HashField)
    → Applies hash_kind hash_kind-IsKind
        (with_fields fs)
        rand
        now
        key
        (λ r. (hset_typed rand now key fs r).0)
unfolding hset_typed
body-Applies rand now key fs = record {
  without = λ c. refl;
  refuses = λ c. refl;
  applies = λ c tier e h. inl refl;
}

-- Where the invariant holds and the bytes stay below 2^64, HSET keeps the invariant and leaves the
-- other keys, up to eviction. Without a memory limit, and unless the key has another type, the key
-- then holds its hash, or the empty one, with the fields set, under the deadline that it had.
pub hset-Updates :
    (rand : ℕ → ℕ) (now : ℕ) (key : Bytes) (f : HashField) (fs : List HashField) (c : Core)
    → IsValid c
    → Room hash_kind hash_kind-IsKind
        (with_fields (f ∷ fs))
        rand
        now
        key
        (live now (lookup key c.dict))
        c
    → Updates hash_kind hash_kind-IsKind
        (with_fields (f ∷ fs))
        rand
        now
        key
        (live now (lookup key c.dict))
        c
        (ar_hash_hset rand now key (f ∷ fs) c).0
unfolding ar_hash_hset
hset-Updates rand now key f fs c v h =
    get_or_create-Updates hash_kind hash_kind-IsKind (with_fields (f ∷ fs)) rand now key
      (λ r. (hset_typed rand now key (f ∷ fs) r).0) (body-Applies rand now key (f ∷ fs)) c v h
