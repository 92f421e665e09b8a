-- ===== src/Core/Lists/Stores.antt =====
-- LPUSH and RPUSH on the keyspace.
use aura_redis.Prelude.{ℕ, refl, inl, Bool, List, ◌∷◌}
use aura_redis.Bytes.{Bytes}
use aura_redis.Core.{Core}
use aura_redis.Core.Find.Keeps.{live}
use aura_redis.Core.Typed.{list_kind}
use aura_redis.Core.Typed.Updates.{list_kind-IsKind, Updates, Applies, Room, get_or_create-Updates}
use aura_redis.Core.Lists.Writes.{push_values, push_typed, ar_list_push}
use aura_redis.Core.Invariant.{IsValid, lookup}

body-Applies :
    (rand : ℕ → ℕ) (now : ℕ) (key : Bytes) (left : Bool) (vs : List Bytes)
    → Applies list_kind list_kind-IsKind
        (push_values left vs)
        rand
        now
        key
        (λ r. (push_typed rand now key left vs r).0)
unfolding push_typed
body-Applies rand now key left vs = record {
  without = λ c. refl;
  refuses = λ c. refl;
  applies = λ c tier e l. inl refl;
}

pub push-Updates :
    (rand : ℕ → ℕ) (now : ℕ) (key : Bytes) (left : Bool) (x : Bytes) (xs : List Bytes) (c : Core)
    → IsValid c
    → Room list_kind list_kind-IsKind
        (push_values left (x ∷ xs))
        rand
        now
        key
        (live now (lookup key c.dict))
        c
    → Updates list_kind list_kind-IsKind
        (push_values left (x ∷ xs))
        rand
        now
        key
        (live now (lookup key c.dict))
        c
        (ar_list_push rand now key left (x ∷ xs) c).0
unfolding ar_list_push
push-Updates rand now key left x xs c v h =
    get_or_create-Updates list_kind list_kind-IsKind (push_values left (x ∷ xs)) rand now key
      (λ r. (push_typed rand now key left (x ∷ xs) r).0) (body-Applies rand now key left (x ∷ xs)) c
      v h
