-- ===== src/Core/Lists/Pops.antt =====
-- LPOP and RPOP of native/src/ar_types.c after a push.
use aura_redis.Prelude.{
  ℕ, ◌≡◌, refl, subst, ap, ◌∙◌, Bool, true, false, not, ◌&&◌, Bool-cases, inl, inr, Option, none,
  some, List, [], ◌∷◌, ◌++◌, arith, if◌then◌else◌, ◌==◌, leb,
}
use aura_redis.Bytes.{Bytes}
use aura_redis.Entry.{list_obj, Entry}
use aura_redis.Core.{Core, Tier}
use aura_redis.Core.Find.{is_due, ar_find_entry_ex}
use aura_redis.Core.Find.Keeps.{live, entry_of, find-Finds}
use aura_redis.Core.Set.Steps.{content, view}
use aura_redis.Core.Typed.{list_kind, typed_of, ar_entry_get_typed}
use aura_redis.Core.Typed.Stores.{object_at, is_wrong, deadline_at}
use aura_redis.Core.Typed.Updates.{list_kind-IsKind, Room}
use aura_redis.Core.Lists.{pop_head, pop_tail, popped, pop_typed, ar_list_pop}
use aura_redis.Core.Lists.Writes.{push_values, ar_list_push}
use aura_redis.Core.Lists.Stores.{push-Updates}
use aura_redis.Core.Invariant.{IsValid, lookup}

-- The value pushed last.
abbrev pub last_of : Bytes → List Bytes → Bytes
last_of x [] = x
last_of x (y ∷ ys) = last_of y ys

abbrev popped_value : Option (Bytes × List Bytes) → Option Bytes
popped_value none = none
popped_value (some (v, rest)) = some v

abbrev end_value : Bool → List Bytes → Option Bytes
end_value left l = popped_value (if left then pop_head l else pop_tail l)

popped-reply :
    (key : Bytes) (tier : Tier) (e : Entry) (l : List Bytes) (o : Option (Bytes × List Bytes))
    (c : Core)
    → (popped key tier e l o c).1 ≡ popped_value o
unfolding popped
popped-reply key tier e l none c = refl
popped-reply key tier e l (some (v, rest)) c = refl

-- The reply of a pop, by what the key has.
module _ (left : Bool) (now : ℕ) (key : Bytes) (l : List Bytes) (at : ℕ) where
  some_inj : {a b : Entry} → some a ≡ some b → a ≡ b
  some_inj h = cc

  absent_found : (x : Entry) → some x ≡ none → ⊥
  absent_found x h = cc

  abbrev shown_end : Option Bytes
  shown_end = if not (at == 0) && leb at now then none else end_value left l

  found-reply :
      (r : Core × Option (Tier × Entry)) (o : Option Entry)
      → content o ≡ some (record { value = list_obj l; expire_at = at })
      → entry_of r.1 ≡ live now o
      → (pop_typed key left (r.0, typed_of list_kind r.1)).1 ≡ shown_end
  unfolding pop_typed
  found-reply r none h q = cc
  found-reply (c, none) (some e) h q = let same : e.expire_at ≡ at = cc h in ground (arith, q, same)
  found-reply (c, some (tier, x)) (some e) h q =
      let same : e.expire_at ≡ at = cc h in
      let held : e.value ≡ list_obj l = cc h in
      elim (Bool-cases (is_due now e)) [
        | inl due ↦ absurd (absent_found x (q ∙ rw due refl))
        | inr alive ↦
            let own : x ≡ e = some_inj (q ∙ rw alive refl) in
            let there : x.value ≡ list_obj l = ap (λ n. n.value) own ∙ held in
            let shown : (not (at == 0) && leb at now) ≡ false =
              subst (λ n. (not (n == 0) && leb n now) ≡ false) same alive in
            rw (there, shown)
              (popped-reply key tier x l (if left then pop_head l else pop_tail l) c)
      ]

  pop-reply :
      (c : Core)
      → IsValid c
      → view key c ≡ some (record { value = list_obj l; expire_at = at })
      → (ar_list_pop now key left c).1 ≡ shown_end
  unfolding ar_list_pop ar_entry_get_typed ar_find_entry_ex
  pop-reply c v h =
      found-reply (ar_find_entry_ex now key c) (lookup key c.dict) h (find-Finds now key c v).result

pop_tail-append : (l : List Bytes) (v : Bytes) → pop_tail (l ++ v ∷ []) ≡ some (v, l)
unfolding pop_tail
pop_tail-append [] v = refl
pop_tail-append (x ∷ xs) v = ground (arith, pop_tail-append xs v)

last_popped :
    (left : Bool) (x : Bytes) (xs l : List Bytes)
    → end_value left (push_values left (x ∷ xs) l) ≡ some (last_of x xs)
unfolding push_values pop_head
last_popped true x [] l = refl
last_popped true x (y ∷ ys) l = last_popped true y ys (x ∷ l)
last_popped false x [] l = ap popped_value (pop_tail-append l x)
last_popped false x (y ∷ ys) l = last_popped false y ys (l ++ x ∷ [])

-- Where the invariant holds, `maxmemory` is 0, the bytes stay below 2^64 and the key has no live entry
-- of another type, a pop at any time after a push at the same end replies the value pushed last, and
-- nothing once the deadline that the key had has come.
pub pop-push :
    (rand : ℕ → ℕ) (now later : ℕ) (key : Bytes) (left : Bool) (x : Bytes) (xs : List Bytes)
    (c : Core)
    → IsValid c
    → c.maxmemory ≡ 0
    → is_wrong list_kind (live now (lookup key c.dict)) ≡ false
    → Room list_kind list_kind-IsKind
        (push_values left (x ∷ xs))
        rand
        now
        key
        (live now (lookup key c.dict))
        c
    → (ar_list_pop later key left (ar_list_push rand now key left (x ∷ xs) c).0).1 ≡ (
        let at = deadline_at (live now (lookup key c.dict)) in
        if not (at == 0) && leb at later then none else some (last_of x xs))
pop-push rand now later key left x xs c v calm right room =
    let L = live now (lookup key c.dict) in
    let at : ℕ = deadline_at L in
    let old : List Bytes = object_at list_kind L in
    let u = push-Updates rand now key left x xs c v room in
    pop-reply left later key (push_values left (x ∷ xs) old) at
      (ar_list_push rand now key left (x ∷ xs) c).0 u.spares.valid (u.at_key calm right)
    ∙ ap (λ o. if not (at == 0) && leb at later then none else o) (last_popped left x xs old)
