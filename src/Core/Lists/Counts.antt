-- ===== src/Core/Lists/Counts.antt =====
-- About LREM of native/src/ar_types.c: which occurrences of a value it removes.
use mathlib.Core.List.{append-nil, append_assoc}
use aura_redis.Prelude.{
  ℕ, zero, suc, ◌+◌, ◌^◌, ◌<◌, ◌≡◌, refl, sym, ap, ◌∙◌, true, false, Bool-cases, inl, inr, List, [],
  ◌∷◌, ◌++◌, arith, if◌then◌else◌, ltb, ℤ, pos, negsuc,
}
use aura_redis.Bytes.{Bytes, bytes_eq}
use aura_redis.Core.Lists.{remove_values, reversed, lrem_values}

-- How often `elem` occurs.
unfoldable pub occurrences : Bytes → List Bytes → ℕ
occurrences elem [] = 0
occurrences elem (x ∷ xs) = (if bytes_eq x elem then 1 else 0) + occurrences elem xs

-- `limit` occurrences, or all of those that there are.
abbrev pub at_most : ℕ → ℕ → ℕ
at_most limit there = if ltb limit there then limit else there

-- The list without any `elem`.
abbrev pub without : Bytes → List Bytes → List Bytes
without elem [] = []
without elem (x ∷ xs) = if bytes_eq x elem then without elem xs else x ∷ without elem xs

-- The list in two parts; the first loses every `elem`, and they are counted.
pub record FromHead (elem : Bytes) (limit : ℕ) (l : List Bytes) (r : List Bytes × ℕ) : Type 0 where
  pub front : List Bytes
  pub back : List Bytes
  pub whole : l ≡ front ++ back
  pub left : r.0 ≡ without elem front ++ back
  pub counted : r.1 ≡ occurrences elem front
  pub number : r.1 ≡ at_most limit (occurrences elem l)

-- The same where the second part loses every `elem`.
pub record FromTail (elem : Bytes) (limit : ℕ) (l : List Bytes) (r : List Bytes × ℕ) : Type 0 where
  pub front : List Bytes
  pub back : List Bytes
  pub whole : l ≡ front ++ back
  pub left : r.0 ≡ front ++ without elem back
  pub counted : r.1 ≡ occurrences elem back
  pub number : r.1 ≡ at_most limit (occurrences elem l)

-- What the sign of LREM's count asks for.
abbrev pub Removes : ℤ → Bytes → List Bytes → List Bytes × ℕ → Type 0
Removes (pos zero) elem l r = (r.0 ≡ without elem l) × (r.1 ≡ occurrences elem l)
Removes (pos (suc n)) elem l r = FromHead elem (suc n) l r
Removes (negsuc n) elem l r = FromTail elem (suc n) l r

remove_values-all :
    (n : ℕ) (elem : Bytes) (l : List Bytes)
    → ((remove_values true n elem l).0 ≡ without elem l)
      × ((remove_values true n elem l).1 ≡ occurrences elem l)
unfolding remove_values occurrences
remove_values-all n elem [] = (refl, refl)
remove_values-all n elem (x ∷ xs) =
    let (kept, count) = remove_values-all n elem xs in
    elim (Bool-cases (bytes_eq x elem)) [
      | inl own ↦ rw (remove_values, own) (kept, omega (arith, count))
      | inr other ↦ rw (remove_values, other) (ap (λ ys. x ∷ ys) kept, omega (arith, count))
    ]

-- One value before a list that is removed from.
module _ (elem x : Bytes) (xs : List Bytes) where
  keep-FromHead :
      (limit : ℕ) (r : List Bytes × ℕ)
      → bytes_eq x elem ≡ false
      → FromHead elem limit xs r
      → FromHead elem limit (x ∷ xs) (x ∷ r.0, r.1)
  unfolding occurrences
  keep-FromHead limit r ne s = record {
    front = x ∷ s.front;
    back = s.back;
    whole = ap (λ ys. x ∷ ys) s.whole;
    left = rw ne (ap (λ ys. x ∷ ys) s.left);
    counted = rw ne (omega (arith, s.counted));
    number = ground (arith, ne, s.number);
  }

  drop-FromHead :
      (limit : ℕ) (r : List Bytes × ℕ)
      → bytes_eq x elem ≡ true
      → FromHead elem limit xs r
      → FromHead elem (suc limit) (x ∷ xs) (r.0, suc r.1)
  unfolding occurrences
  drop-FromHead limit r own s = record {
    front = x ∷ s.front;
    back = s.back;
    whole = ap (λ ys. x ∷ ys) s.whole;
    left = rw own s.left;
    counted = rw own (omega (arith, s.counted));
    number = ground (arith, own, s.number);
  }

  last-FromHead : bytes_eq x elem ≡ true → FromHead elem 1 (x ∷ xs) (xs, 1)
  unfolding occurrences
  last-FromHead own = record {
    front = x ∷ [];
    back = xs;
    whole = refl;
    left = rw own refl;
    counted = rw own (omega arith);
    number = ground (arith, own);
  }

remove_values-FromHead :
    (n : ℕ) (elem : Bytes) (l : List Bytes) → FromHead elem (suc n) l (remove_values false n elem l)
unfolding remove_values occurrences
remove_values-FromHead n elem [] = record {
  front = [];
  back = [];
  whole = refl;
  left = refl;
  counted = refl;
  number = ground arith;
}
remove_values-FromHead zero elem (x ∷ xs) = elim (Bool-cases (bytes_eq x elem)) [
  | inl own ↦ rw (remove_values, own) (last-FromHead elem x xs own)
  | inr other ↦
      rw (remove_values, other)
        (keep-FromHead elem x xs 1 (remove_values false 0 elem xs) other
          (remove_values-FromHead zero elem xs))
]
remove_values-FromHead (suc m) elem (x ∷ xs) = elim (Bool-cases (bytes_eq x elem)) [
  | inl own ↦
      rw (remove_values, own)
        (drop-FromHead elem x xs (suc m) (remove_values false m elem xs) own
          (remove_values-FromHead m elem xs))
  | inr other ↦
      rw (remove_values, other)
        (keep-FromHead elem x xs (suc (suc m)) (remove_values false (suc m) elem xs) other
          (remove_values-FromHead (suc m) elem xs))
]

reversed-append : (xs ys acc : List Bytes) → reversed (xs ++ ys) acc ≡ reversed ys (reversed xs acc)
unfolding reversed
reversed-append [] ys acc = refl
reversed-append (x ∷ xs) ys acc = reversed-append xs ys (x ∷ acc)

reversed-acc : (xs acc : List Bytes) → reversed xs acc ≡ reversed xs [] ++ acc
unfolding reversed
reversed-acc [] acc = refl
reversed-acc (x ∷ xs) acc =
    reversed-acc xs (x ∷ acc)
    ∙ sym (append_assoc (reversed xs []) (x ∷ []) acc)
    ∙ ap (λ ys. ys ++ acc) (sym (reversed-acc xs (x ∷ [])))

reversed-both : (xs ys : List Bytes) → reversed (xs ++ ys) [] ≡ reversed ys [] ++ reversed xs []
reversed-both xs ys = reversed-append xs ys [] ∙ reversed-acc ys (reversed xs [])

reversed_twice : (xs : List Bytes) → reversed (reversed xs []) [] ≡ xs
unfolding reversed
reversed_twice [] = refl
reversed_twice (x ∷ xs) =
    ap (λ ys. reversed ys []) (reversed-acc xs (x ∷ []))
    ∙ reversed-both (reversed xs []) (x ∷ [])
    ∙ ap (λ ys. x ∷ ys) (reversed_twice xs)

without-append :
    (elem : Bytes) (xs ys : List Bytes)
    → without elem (xs ++ ys) ≡ without elem xs ++ without elem ys
without-append elem [] ys = refl
without-append elem (x ∷ xs) ys = elim (Bool-cases (bytes_eq x elem)) [
  | inl own ↦ rw own (without-append elem xs ys)
  | inr other ↦ rw other (ap (λ zs. x ∷ zs) (without-append elem xs ys))
]

without-reversed :
    (elem : Bytes) (xs : List Bytes) → reversed (without elem xs) [] ≡ without elem (reversed xs [])
unfolding reversed
without-reversed elem [] = refl
without-reversed elem (x ∷ xs) =
    last_step (without-reversed elem xs)
    ∙ sym (without-append elem (reversed xs []) (x ∷ []))
    ∙ ap (without elem) (sym (reversed-acc xs (x ∷ [])))
  where
    last_step :
        reversed (without elem xs) [] ≡ without elem (reversed xs [])
        → reversed (without elem (x ∷ xs)) []
          ≡ without elem (reversed xs []) ++ without elem (x ∷ [])
    last_step ih = elim (Bool-cases (bytes_eq x elem)) [
      | inl own ↦ rw own (ih ∙ sym (append-nil (without elem (reversed xs []))))
      | inr other ↦ rw other (reversed-acc (without elem xs) (x ∷ []) ∙ ap (λ ys. ys ++ x ∷ []) ih)
    ]

occurrences-reversed :
    (y : Bytes) (l acc : List Bytes)
    → occurrences y (reversed l acc) ≡ occurrences y l + occurrences y acc
unfolding reversed occurrences
occurrences-reversed y [] acc = omega arith
occurrences-reversed y (x ∷ xs) acc = omega (arith, occurrences-reversed y xs (x ∷ acc))

occurrences-backwards :
    (y : Bytes) (l : List Bytes) → occurrences y (reversed l []) ≡ occurrences y l
unfolding occurrences
occurrences-backwards y l = omega (arith, occurrences-reversed y l [])

reversed-FromTail :
    (elem : Bytes) (limit : ℕ) (l : List Bytes) (r : List Bytes × ℕ)
    → FromHead elem limit (reversed l []) r
    → FromTail elem limit l (reversed r.0 [], r.1)
reversed-FromTail elem limit l r s = record {
  front = reversed s.back [];
  back = reversed s.front [];
  whole = sym (reversed_twice l) ∙ ap (λ ys. reversed ys []) s.whole ∙ reversed-both s.front s.back;
  left =
      ap (λ ys. reversed ys []) s.left
      ∙ reversed-both (without elem s.front) s.back
      ∙ ap (λ ys. reversed s.back [] ++ ys) (without-reversed elem s.front);
  counted = s.counted ∙ sym (occurrences-backwards elem s.front);
  number = s.number ∙ ap (at_most limit) (occurrences-backwards elem l);
}

-- The count that the code negates, `-count`, is an int64_t.
abbrev pub IsNegatable : ℤ → Type 0
IsNegatable (pos n) = Unit
IsNegatable (negsuc n) = n + 1 < 2 ^ 63

-- LREM with a count above INT64_MIN replies how many occurrences it removed, and leaves the other
-- values in their order: for 0 every occurrence goes, for a positive count the first ones, up to the
-- count, and for a negative one the last ones, up to its magnitude.
pub lrem_values-Removes :
    (count : ℤ) (elem : Bytes) (l : List Bytes)
    → IsNegatable count
    → Removes count elem l (lrem_values count elem l)
unfolding lrem_values
lrem_values-Removes (pos zero) elem l h = remove_values-all 0 elem l
lrem_values-Removes (pos (suc n)) elem l h = remove_values-FromHead n elem l
lrem_values-Removes (negsuc n) elem l h =
    reversed-FromTail elem (suc n) l (remove_values false n elem (reversed l []))
      (remove_values-FromHead n elem (reversed l []))
