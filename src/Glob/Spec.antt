-- ===== src/Glob/Spec.antt =====
-- What it means for a string to match a pattern, with no order of search.
use aura_redis.Prelude.{ℕ, ◌≡◌, refl, true, false, [], ◌∷◌, arith, Bool-cases, inl, inr}
use aura_redis.Bytes.{Bytes}
use aura_redis.Glob.{is_star, fits, only_stars}

pub data Matches : Bytes → Bytes → Type 0 where
  done : Matches [] []
  one :
      {p c : ℕ} {ps s : Bytes}
      → is_star p ≡ false
      → fits p c ≡ true
      → Matches ps s
      → Matches (p ∷ ps) (c ∷ s)
  stop : {p : ℕ} {ps s : Bytes} → is_star p ≡ true → Matches ps s → Matches (p ∷ ps) s
  more : {p c : ℕ} {ps s : Bytes} → is_star p ≡ true → Matches (p ∷ ps) s → Matches (p ∷ ps) (c ∷ s)

-- The string has a tail that matches: what a star before the pattern means.
pub data Ends : Bytes → Bytes → Type 0 where
  here : {p s : Bytes} → Matches p s → Ends p s
  later : {c : ℕ} {p s : Bytes} → Ends p s → Ends p (c ∷ s)

pub Ends-star : {p : ℕ} {ps s : Bytes} → is_star p ≡ true → Matches (p ∷ ps) s → Ends ps s
Ends-star h (one n _ d) = cc
Ends-star h (stop _ d) = here d
Ends-star h (more _ d) = later (Ends-star h d)

pub Matches-star : {p : ℕ} {ps s : Bytes} → is_star p ≡ true → Ends ps s → Matches (p ∷ ps) s
Matches-star h (here d) = stop h d
Matches-star h (later d) = more h (Matches-star h d)

-- A tail that matches from a star on is a tail that matches from behind it.
pub Ends-join : {p : ℕ} {ps s : Bytes} → is_star p ≡ true → Ends (p ∷ ps) s → Ends ps s
Ends-join h (here d) = Ends-star h d
Ends-join h (later d) = later (Ends-join h d)

-- Behind a byte that has to be matched, the tail is one of the string without its first byte.
pub Ends-drop :
    {p : ℕ} {ps : Bytes} (c : ℕ) (s : Bytes) → is_star p ≡ false → Ends (p ∷ ps) (c ∷ s) → Ends ps s
Ends-drop c s n (here (one _ _ d)) = here d
Ends-drop c s n (here (stop h d)) = cc
Ends-drop c s n (here (more h d)) = cc
Ends-drop c (x ∷ s) n (later d) = later (Ends-drop x s n d)
Ends-drop c [] n (later (here (stop h d))) = cc

pub Matches-one :
    {p c : ℕ} {ps s : Bytes}
    → is_star p ≡ false
    → Matches (p ∷ ps) (c ∷ s)
    → (fits p c ≡ true) × Matches ps s
Matches-one n (one _ f d) = (f, d)
Matches-one n (stop h d) = cc
Matches-one n (more h d) = cc

pub only_stars-Matches : (p : Bytes) → only_stars p ≡ true → Matches p []
unfolding only_stars
only_stars-Matches [] h = done
only_stars-Matches (p ∷ ps) h = elim (Bool-cases (is_star p)) [
  | inl star ↦ stop star (only_stars-Matches ps (ground arith))
  | inr other ↦ cc
]

pub Matches-only_stars : {p : Bytes} → Matches p [] → only_stars p ≡ true
unfolding only_stars
Matches-only_stars done = refl
Matches-only_stars (stop h d) = ground (arith, Matches-only_stars d)

-- Where no byte is left, a matching tail is the whole.
pub Ends-nil : {p : Bytes} → Ends p [] → Matches p []
Ends-nil (here d) = d
