-- ===== src/Glob/Decides.antt =====
-- The backtracking of `ar_glob_match` to its last star, against the order-free matching.
use aura_redis.Prelude.{
  ℕ, zero, suc, ◌+◌, ◌*◌, ◌≤◌, ◌<◌, ◌≡◌, refl, Bool, true, false, if_elim, Option, none, some, [],
  ◌∷◌, length, arith,
}
use aura_redis.Bytes.{Bytes}
use aura_redis.Glob.{is_star, fits, only_stars, back_up, walk, ar_glob_match}
use aura_redis.Glob.Spec.{
  Matches, done, one, stop, more, Ends, here, later, Matches-star, Ends-join, Ends-drop,
  Matches-one, only_stars-Matches, Matches-only_stars, Ends-nil,
}

-- The run gave an answer, and the answer to `G` is right.
abbrev pub Answers : Type 0 → Option Bool → Type 0
Answers G none = ⊥
Answers G (some true) = G
Answers G (some false) = ¬ G

Answers-some : {G : Type 0} (b : Bool) → ((b ≡ true) → G) → (G → b ≡ true) → Answers G (some b)
Answers-some true yes_ no_ = yes_ refl
Answers-some false yes_ no_ = λ g. cc (no_ g)

abbrev Star : Type 0
Star = Option (Bytes × Bytes)

-- `G` is what the call asks, and `k` is above the length of every pattern met.
module _ (G : Type 0) (k : ℕ) where
  -- The saved star: its tails are what is left to try, in at most `m` bytes.
  abbrev Saves : ℕ → Bytes → Bytes → Star → Type 0
  Saves m p s none = G → Matches p s
  Saves m p s (some (sp, ss)) =
      (G → Ends sp ss)
      × (Ends sp ss → G)
      × (Matches sp ss → Matches p s)
      × (length s ≤ length ss)
      × (length ss ≤ m)
      × (length sp < k)

  record Asks (f m : ℕ) (p s : Bytes) (star : Star) : Type 0 where
    now : Matches p s → G
    tail : G → Ends p s
    saves : Saves m p s star
    room : length s ≤ m
    short : length p < k
    fuel : m * k + length p < f

  -- The question has become whether some tail of `s` matches `p`.
  Asks-tails :
      {f m : ℕ} {p s : Bytes}
      → (G → Ends p s)
      → (Ends p s → G)
      → length s ≤ m
      → length p < k
      → m * k + length p < f
      → Asks f m p s (some (p, s))
  Asks-tails to from room short fuel = record {
    now = λ d. from (here d);
    tail = to;
    saves = (to, from, λ d. d, omega arith, room, short);
    room = room;
    short = short;
    fuel = fuel;
  }

  Saves-onward :
      (m p c : ℕ) (ps s : Bytes) (star : Star)
      → is_star p ≡ false
      → Saves m (p ∷ ps) (c ∷ s) star
      → Saves m ps s star
  Saves-onward m p c ps s none n h = λ g. (Matches-one n (h g)).1
  Saves-onward m p c ps s (some (sp, ss)) n (to, from, down, le, room, short) =
      (to, from, λ d. (Matches-one n (down d)).1, omega arith, room, short)

  Asks-onward :
      {f m p c : ℕ} {ps s : Bytes} {star : Star}
      → is_star p ≡ false
      → fits p c ≡ true
      → Asks (suc f) m (p ∷ ps) (c ∷ s) star
      → Asks f m ps s star
  Asks-onward {m} {p} {c} {ps} {s} {star} n h a = record {
    now = λ d. a.now (one n h d);
    tail = λ g. Ends-drop c s n (a.tail g);
    saves = Saves-onward m p c ps s star n a.saves;
    room = omega arith;
    short = omega arith;
    fuel = omega arith;
  }

  -- No match here: the saved star has to skip one byte more, which pays for the pattern again.
  back_up-Answers :
      {f c : ℕ} {p s : Bytes} (m : ℕ) (star : Star) (next : Bytes → Bytes → Star → Option Bool)
      → ((m' : ℕ) (p' s' : Bytes) (b : Star) → Asks f m' p' s' b → Answers G (next p' s' b))
      → Asks (suc f) m p (c ∷ s) star
      → ¬ Matches p (c ∷ s)
      → Answers G (back_up star next)
  unfolding back_up
  back_up-Answers m none next ih a no_match = λ g. no_match (a.saves g)
  back_up-Answers m (some (sp, [])) next ih a no_match = absurd (omega (arith, a.saves.3))
  back_up-Answers zero (some (sp, x ∷ ss)) next ih a no_match = absurd (omega (arith, a.saves.4))
  back_up-Answers (suc m) (some (sp, x ∷ ss)) next ih a no_match =
      let (to, from, down, le, room, short) = a.saves in
      ih m sp ss (some (sp, ss)) (
        Asks-tails (λ g. skip (to g) (λ d. no_match (down d))) (λ d. from (later d)) (omega arith)
          short (omega (arith, a.fuel)))
    where
      skip : Ends sp (x ∷ ss) → ¬ Matches sp (x ∷ ss) → Ends sp ss
      skip (here d) n = absurd (n d)
      skip (later d) n = d

  walk-Answers :
      (f m : ℕ) (p s : Bytes) (star : Star) → Asks f m p s star → Answers G (walk f p s star)
  unfolding walk
  walk-Answers zero m p s star a = absurd (omega (arith, a.fuel))
  walk-Answers (suc f) m p [] star a =
      Answers-some (only_stars p) (λ h. a.now (only_stars-Matches p h))
        (λ g. Matches-only_stars (Ends-nil (a.tail g)))
  walk-Answers (suc f) m [] (c ∷ s) star a =
      back_up-Answers m star (walk f) (walk-Answers f) a (λ d. elim d [ ])
  walk-Answers (suc f) m (p ∷ ps) (c ∷ s) star a =
      if_elim (Answers G) (is_star p) _ _
        (λ h. walk-Answers f m ps (c ∷ s) (some (ps, c ∷ s)) (
          Asks-tails (λ g. Ends-join h (a.tail g)) (λ d. a.now (Matches-star h d)) a.room
            (omega (arith, a.short)) (omega (arith, a.fuel))))
        (λ n.
          if_elim (Answers G) (fits p c) _ _ (λ h. walk-Answers f m ps s star (Asks-onward n h a))
            (λ h.
              back_up-Answers m star (walk f) (walk-Answers f) a (λ d. cc ((Matches-one n d).0))))

walk-Matches :
    (p s : Bytes) → Answers (Matches p s) (walk ((length s + 1) * (length p + 1)) p s none)
walk-Matches p s = walk-Answers (Matches p s) (length p + 1) _ (length s) p s none (record {
  now = λ d. d;
  tail = λ d. here d;
  saves = λ d. d;
  room = omega arith;
  short = omega arith;
  fuel = omega arith;
})

star-all : {p : ℕ} (s : Bytes) → is_star p ≡ true → Matches (p ∷ []) s
star-all [] h = stop h done
star-all (c ∷ s) h = more h (star-all s h)

-- `ar_glob_match` always ends with an answer within its fuel, and the answer is 1 exactly where the
-- string matches the pattern.
pub glob_match-Answers : (pat str : Bytes) → Answers (Matches pat str) (ar_glob_match pat str)
unfolding ar_glob_match
glob_match-Answers [] [] = done
glob_match-Answers [] (c ∷ s) = λ d. elim d [ ]
glob_match-Answers (p ∷ []) s =
    if_elim (Answers (Matches (p ∷ []) s)) (is_star p) _ _ (λ h. star-all s h)
      (λ _. walk-Matches (p ∷ []) s)
glob_match-Answers (p ∷ q ∷ ps) s = walk-Matches (p ∷ q ∷ ps) s
