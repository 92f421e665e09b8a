-- ===== src/Glob.antt =====
-- `ar_glob_match` of native/src/ar_core.c, the patterns of KEYS and SCAN. The indices `pi`, `si` and
-- `star_s` are the parts of the pattern and of the string that are left there; the loop runs on
-- fuel, and `none` means that the fuel ran out.
pub mod Spec
pub mod Decides
pub mod Examples
use aura_redis.Prelude.{
  ℕ, zero, suc, ◌+◌, ◌*◌, Bool, true, false, ◌||◌, Option, none, some, List, [], ◌∷◌, length, ◌==◌,
  if◌then◌else◌,
}
use aura_redis.Bytes.{Bytes}

abbrev pub is_star : ℕ → Bool
is_star p = p == b'*'

-- `pat[pi] == '?' || pat[pi] == str[si]`
abbrev pub fits : ℕ → ℕ → Bool
fits p c = p == b'?' || p == c

-- `while (pi < plen && pat[pi] == '*') pi++; return pi == plen;`
unfoldable pub only_stars : Bytes → Bool
only_stars [] = true
only_stars (p ∷ ps) = if is_star p then only_stars ps else false

abbrev pub rest_of : Bytes → Bytes
rest_of [] = []
rest_of (c ∷ s) = s

-- `pi = star_p + 1; si = ++star_s;`, or `return 0` with no star seen.
pub back_up :
    Option (Bytes × Bytes) → (Bytes → Bytes → Option (Bytes × Bytes) → Option Bool) → Option Bool
back_up none next = some false
back_up (some (sp, ss)) next = next sp (rest_of ss) (some (sp, rest_of ss))

pub walk : ℕ → Bytes → Bytes → Option (Bytes × Bytes) → Option Bool
walk zero p s star = none
walk (suc f) p [] star = some (only_stars p)
walk (suc f) [] (c ∷ s) star = back_up star (walk f)
walk (suc f) (p ∷ ps) (c ∷ s) star =
    let at_star = walk f ps (c ∷ s) (some (ps, c ∷ s)) in
    let onward = walk f ps s star in
    let retried = back_up star (walk f) in
    if is_star p then at_star else if fits p c then onward else retried

abbrev is_lone_star : Bytes → Bool
is_lone_star (p ∷ []) = is_star p
is_lone_star _ = false

abbrev is_nil : Bytes → Bool
is_nil [] = true
is_nil (c ∷ s) = false

unfoldable pub ar_glob_match : Bytes → Bytes → Option Bool
unfolding walk back_up only_stars
ar_glob_match pat str =
    let run = walk ((length str + 1) * (length pat + 1)) pat str none in
    if is_nil pat then some (is_nil str) else if is_lone_star pat then some true else run
