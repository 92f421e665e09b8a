-- ===== src/Glob/Examples.antt =====
-- The glob theorem at a pattern that makes the matcher back up, and runs of the matcher.
use aura_redis.Prelude.{◌≡◌, refl, true, false, some, [], ◌∷◌}
use aura_redis.Bytes.{Bytes}
use aura_redis.Glob.{ar_glob_match}
use aura_redis.Glob.Spec.{Matches}
use aura_redis.Glob.Decides.{Answers, glob_match-Answers}

-- *a?b
abbrev pattern_bytes : Bytes
pattern_bytes = b'*' ∷ b'a' ∷ b'?' ∷ b'b' ∷ []

-- aaab
abbrev text : Bytes
text = b'a' ∷ b'a' ∷ b'a' ∷ b'b' ∷ []

backs_up : ar_glob_match pattern_bytes text ≡ some true
unfolding ar_glob_match
backs_up = refl

fails_at_end : ar_glob_match pattern_bytes (b'a' ∷ b'a' ∷ []) ≡ some false
unfolding ar_glob_match
fails_at_end = refl

glob_match-Answers_example : Answers (Matches pattern_bytes text) (ar_glob_match pattern_bytes text)
glob_match-Answers_example = glob_match-Answers pattern_bytes text
