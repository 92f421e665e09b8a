-- ===== src/Resp/Encode.antt =====
-- The requests that a client writes: an array of bulk strings, with any spelling of its lengths.
use aura_redis.Prelude.{ℕ, ◌+◌, ◌-◌, ◌*◌, ◌≤◌, ◌<◌, ◌≡◌, true, List, [], ◌∷◌, ◌++◌, length, arith}
use aura_redis.Bytes.{Bytes}
use aura_redis.Resp.{is_digit, cr, lf, max_bulk, max_argv}

abbrev pub AllDigits : Bytes → Type 0
AllDigits [] = Unit
AllDigits (c ∷ s) = (is_digit c ≡ true) × AllDigits s

-- The number that digits spell, after `n`.
unfoldable pub value : ℕ → Bytes → ℕ
value n [] = n
value n (c ∷ s) = value (n * 10 + (c - b'0')) s

pub value-le : (n : ℕ) (ds : Bytes) → n ≤ value n ds
unfolding value
value-le n [] = omega arith
value-le n (c ∷ s) = omega (arith, value-le (n * 10 + (c - b'0')) s)

-- Digits that spell `n`.
pub record Spells (ds : Bytes) (n : ℕ) : Type 0 where
  pub digits : AllDigits ds
  pub nonempty : 0 < length ds
  pub spelled : value 0 ds ≡ n

-- A length as the parser takes it: at most ten digits, and at most 16 MB.
pub record IsLength (ds a : Bytes) : Type 0 where
  pub spells : Spells ds (length a)
  pub few : length ds ≤ 10
  pub small : length a ≤ max_bulk

abbrev pub crlf : Bytes → Bytes
crlf rest = cr ∷ lf ∷ rest

-- A bulk string in front of `rest`.
abbrev pub bulk : Bytes → Bytes → Bytes → Bytes
bulk ds a rest = b'$' ∷ (ds ++ crlf (a ++ crlf rest))

-- Each argument comes with the digits that spell its length.
unfoldable pub bulks : List (Bytes × Bytes) → Bytes → Bytes
bulks [] rest = rest
bulks ((ds, a) ∷ args) rest = bulk ds a (bulks args rest)

unfoldable pub arguments : List (Bytes × Bytes) → List Bytes
arguments [] = []
arguments ((ds, a) ∷ args) = a ∷ arguments args

abbrev pub AreLengths : List (Bytes × Bytes) → Type 0
AreLengths [] = Unit
AreLengths ((ds, a) ∷ args) = IsLength ds a × AreLengths args

unfoldable pub request : Bytes → List (Bytes × Bytes) → Bytes → Bytes
unfolding bulks
request ds args rest = b'*' ∷ (ds ++ crlf (bulks args rest))

-- A request that the parser takes.
pub record IsRequest (ds : Bytes) (args : List (Bytes × Bytes)) : Type 0 where
  pub count : Spells ds (length args)
  pub lengths : AreLengths args
  pub bounded : length args ≤ max_argv
