-- ===== src/Resp.antt =====
-- The request parser of native/src/ar_server.c, `parse_bulk` and `parse_command`, and the loop of
-- `process_reads` over it. A position in the buffer is the part of the buffer from there on, so a
-- success carries what is left; the numbers are those of a 64-bit `long`.
pub mod Encode
pub mod Digits
pub mod RoundTrip
pub mod Sound
pub mod Reads
pub mod Examples
use aura_redis.Prelude.{
  ℕ, zero, suc, ◌+◌, ◌-◌, ◌*◌, ◌%◌, ◌^◌, Bool, true, false, ◌&&◌, ◌||◌, Option, none, some, List,
  [], ◌∷◌, length, leb, ltb, ◌==◌, if◌then◌else◌,
}
use aura_redis.Bytes.{Bytes}

-- Bytes consumed (with the rest), 0, and -1.
pub data Parsed {ℓ} (A : Type ℓ) : Type ℓ where
  parsed : A → Bytes → Parsed A
  incomplete protocol_error : Parsed A

infixl 5 ◌>>=◌
abbrev pub ◌>>=◌ {ℓ κ} : {A : Type ℓ} {B : Type κ} → Parsed A → (A → Bytes → Parsed B) → Parsed B
parsed a s >>= f = f a s
incomplete >>= f = incomplete
protocol_error >>= f = protocol_error

abbrev pub is_digit : ℕ → Bool
is_digit c = leb b'0' c && leb c b'9'

abbrev pub cr : ℕ
cr = 13

abbrev pub lf : ℕ
lf = 10

-- 16L * 1024 * 1024
abbrev pub max_bulk : ℕ
max_bulk = 16777216

-- AR_MAX_ARGV
abbrev pub max_argv : ℕ
max_argv = 64

-- The digits of a bulk length, with the caps on their number and on the value so far; `none` is
-- the error. The result is the value, the number of digits and the rest.
unfoldable pub bulk_digits : ℕ → ℕ → Bytes → Option (ℕ × ℕ × Bytes)
bulk_digits n digits [] = some (n, digits, [])
bulk_digits n digits (c ∷ s) =
    if is_digit c
    then (if ltb 9 digits || ltb max_bulk n
        then none
        else bulk_digits (n * 10 + (c - b'0')) (digits + 1) s)
    else some (n, digits, c ∷ s)

-- The digits of the number of arguments, in a `long` that wraps.
unfoldable pub count_digits : ℕ → ℕ → Bytes → ℕ × ℕ × Bytes
count_digits n digits [] = (n, digits, [])
count_digits n digits (c ∷ s) =
    if is_digit c
    then count_digits ((n * 10 + (c - b'0')) % 2 ^ 64) (digits + 1) s
    else (n, digits, c ∷ s)

unfoldable pub expect_crlf : Bytes → Parsed (Unit {0})
expect_crlf [] = incomplete
expect_crlf (c ∷ []) = if c == cr then incomplete else protocol_error
expect_crlf (c ∷ d ∷ s) = if c == cr && d == lf then parsed tt s else protocol_error

abbrev pub is_empty : Bytes → Bool
is_empty [] = true
is_empty (c ∷ s) = false

-- `if (!digits) ...`, then the line's end.
unfoldable pub end_of_line : ℕ → Bytes → Parsed (Unit {0})
unfolding expect_crlf
end_of_line digits s =
    if digits == 0 then (if is_empty s then incomplete else protocol_error) else expect_crlf s

unfoldable pub take : ℕ → Bytes → Bytes
take zero s = []
take (suc n) [] = []
take (suc n) (c ∷ s) = c ∷ take n s

unfoldable pub drop : ℕ → Bytes → Bytes
drop zero s = s
drop (suc n) [] = []
drop (suc n) (c ∷ s) = drop n s

-- The `n` bytes and the line end behind them.
unfoldable pub payload : ℕ → Bytes → Parsed (Option Bytes)
unfolding take drop expect_crlf
payload n s =
    if ltb max_bulk n
    then protocol_error
    else if ltb (length s) (n + 2)
    then incomplete
    else (expect_crlf (drop n s) >>= λ _ rest. parsed (some (take n s)) rest)

abbrev pub after_length : Bool → Option (ℕ × ℕ × Bytes) → Parsed (Option Bytes)
after_length neg none = protocol_error
after_length neg (some (n, digits, s)) =
    end_of_line digits s >>= λ _ rest. if neg then parsed none rest else payload n rest

abbrev pub is_minus : Bytes → Bool
is_minus [] = false
is_minus (c ∷ s) = c == b'-'

abbrev pub skip_minus : Bytes → Bytes
skip_minus [] = []
skip_minus (c ∷ s) = if c == b'-' then s else c ∷ s

-- `none` is the null bulk string.
unfoldable pub parse_bulk : Bytes → Parsed (Option Bytes)
unfolding bulk_digits end_of_line payload
parse_bulk [] = protocol_error
parse_bulk (c ∷ s) =
    if c == b'$' then after_length (is_minus s) (bulk_digits 0 0 (skip_minus s)) else protocol_error

-- A null bulk string is refused.
abbrev pub with_arg : Option Bytes → Parsed (List Bytes) → Parsed (List Bytes)
with_arg none m = protocol_error
with_arg (some a) m = m >>= λ others rest. parsed (a ∷ others) rest

unfoldable pub parse_args : ℕ → Bytes → Parsed (List Bytes)
unfolding parse_bulk
parse_args zero s = parsed [] s
parse_args (suc n) s = parse_bulk s >>= λ o rest. with_arg o (parse_args n rest)

abbrev pub after_count : ℕ × ℕ × Bytes → Parsed (List Bytes)
after_count (n, digits, s) = end_of_line digits s >>= λ _ rest.
    if leb (2 ^ 63) n || ltb max_argv n then protocol_error else parse_args n rest

unfoldable pub parse_command : Bytes → Parsed (List Bytes)
unfolding parse_args count_digits end_of_line
parse_command [] = incomplete
parse_command (c ∷ s) = if c == b'*' then after_count (count_digits 0 0 s) else protocol_error
