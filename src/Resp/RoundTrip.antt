-- ===== src/Resp/RoundTrip.antt =====
-- The parser on well-formed requests.
use aura_redis.Prelude.{
  ℕ, ◌+◌, ◌-◌, ◌*◌, ◌%◌, ◌^◌, ◌≤◌, ◌<◌, ◌≡◌, refl, ap, false, ◌||◌, some, List, [], ◌∷◌, ◌++◌,
  length, length-append, arith, leb, ltb,
}
use aura_redis.Bytes.{Bytes}
use aura_redis.Resp.{
  parsed, max_bulk, max_argv, bulk_digits, count_digits, expect_crlf, end_of_line, take, drop,
  payload, is_minus, skip_minus, parse_bulk, parse_args, parse_command,
}
use aura_redis.Resp.Encode.{
  AllDigits, value, value-le, IsLength, crlf, bulk, bulks, arguments, AreLengths, request,
  IsRequest,
}

bulk_digits-crlf :
    (n d : ℕ) (ds rest : Bytes)
    → AllDigits ds
    → d + length ds ≤ 10
    → value n ds ≤ max_bulk
    → bulk_digits n d (ds ++ crlf rest) ≡ some (value n ds, d + length ds, crlf rest)
unfolding bulk_digits value
bulk_digits-crlf n d [] rest a few small = ground arith
bulk_digits-crlf n d (c ∷ s) rest (h, a) few small =
    let le = value-le (n * 10 + (c - b'0')) s in
    rw h (ground (arith, bulk_digits-crlf (n * 10 + (c - b'0')) (d + 1) s rest a))

pub count_digits-crlf :
    (n d : ℕ) (ds rest : Bytes)
    → AllDigits ds
    → value n ds ≤ max_argv
    → count_digits n d (ds ++ crlf rest) ≡ (value n ds, d + length ds, crlf rest)
unfolding count_digits value
count_digits-crlf n d [] rest a small = ground arith
count_digits-crlf n d (c ∷ s) rest (h, a) small =
    let le = value-le (n * 10 + (c - b'0')) s in
    let same : (n * 10 + (c - b'0')) % 2 ^ 64 ≡ n * 10 + (c - b'0') = omega arith in
    rw h (rw same (ground (arith, count_digits-crlf (n * 10 + (c - b'0')) (d + 1) s rest a)))

pub take-append : (a b : Bytes) → take (length a) (a ++ b) ≡ a
unfolding take
take-append [] b = refl
take-append (c ∷ a) b = ap (λ t. c ∷ t) (take-append a b)

pub drop-append : (a b : Bytes) → drop (length a) (a ++ b) ≡ b
unfolding drop
drop-append [] b = refl
drop-append (c ∷ a) b = drop-append a b

payload-crlf :
    (a rest : Bytes)
    → length a ≤ max_bulk
    → payload (length a) (a ++ crlf rest) ≡ parsed (some a) rest
unfolding payload expect_crlf
payload-crlf a rest h =
    rw (take-append a (crlf rest), drop-append a (crlf rest))
      (ground (arith, length-append a (crlf rest)))

pub end_of_line-crlf : (d : ℕ) (rest : Bytes) → 0 < d → end_of_line d (crlf rest) ≡ parsed tt rest
unfolding end_of_line expect_crlf
end_of_line-crlf d rest h = ground arith

-- A digit is no minus sign.
digits-plus :
    (ds rest : Bytes)
    → AllDigits ds
    → 0 < length ds
    → (is_minus (ds ++ rest) ≡ false) × (skip_minus (ds ++ rest) ≡ ds ++ rest)
digits-plus [] rest a h = absurd (omega arith)
digits-plus (c ∷ s) rest (h, a) _ = (ground arith, ground arith)

pub parse_bulk-bulk :
    (ds a rest : Bytes) → IsLength ds a → parse_bulk (bulk ds a rest) ≡ parsed (some a) rest
unfolding parse_bulk
parse_bulk-bulk ds a rest l =
    let s = l.spells in
    let plus = digits-plus ds (crlf (a ++ crlf rest)) s.digits s.nonempty in
    let b =
      bulk_digits-crlf 0 0 ds (a ++ crlf rest) s.digits (omega (arith, l.few))
        (omega (arith, s.spelled, l.small)) in
    rw
      (
        plus.0,
        plus.1,
        b,
        s.spelled,
        end_of_line-crlf (0 + length ds) (a ++ crlf rest) (omega (arith, s.nonempty)),
      )
      (payload-crlf a rest l.small)

parse_args-bulks :
    (args : List (Bytes × Bytes)) (rest : Bytes)
    → AreLengths args
    → parse_args (length args) (bulks args rest) ≡ parsed (arguments args) rest
unfolding parse_args bulks arguments
parse_args-bulks [] rest l = refl
parse_args-bulks ((ds, a) ∷ args) rest (h, l) =
    rw (parse_bulk-bulk ds a (bulks args rest) h, parse_args-bulks args rest l) refl

-- A well-formed request in front of any bytes is parsed to its arguments, and the bytes are left.
pub parse_command-request :
    (ds : Bytes) (args : List (Bytes × Bytes)) (rest : Bytes)
    → IsRequest ds args
    → parse_command (request ds args rest) ≡ parsed (arguments args) rest
unfolding parse_command request
parse_command-request ds args rest r =
    let s = r.count in
    let c =
      count_digits-crlf 0 0 ds (bulks args rest) s.digits (omega (arith, s.spelled, r.bounded)) in
    let within : (leb (2 ^ 63) (length args) || ltb max_argv (length args)) ≡ false =
      ground (arith, r.bounded) in
    rw
      (
        c,
        s.spelled,
        end_of_line-crlf (0 + length ds) (bulks args rest) (omega (arith, s.nonempty)),
        within,
      )
      (parse_args-bulks args rest r.lengths)
