-- ===== src/Resp/Sound.antt =====
-- What the parser accepts.
use aura_redis.Prelude.{
  ℕ, zero, suc, ◌%◌, ◌^◌, ◌≤◌, ◌≡◌, refl, sym, subst, ap, ◌∙◌, true, false, ◌||◌, Bool-cases, inl,
  inr, Option, none, some, List, [], ◌∷◌, ◌++◌, length, arith, leb, ltb, if◌then◌else◌,
}
use aura_redis.Bytes.{Bytes}
use aura_redis.Resp.{
  Parsed, parsed, protocol_error, max_argv, bulk_digits, count_digits, end_of_line, payload,
  after_length, with_arg, is_minus, skip_minus, parse_bulk, parse_args, after_count, parse_command,
}
use aura_redis.Resp.Encode.{AllDigits, value, IsLength, crlf, bulks, arguments, AreLengths, request}
use aura_redis.Resp.Digits.{
  bulk_digits-ReadsDigits, count_digits-ReadsDigits, end_of_line-crlf_inv, >>=-parsed, payload-inv,
}

-- `a` stands in `s` behind its length, as a bulk string in front of `rest`.
record ReadsBulk (s a rest : Bytes) : Type 0 where
  ds : Bytes
  length_ok : IsLength ds a
  split : s ≡ ds ++ crlf (a ++ crlf rest)

-- The length line and the payload of a bulk string that is not null.
after_length-ReadsBulk :
    (s a rest : Bytes) (o : Option (ℕ × ℕ × Bytes))
    → bulk_digits 0 0 s ≡ o
    → after_length false o ≡ parsed (some a) rest
    → ReadsBulk s a rest
after_length-ReadsBulk s a rest none e h = cc
after_length-ReadsBulk s a rest (some (m, k, t)) e h =
    let (ds, r, v, l, few) = bulk_digits-ReadsDigits 0 0 s m k t (omega arith) e in
    let (u, t', line, pay) = >>=-parsed (end_of_line k t) (λ _ x. payload m x) (some a) rest h in
    let (pos, t_eq) = end_of_line-crlf_inv k t t' line in
    let (b, same, len, small, t'_eq) = payload-inv m t' (some a) rest pay in
    let ab : a ≡ b = cc same in
    record {
      ds = ds;
      length_ok = record {
        spells = record {
          digits = r.digits;
          nonempty = omega arith;
          spelled = ground (arith, v, len, ab);
        };
        few = omega arith;
        small = ground (arith, small, len, ab);
      };
      split = ground (arith, r.split, t_eq, t'_eq, ab);
    }

abbrev nothing : Bytes → Parsed (Option Bytes)
nothing x = parsed none x

null-bulk :
    (s a rest : Bytes) (o : Option (ℕ × ℕ × Bytes)) → after_length true o ≡ parsed (some a) rest → ⊥
null-bulk s a rest none h = cc
null-bulk s a rest (some (m, k, t)) h =
    let (u, t', line, pay) = >>=-parsed (end_of_line k t) (λ _ x. nothing x) (some a) rest h in
    cc pay

parse_bulk-ReadsBulk :
    (s a rest : Bytes)
    → parse_bulk s ≡ parsed (some a) rest
    → (t : Bytes) × ReadsBulk t a rest × (s ≡ b'$' ∷ t)
unfolding parse_bulk
parse_bulk-ReadsBulk [] a rest h = cc
parse_bulk-ReadsBulk (c ∷ s) a rest h =
    let dollar : c ≡ b'$' = ground arith in
    let body : after_length (is_minus s) (bulk_digits 0 0 (skip_minus s)) ≡ parsed (some a) rest =
      ground arith in
    elim (Bool-cases (is_minus s)) [
      | inl minus ↦ absurd (null-bulk s a rest (bulk_digits 0 0 (skip_minus s)) (rw (← minus) body))
      | inr plus ↦ (
        s,
        after_length-ReadsBulk s a rest (bulk_digits 0 0 s) refl (plain s plus body),
        ap (λ x. x ∷ s) dollar,
      )
    ]
  where
    plain :
        (s : Bytes)
        → is_minus s ≡ false
        → after_length (is_minus s) (bulk_digits 0 0 (skip_minus s)) ≡ parsed (some a) rest
        → after_length false (bulk_digits 0 0 s) ≡ parsed (some a) rest
    plain [] p h = h
    plain (x ∷ t) p h = ground (arith, p, h)

-- The arguments, each behind its length, stand in `s` in front of `rest`.
record ReadsArgs (n : ℕ) (s : Bytes) (args : List Bytes) (rest : Bytes) : Type 0 where
  pub spelled : List (Bytes × Bytes)
  pub lengths : AreLengths spelled
  pub same : arguments spelled ≡ args
  pub number : length spelled ≡ n
  pub split : s ≡ bulks spelled rest

ReadsArgs-cons :
    (n : ℕ) (s t a : Bytes) (args : List Bytes) (rest rest' : Bytes)
    → ReadsBulk t a rest'
    → s ≡ b'$' ∷ t
    → ReadsArgs n rest' args rest
    → ReadsArgs (suc n) s (a ∷ args) rest
unfolding arguments bulks
ReadsArgs-cons n s t a args rest rest' b e r = record {
  spelled = (b.ds, a) ∷ r.spelled;
  lengths = (b.length_ok, r.lengths);
  same = ap (λ x. a ∷ x) r.same;
  number = ap suc r.number;
  split = ground (arith, e, b.split, r.split);
}

module _ (n : ℕ) (rest : Bytes) where
  -- One bulk string has been read, and the others by `ih`.
  with_arg-ReadsArgs :
      (s rest' : Bytes) (args : List Bytes) (o : Option Bytes)
      → parse_bulk s ≡ parsed o rest'
      → with_arg o (parse_args n rest') ≡ parsed args rest
      → ((more : List Bytes) → parse_args n rest' ≡ parsed more rest → ReadsArgs n rest' more rest)
      → ReadsArgs (suc n) s args rest
  with_arg-ReadsArgs s rest' args none e h ih = cc
  with_arg-ReadsArgs s rest' args (some a) e h ih =
      let (more, t', others, last) =
        >>=-parsed (parse_args n rest') (λ x r. parsed (a ∷ x) r) args rest h in
      let (t, b, split) = parse_bulk-ReadsBulk s a rest' e in
      let same : t' ≡ rest = cc last in
      let whole : (a ∷ more) ≡ args = cc last in
      subst (λ x. ReadsArgs (suc n) s x rest) whole
        (ReadsArgs-cons n s t a more rest rest' b split
          (ih more (others ∙ ap (λ x. parsed more x) same)))

parse_args-ReadsArgs :
    (n : ℕ) (s : Bytes) (args : List Bytes) (rest : Bytes)
    → parse_args n s ≡ parsed args rest
    → ReadsArgs n s args rest
unfolding parse_args
parse_args-ReadsArgs zero s args rest h = record {
  spelled = [];
  lengths = tt;
  same = unfold arguments in cc;
  number = refl;
  split = unfold bulks in cc;
}
parse_args-ReadsArgs (suc n) s args rest h =
    let (o, rest', e, w) =
      >>=-parsed (parse_bulk s) (λ o x. with_arg o (parse_args n x)) args rest h in
    with_arg-ReadsArgs n rest s rest' args o e w
      (λ more m. parse_args-ReadsArgs n rest' more rest m)

-- What a successful parse says of the buffer.
pub record Accepts (s : Bytes) (args : List Bytes) (rest : Bytes) : Type 0 where
  pub ds : Bytes
  pub spelled : List (Bytes × Bytes)
  pub split : s ≡ request ds spelled rest
  pub same : arguments spelled ≡ args
  pub digits : AllDigits ds
  pub count : value 0 ds % 2 ^ 64 ≡ length spelled
  pub lengths : AreLengths spelled
  pub bounded : length spelled ≤ max_argv

-- The header and the arguments behind it, put together.
header-Accepts :
    (s ds t rest : Bytes)
    → (args : List Bytes) → (n : ℕ) → AllDigits ds
    → n % 2 ^ 64 ≡ value 0 ds % 2 ^ 64
    → n ≤ max_argv
    → s ≡ ds ++ crlf t
    → ReadsArgs n t args rest
    → Accepts (b'*' ∷ s) args rest
unfolding request
header-Accepts s ds t rest args n d v within e a = record {
  ds = ds;
  spelled = a.spelled;
  split = ground (arith, e, a.split);
  same = a.same;
  digits = d;
  count = omega (arith, v, a.number, within);
  lengths = a.lengths;
  bounded = omega (arith, a.number, within);
}

-- Where the parser reports a command, the buffer begins with an array of exactly those arguments,
-- each behind digits that spell its length, and what is left is what stands behind it. The number
-- of arguments is at most 64; its digits are read modulo 2^64.
pub parse_command-Accepts :
    (s : Bytes) (args : List Bytes) (rest : Bytes)
    → parse_command s ≡ parsed args rest
    → Accepts s args rest
unfolding parse_command
parse_command-Accepts [] args rest h = cc
parse_command-Accepts (c ∷ s) args rest h =
    let star : c ≡ b'*' = ground arith in
    let r = count_digits 0 0 s in
    let body : after_count (count_digits 0 0 s) ≡ parsed args rest = ground arith in
    let (ds, d, v, l) = count_digits-ReadsDigits 0 0 s in
    let (u, t, line, after) =
      >>=-parsed (end_of_line r.1 r.2)
        (λ _ x. if leb (2 ^ 63) r.0 || ltb max_argv r.0 then protocol_error else parse_args r.0 x)
        args rest body in
    let (pos, t_eq) = end_of_line-crlf_inv r.1 r.2 t line in
    let within : r.0 ≤ max_argv = ground (arith, after) in
    let read : parse_args r.0 t ≡ parsed args rest = ground (arith, after) in
    subst (λ x. Accepts (x ∷ s) args rest) (sym star)
      (header-Accepts s ds t rest args r.0 d.digits v within (d.split ∙ ap (λ x. ds ++ x) t_eq)
        (parse_args-ReadsArgs r.0 t args rest read))
