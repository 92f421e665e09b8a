-- ===== src/Resp/Digits.antt =====
-- What the digit loops and the line ends of the parser have read.
use aura_redis.Prelude.{
  ℕ, zero, suc, ◌+◌, ◌-◌, ◌*◌, ◌%◌, ◌^◌, ◌≤◌, ◌<◌, ◌≡◌, refl, subst, ap, ◌∙◌, true, Bool-cases, inl,
  inr, Option, some, [], ◌∷◌, ◌++◌, length, arith,
}
use aura_redis.Bytes.{Bytes}
use aura_redis.Resp.{
  Parsed, parsed, incomplete, protocol_error, ◌>>=◌, is_digit, max_bulk, bulk_digits, count_digits,
  expect_crlf, end_of_line, take, drop, payload,
}
use aura_redis.Resp.Encode.{AllDigits, value, crlf}

-- `s` is digits, then `rest`.
pub record ReadsDigits (s rest ds : Bytes) : Type 0 where
  pub digits : AllDigits ds
  pub split : s ≡ ds ++ rest

ReadsDigits-nil : (s : Bytes) → ReadsDigits s s []
ReadsDigits-nil s = record { digits = tt; split = refl }

ReadsDigits-cons :
    (c : ℕ) (s rest ds : Bytes)
    → is_digit c ≡ true
    → ReadsDigits s rest ds
    → ReadsDigits (c ∷ s) rest (c ∷ ds)
ReadsDigits-cons c s rest ds h r = record {
  digits = (h, r.digits);
  split = ap (λ t. c ∷ t) r.split;
}

pub bulk_digits-ReadsDigits :
    (n d : ℕ) (s : Bytes) (m k : ℕ) (rest : Bytes)
    → d ≤ 10
    → bulk_digits n d s ≡ some (m, k, rest)
    → (ds : Bytes) × ReadsDigits s rest ds × (m ≡ value n ds) × (k ≡ d + length ds) × (k ≤ 10)
unfolding bulk_digits value
bulk_digits-ReadsDigits n d [] m k rest few h =
    let same : [] ≡ rest = ground (arith, h) in
    (
      [],
      subst (λ t. ReadsDigits [] t []) same (ReadsDigits-nil []),
      ground arith,
      ground arith,
      ground arith,
    )
bulk_digits-ReadsDigits n d (c ∷ s) m k rest few h = elim (Bool-cases (is_digit c)) [
  | inr other ↦
      let same : (c ∷ s) ≡ rest = ground (arith, h) in
      (
        [],
        subst (λ t. ReadsDigits (c ∷ s) t []) same (ReadsDigits-nil (c ∷ s)),
        ground arith,
        ground arith,
        ground arith,
      )
  | inl digit ↦
      let room : d ≤ 9 = ground (arith, h) in
      let on : bulk_digits (n * 10 + (c - b'0')) (d + 1) s ≡ some (m, k, rest) =
        ground (arith, h) in
      let (ds, r, v, l, e) =
        bulk_digits-ReadsDigits (n * 10 + (c - b'0')) (d + 1) s m k rest (omega arith) on in
      (c ∷ ds, ReadsDigits-cons c s rest ds digit r, v, omega arith, e)
]

value-mod :
    (a b : ℕ) (ds : Bytes) → a % 2 ^ 64 ≡ b % 2 ^ 64 → value a ds % 2 ^ 64 ≡ value b ds % 2 ^ 64
unfolding value
value-mod a b [] h = h
value-mod a b (c ∷ s) h = value-mod (a * 10 + (c - b'0')) (b * 10 + (c - b'0')) s (omega arith)

pub count_digits-ReadsDigits :
    (n d : ℕ) (s : Bytes)
    → (ds : Bytes) × ReadsDigits s (count_digits n d s).2 ds
      × ((count_digits n d s).0 % 2 ^ 64 ≡ value n ds % 2 ^ 64)
      × ((count_digits n d s).1 ≡ d + length ds)
unfolding count_digits value
count_digits-ReadsDigits n d [] = ([], ReadsDigits-nil [], refl, omega arith)
count_digits-ReadsDigits n d (c ∷ s) = elim (Bool-cases (is_digit c)) [
  | inr other ↦ rw other ([], ReadsDigits-nil (c ∷ s), refl, omega arith)
  | inl digit ↦
      let next = (n * 10 + (c - b'0')) % 2 ^ 64 in
      let (ds, r, v, l) = count_digits-ReadsDigits next (d + 1) s in
      rw digit (
        c ∷ ds,
        ReadsDigits-cons c s _ ds digit r,
        v ∙ value-mod next (n * 10 + (c - b'0')) ds (omega arith),
        omega arith,
      )
]

pub end_of_line-crlf_inv :
    (d : ℕ) (s rest : Bytes) → end_of_line d s ≡ parsed tt rest → (0 < d) × (s ≡ crlf rest)
unfolding end_of_line expect_crlf
end_of_line-crlf_inv d [] rest h = ground arith
end_of_line-crlf_inv d (c ∷ []) rest h = ground arith
end_of_line-crlf_inv d (c ∷ x ∷ s) rest h = ground arith

take-drop : (n : ℕ) (s : Bytes) → take n s ++ drop n s ≡ s
unfolding take drop
take-drop zero s = refl
take-drop (suc n) [] = refl
take-drop (suc n) (c ∷ s) = ap (λ t. c ∷ t) (take-drop n s)

length-take : (n : ℕ) (s : Bytes) → n ≤ length s → length (take n s) ≡ n
unfolding take
length-take zero s h = refl
length-take (suc n) [] h = absurd (omega arith)
length-take (suc n) (c ∷ s) h = omega (arith, length-take n s)

expect_crlf-inv : (s rest : Bytes) → expect_crlf s ≡ parsed tt rest → s ≡ crlf rest
unfolding expect_crlf
expect_crlf-inv [] rest h = ground arith
expect_crlf-inv (c ∷ []) rest h = ground arith
expect_crlf-inv (c ∷ x ∷ s) rest h = ground arith

-- A bind that succeeds.
pub >>=-parsed {ℓ κ} :
    {A : Type ℓ} {B : Type κ} (m : Parsed A) (f : A → Bytes → Parsed B) (b : B) (rest : Bytes)
    → (m >>= f) ≡ parsed b rest
    → (a : A) × (s : Bytes) × (m ≡ parsed a s) × (f a s ≡ parsed b rest)
>>=-parsed (parsed a s) f b rest h = (a, s, refl, h)
>>=-parsed incomplete f b rest h = cc
>>=-parsed protocol_error f b rest h = cc

pub payload-inv :
    (n : ℕ) (s : Bytes) (o : Option Bytes) (rest : Bytes)
    → payload n s ≡ parsed o rest
    → (a : Bytes) × (o ≡ some a) × (length a ≡ n) × (n ≤ max_bulk) × (s ≡ a ++ crlf rest)
unfolding payload
payload-inv n s o rest h =
    let small : n ≤ max_bulk = ground arith in
    let enough : n + 2 ≤ length s = ground arith in
    let last : (expect_crlf (drop n s) >>= λ _ t. parsed (some (take n s)) t) ≡ parsed o rest =
      ground arith in
    let (u, t, e, f) =
      >>=-parsed (expect_crlf (drop n s)) (λ _ t. parsed (some (take n s)) t) o rest last in
    let line = expect_crlf-inv (drop n s) t e in
    (
      take n s,
      ground (arith, f),
      length-take n s (omega arith),
      small,
      ground (arith, take-drop n s, line, f),
    )
