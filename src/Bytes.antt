-- ===== src/Bytes.antt =====
-- Byte strings with their lengths (`char*` and `size_t`), and the hash of native/src/ar_core.c and
-- native/src/ar_types.c. A byte is a number below 256.
use Prim.Native.Nat.{bit_and, bit_xor, min, digits, bit_and-bitwise}
use aura_redis.Prelude.{
  ℕ, zero, suc, ◌-◌, ◌*◌, ◌/◌, ◌%◌, ◌^◌, ◌≤◌, ◌<◌, ◌≡◌, refl, ◌↔◌, Bool, true, false, ◌&&◌, List,
  [], ◌∷◌, arith, ◌==◌,
}

abbrev pub Bytes : Type 0
Bytes = List ℕ

-- `alen == blen && memcmp(a, b, alen) == 0`
unfoldable pub bytes_eq : Bytes → Bytes → Bool
bytes_eq [] [] = true
bytes_eq [] (y ∷ ys) = false
bytes_eq (x ∷ xs) [] = false
bytes_eq (x ∷ xs) (y ∷ ys) = (x == y) && bytes_eq xs ys

pub bytes_eq_refl : (k : Bytes) → bytes_eq k k ≡ true
unfolding bytes_eq
bytes_eq_refl [] = refl
bytes_eq_refl (x ∷ xs) = ground (arith, bytes_eq_refl xs)

pub eq_of_bytes_eq : (j k : Bytes) → bytes_eq j k ≡ true → j ≡ k
unfolding bytes_eq
eq_of_bytes_eq [] [] h = refl
eq_of_bytes_eq [] (y ∷ ys) h = ground arith
eq_of_bytes_eq (x ∷ xs) [] h = ground arith
eq_of_bytes_eq (x ∷ xs) (y ∷ ys) h = ground (arith, eq_of_bytes_eq xs ys)

pub bytes_eq_iff : (j k : Bytes) → (bytes_eq j k ≡ true) ↔ (j ≡ k)
bytes_eq_iff j k = (eq_of_bytes_eq j k, λ e. rw e (bytes_eq_refl k))

-- The loop over the bytes with the accumulator `h`.
hash_from : ℕ → Bytes → ℕ
hash_from h [] = h
hash_from h (c ∷ cs) = hash_from (bit_xor h c * 1099511628211 % 2 ^ 64) cs

unfoldable pub hash_bin : Bytes → ℕ
unfolding hash_from
hash_bin s = hash_from 1469598103934665603 s

-- `hash & (nbuckets - 1)`
unfoldable pub bucket_index : Bytes → ℕ → ℕ
unfolding hash_bin
bucket_index key nbuckets = bit_and (hash_bin key) (nbuckets - 1)

digits-le : (n a b : ℕ) → digits (λ c. zero) min n a b ≤ b
digits-le zero a b = omega arith
digits-le (suc n) zero b = omega arith
digits-le (suc n) (suc a) b = omega (arith, digits-le n (suc a / 2) (b / 2))

bit_and-le : (a b : ℕ) → bit_and a b ≤ b
bit_and-le a b = rw (bit_and-bitwise a b) (digits-le a a b)

-- The masked index is inside the bucket array.
pub bucket_index-lt : (key : Bytes) (n : ℕ) → 0 < n → bucket_index key n < n
unfolding bucket_index
bucket_index-lt key n h = omega (arith, bit_and-le (hash_bin key) (n - 1))
