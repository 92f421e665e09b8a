-- ===== src/Snapshot/Numbers.antt =====
-- The numbers, blobs and elements of a snapshot are read as they were written.
use mathlib.Core.List.{append_assoc}
use aura_redis.Prelude.{
  ℕ, zero, suc, ◌/◌, ◌^◌, ◌≤◌, ◌<◌, ◌≡◌, refl, sym, ap, subst, ◌∙◌, false, Bool-cases, inl, inr,
  Option, none, some, ◌++◌, length, length-append, ltb, if◌then◌else◌, arith,
}
use aura_redis.Bytes.{Bytes}
use aura_redis.Resp.RoundTrip.{take-append, drop-append}
use aura_redis.Entry.{HashField, ZNode}
use aura_redis.Snapshot.Format.{
  max_blob, Reading, ◌>>=◌, ◌>>◌, le_bytes, le_value, wr_u8, wr_u32, wr_u64, wr_f64, wr_blob, fread,
  rd_number, rd_u8, rd_u32, rd_u64, rd_f64, rd_blob,
}
use aura_redis.Snapshot.Write.{write_pair, write_node}
use aura_redis.Snapshot.Read.{rd_field, rd_node}

length-le_bytes : (n v : ℕ) → length (le_bytes n v) ≡ n
unfolding le_bytes
length-le_bytes zero v = refl
length-le_bytes (suc n) v = ap suc (length-le_bytes n (v / 256))

le_value-le_bytes : (n v : ℕ) → v < 256 ^ n → le_value (le_bytes n v) ≡ v
unfolding le_bytes le_value
le_value-le_bytes zero v h = omega arith
le_value-le_bytes (suc n) v h = omega (arith, le_value-le_bytes n (v / 256) (omega (arith, h)))

pub fread-append : (a b : Bytes) → fread (length a) (a ++ b) ≡ some (a, b)
unfolding fread
fread-append a b =
    let long : ltb (length (a ++ b)) (length a) ≡ false = ground (arith, length-append a b) in
    rw (long, take-append a b, drop-append a b) refl

pub rd_number-le_bytes :
    (n v : ℕ) (rest : Bytes) → v < 256 ^ n → rd_number n (le_bytes n v ++ rest) ≡ some (v, rest)
unfolding rd_number
rd_number-le_bytes n v rest h =
    let all : fread n (le_bytes n v ++ rest) ≡ some (le_bytes n v, rest) =
      subst (λ k. fread k (le_bytes n v ++ rest) ≡ some (le_bytes n v, rest)) (length-le_bytes n v)
        (fread-append (le_bytes n v) rest) in
    rw (all, le_value-le_bytes n v h) refl

pub some_inj : {A : Type 0} {a b : A} → some a ≡ some b → a ≡ b
some_inj e = cc

-- The parts of what two writers have written.
pub >>-parts :
    (m k : Option Bytes) (b : Bytes)
    → (m >> k) ≡ some b
    → (x : Bytes) × (y : Bytes) × (m ≡ some x) × (k ≡ some y) × (b ≡ x ++ y)
>>-parts none k b h = cc
>>-parts (some x) none b h = cc
>>-parts (some x) (some y) b h = (x, y, refl, refl, cc)

pub wr_blob-parts :
    (p b : Bytes) → wr_blob p ≡ some b → (length p ≤ 2147483647) × (b ≡ wr_u32 (length p) ++ p)
unfolding wr_blob
wr_blob-parts p b h = elim (Bool-cases (ltb 2147483647 (length p))) [
  | inl big ↦
      absurd
        (refused (subst (λ c. (if c then none else some (wr_u32 (length p) ++ p)) ≡ some b) big h))
  | inr small ↦ (
    ground (arith, small),
    written (subst (λ c. (if c then none else some (wr_u32 (length p) ++ p)) ≡ some b) small h),
  )
]
  where
    refused : none ≡ some b → ⊥
    refused e = cc

    written : some (wr_u32 (length p) ++ p) ≡ some b → b ≡ wr_u32 (length p) ++ p
    written e = cc

pub rd_u8-wr_u8 : (v : ℕ) (rest : Bytes) → v < 256 → rd_u8 (wr_u8 v ++ rest) ≡ some (v, rest)
unfolding rd_u8 wr_u8
rd_u8-wr_u8 v rest h = rd_number-le_bytes 1 v rest (omega (arith, h))

pub rd_u32-wr_u32 : (v : ℕ) (rest : Bytes) → v < 2 ^ 32 → rd_u32 (wr_u32 v ++ rest) ≡ some (v, rest)
unfolding rd_u32 wr_u32
rd_u32-wr_u32 v rest h = rd_number-le_bytes 4 v rest (omega (arith, h))

pub rd_u64-wr_u64 : (v : ℕ) (rest : Bytes) → v < 2 ^ 64 → rd_u64 (wr_u64 v ++ rest) ≡ some (v, rest)
unfolding rd_u64 wr_u64
rd_u64-wr_u64 v rest h = rd_number-le_bytes 8 v rest (omega (arith, h))

pub rd_f64-wr_f64 : (v : ℕ) (rest : Bytes) → v < 2 ^ 64 → rd_f64 (wr_f64 v ++ rest) ≡ some (v, rest)
unfolding rd_f64 wr_f64
rd_f64-wr_f64 v rest h = rd_number-le_bytes 8 v rest (omega (arith, h))

rd_blob-length :
    (s s1 : Bytes) (n : ℕ) → rd_u32 s ≡ some (n, s1) → n ≤ max_blob → rd_blob s ≡ fread n s1
unfolding rd_blob
rd_blob-length s s1 n e h =
    let small : ltb max_blob n ≡ false = ground (arith, h) in
    ap (λ r. r >>= λ k rest. if ltb max_blob k then none else fread k rest) e
    ∙ ap (λ b. if b then none else fread n s1) small

-- A reader that reads what its writer has written, for what fits.
pub record IsCodec {A : Type 0} (wr : A → Option Bytes) (rd : Bytes → Reading A) (Fits : A → Type 0)
    : Type 0 where
  pub reads : (a : A) (b rest : Bytes) → Fits a → wr a ≡ some b → rd (b ++ rest) ≡ some (a, rest)

abbrev pub IsBlob : Bytes → Type 0
IsBlob p = length p ≤ max_blob

abbrev pub IsField : HashField → Type 0
IsField f = IsBlob f.field × IsBlob f.val

abbrev pub IsNode : ZNode → Type 0
IsNode n = IsBlob n.member × (n.score < 2 ^ 64)

pub rd_blob-IsCodec : IsCodec wr_blob rd_blob IsBlob
rd_blob-IsCodec = record {
  reads = λ p b rest h e.
      ap (λ w. rd_blob (w ++ rest)) (wr_blob-parts p b e).1
      ∙ ap rd_blob (append_assoc (wr_u32 (length p)) p rest)
      ∙ rd_blob-length (wr_u32 (length p) ++ (p ++ rest)) (p ++ rest) (length p)
          (rd_u32-wr_u32 (length p) (p ++ rest) (omega (arith, h))) h
      ∙ fread-append p rest;
}

pub rd_field-IsCodec : IsCodec write_pair rd_field IsField
unfolding write_pair rd_field
rd_field-IsCodec = record {
  reads = λ f b rest (hf, hv) e.
      let (x, y, ex, ey, eb) = >>-parts (wr_blob f.field) (wr_blob f.val) b e in
      ap (λ w. rd_field (w ++ rest)) eb
      ∙ ap rd_field (append_assoc x y rest)
      ∙ ap (λ r. r >>= λ f s1. rd_blob s1 >>= λ v s2. some (record { field = f; val = v }, s2))
          (rd_blob-IsCodec.reads f.field x (y ++ rest) hf ex)
      ∙ ap (λ r. r >>= λ v s2. some (record { field = f.field; val = v }, s2))
          (rd_blob-IsCodec.reads f.val y rest hv ey);
}

pub rd_node-IsCodec : IsCodec write_node rd_node IsNode
unfolding write_node rd_node
rd_node-IsCodec = record {
  reads = λ n b rest (hm, hs) e.
      let (x, y, ex, ey, eb) = >>-parts (some (wr_f64 n.score)) (wr_blob n.member) b e in
      ap (λ w. rd_node (w ++ rest)) (eb ∙ ap (λ w. w ++ y) (sym (some_inj ex)))
      ∙ ap rd_node (append_assoc (wr_f64 n.score) y rest)
      ∙ ap (λ r. r >>= λ d s1. rd_blob s1 >>= λ m s2. some (record { member = m; score = d }, s2))
          (rd_f64-wr_f64 n.score (y ++ rest) hs)
      ∙ ap (λ r. r >>= λ m s2. some (record { member = m; score = n.score }, s2))
          (rd_blob-IsCodec.reads n.member y rest hm ey);
}
