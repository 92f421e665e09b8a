-- ===== src/Snapshot/Format.antt =====
-- The numbers and blobs of native/src/ar_rdb.c. A writer returns its bytes, `none` where it refuses;
-- a reader returns what it has read and the rest of the file.
use aura_redis.Prelude.{
  ℕ, zero, suc, ◌+◌, ◌*◌, ◌/◌, ◌%◌, Option, none, some, [], ◌∷◌, ◌++◌, length, ltb, if◌then◌else◌,
}
use aura_redis.Bytes.{Bytes}
use aura_redis.Resp.{take, drop}

-- AURA_RDB_MAX_BLOB and AURA_RDB_MAX_ELEMS
abbrev pub max_blob : ℕ
max_blob = 16777216

abbrev pub max_elems : ℕ
max_elems = 1000000

-- What was read, and the rest of the file.
abbrev pub Reading : Type 0 → Type 0
Reading A = Option (A × Bytes)

infixl 5 ◌>>=◌
abbrev pub ◌>>=◌ : {A B : Type 0} → Reading A → (A → Bytes → Reading B) → Reading B
none >>= f = none
some (a, s) >>= f = f a s

-- One writer after the other.
infixr 6 ◌>>◌
abbrev pub ◌>>◌ : Option Bytes → Option Bytes → Option Bytes
none >> k = none
some a >> none = none
some a >> some b = some (a ++ b)

-- The `n` low bytes of a number, the lowest first.
unfoldable pub le_bytes : ℕ → ℕ → Bytes
le_bytes zero v = []
le_bytes (suc n) v = v % 256 ∷ le_bytes n (v / 256)

unfoldable pub le_value : Bytes → ℕ
le_value [] = 0
le_value (b ∷ bs) = b + 256 * le_value bs

unfoldable pub wr_u8 : ℕ → Bytes
unfolding le_bytes
wr_u8 v = le_bytes 1 v

unfoldable pub wr_u32 : ℕ → Bytes
unfolding le_bytes
wr_u32 v = le_bytes 4 v

unfoldable pub wr_u64 : ℕ → Bytes
unfolding le_bytes
wr_u64 v = le_bytes 8 v

-- The bit pattern of the `double`.
unfoldable pub wr_f64 : ℕ → Bytes
unfolding le_bytes
wr_f64 d = le_bytes 8 d

unfoldable pub wr_blob : Bytes → Option Bytes
unfolding wr_u32
wr_blob p = if ltb 2147483647 (length p) then none else some (wr_u32 (length p) ++ p)

-- `fread` of `n` bytes, where all must be there.
unfoldable pub fread : ℕ → Bytes → Reading Bytes
unfolding take drop
fread n s = if ltb (length s) n then none else some (take n s, drop n s)

-- The next `n` bytes as a number.
unfoldable pub rd_number : ℕ → Bytes → Reading ℕ
unfolding fread le_value
rd_number n s = fread n s >>= λ b rest. some (le_value b, rest)

unfoldable pub rd_u8 : Bytes → Reading ℕ
unfolding rd_number
rd_u8 s = rd_number 1 s

unfoldable pub rd_u32 : Bytes → Reading ℕ
unfolding rd_number
rd_u32 s = rd_number 4 s

unfoldable pub rd_u64 : Bytes → Reading ℕ
unfolding rd_number
rd_u64 s = rd_number 8 s

unfoldable pub rd_f64 : Bytes → Reading ℕ
unfolding rd_number
rd_f64 s = rd_number 8 s

unfoldable pub rd_blob : Bytes → Reading Bytes
unfolding rd_u32
rd_blob s = rd_u32 s >>= λ n rest. if ltb max_blob n then none else fread n rest
