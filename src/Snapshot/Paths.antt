-- ===== src/Snapshot/Paths.antt =====
-- Where the snapshot stands: the directory and the file name of native/src/ar_rdb.c, as C strings
-- without their last zero byte.
use aura_redis.Prelude.{
  ℕ, Bool, true, false, ◌||◌, Option, none, some, [], ◌∷◌, ◌++◌, length, leb, ltb, ◌==◌,
  if◌then◌else◌,
}
use aura_redis.Bytes.{Bytes}

pub record RdbPath : Type 0 where
  pub rdb_dir : Bytes
  pub rdb_filename : Bytes

abbrev pub or_default : Bytes → Bytes → Bytes
or_default d [] = d
or_default d (c ∷ s) = c ∷ s

-- "."
unfoldable pub rdb_dir_of : RdbPath → Bytes
rdb_dir_of p = or_default (b'.' ∷ []) p.rdb_dir

abbrev default_filename : Bytes
default_filename =
    b'd' ∷ b'u' ∷ b'm' ∷ b'p' ∷ b'.' ∷ b'a' ∷ b'u' ∷ b'r' ∷ b'a' ∷ b'-' ∷ b'r' ∷ b'd' ∷ b'b' ∷ []

unfoldable pub rdb_filename_of : RdbPath → Bytes
rdb_filename_of p = or_default default_filename p.rdb_filename

-- `snprintf(out, outsz, "%s/%s", dir, name)` with all of it in place.
unfoldable pub build_path : RdbPath → ℕ → Option Bytes
unfolding rdb_dir_of rdb_filename_of
build_path p outsz =
    let path = rdb_dir_of p ++ (b'/' ∷ rdb_filename_of p) in
    if ltb outsz 4 then none else if ltb (length path) outsz then some path else none

abbrev pub is_empty : Bytes → Bool
is_empty [] = true
is_empty (c ∷ s) = false

-- `strchr`
abbrev pub has_byte : ℕ → Bytes → Bool
has_byte b [] = false
has_byte b (c ∷ s) = (c == b) || has_byte b s

-- `sizeof(core->rdb_dir)` and `sizeof(core->rdb_filename)`
abbrev dir_size : ℕ
dir_size = 256

abbrev filename_size : ℕ
filename_size = 128

unfoldable pub set_rdb_dir : Bytes → RdbPath → RdbPath × Bool
set_rdb_dir dir p =
    if is_empty dir || leb dir_size (length dir)
    then (p, false)
    else (record p { rdb_dir = dir }, true)

unfoldable pub set_rdb_filename : Bytes → RdbPath → RdbPath × Bool
set_rdb_filename name p =
    if is_empty name
      || (has_byte b'/' name || (has_byte 92 name || leb filename_size (length name)))
    then (p, false)
    else (record p { rdb_filename = name }, true)
