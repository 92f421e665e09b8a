-- ===== src/Snapshot/Write.antt =====
-- What a save of native/src/ar_rdb.c writes. The chains of a table follow each other in the order of
-- its buckets.
use aura_redis.Prelude.{
  ℕ, ◌+◌, ◌%◌, ◌^◌, Bool, not, Option, none, some, List, [], ◌∷◌, ◌++◌, length, ◌==◌, if◌then◌else◌,
}
use aura_redis.Bytes.{Bytes}
use aura_redis.Entry.{
  ArType, string, hash, list, zset, HashField, HashObj, ZNode, ZSet, Value, str, hash_obj, list_obj,
  zset_obj, type_of, Entry,
}
use aura_redis.Table.{Table}
use aura_redis.Core.{Core}
use aura_redis.Core.Find.{is_due}
use aura_redis.Snapshot.Format.{◌>>◌, wr_u8, wr_u32, wr_u64, wr_f64, wr_blob}

-- The walk over the chains of a table.
unfoldable pub chained {ℓ} : {A : Type ℓ} → List (List A) → List A
chained [] = []
chained (b ∷ bs) = b ++ chained bs

module _ {A : Type 0} (wr : A → Option Bytes) where
  unfoldable pub write_each : List A → Option Bytes
  write_each [] = some []
  write_each (a ∷ more) = wr a >> write_each more

unfoldable pub write_pair : HashField → Option Bytes
unfolding wr_blob
write_pair f = wr_blob f.field >> wr_blob f.val

unfoldable pub write_node : ZNode → Option Bytes
unfolding wr_blob wr_f64
write_node n = some (wr_f64 n.score) >> wr_blob n.member

-- The number of fields, the fields, and the check that the number was right.
unfoldable pub write_hash : HashObj → Option Bytes
unfolding write_each write_pair wr_u32 chained
write_hash h =
    if length (chained h.buckets) % 2 ^ 32 == h.nfields % 2 ^ 32
    then some (wr_u32 h.nfields) >> write_each write_pair (chained h.buckets)
    else none

unfoldable pub write_list : List Bytes → Option Bytes
unfolding write_each wr_blob wr_u32
write_list l = some (wr_u32 (length l)) >> write_each wr_blob l

unfoldable pub write_zset : ZSet → Option Bytes
unfolding write_each write_node wr_u32
write_zset z = some (wr_u32 (length z.arr)) >> write_each write_node z.arr

abbrev pub type_code : ArType → ℕ
type_code string = 0
type_code hash = 1
type_code list = 2
type_code zset = 3

unfoldable pub write_value : Value → Option Bytes
unfolding wr_blob write_hash write_list write_zset
write_value (str v) = wr_blob v
write_value (hash_obj h) = write_hash h
write_value (list_obj l) = write_list l
write_value (zset_obj z) = write_zset z

unfoldable pub write_entry_v2 : Entry → Option Bytes
unfolding write_value wr_u8 wr_u64
write_entry_v2 e =
    some (wr_u8 (type_code (type_of e.value)))
    >> (wr_blob e.key >> (some (wr_u64 e.expire_at) >> write_value e.value))

abbrev pub entry_live : ℕ → Entry → Bool
entry_live now e = not (is_due now e)

-- The live entries of a walk.
unfoldable pub live_entries : ℕ → List Entry → List Entry
live_entries now [] = []
live_entries now (e ∷ es) =
    let rest = live_entries now es in if entry_live now e then e ∷ rest else rest

unfoldable pub write_table_v2 : ℕ → Table → Option Bytes
unfolding write_each write_entry_v2 live_entries chained
write_table_v2 now t = write_each write_entry_v2 (live_entries now (chained t))

unfoldable pub count_live_entries : ℕ → Core → ℕ
unfolding live_entries chained
count_live_entries now c =
    length (live_entries now (chained c.buckets))
    + length (live_entries now (chained c.cold_buckets))

-- AURARDB and a zero byte
abbrev pub magic : Bytes
magic = b'A' ∷ b'U' ∷ b'R' ∷ b'A' ∷ b'R' ∷ b'D' ∷ b'B' ∷ 0 ∷ []

-- All that `ar_rdb_save_to_path` writes.
unfoldable pub write_core : ℕ → Core → Option Bytes
unfolding wr_u32 wr_u64 count_live_entries write_table_v2
write_core now c =
    some magic
    >> (some (wr_u32 2)
        >> (some (wr_u64 (count_live_entries now c))
            >> (write_table_v2 now c.buckets >> write_table_v2 now c.cold_buckets)))
