-- ===== src/Entry.antt =====
-- The stored values and entries of native/src/ar_internal.h (ArHash, ArList, ArZSet, ArEntry) and
-- their sizes (native/src/ar_types.c). A linked list of nodes is the list of its values; a pointer
-- to a node is its place in that list. The sizes of the structs are those of a 64-bit target.
use aura_redis.Prelude.{ℕ, ◌+◌, ◌*◌, Bool, true, false, List, [], ◌∷◌, length}
use aura_redis.Bytes.{Bytes}

pub data ArType : Type 0 where
  string hash list zset : ArType

abbrev pub type_eq : ArType → ArType → Bool
type_eq string string = true
type_eq hash hash = true
type_eq list list = true
type_eq zset zset = true
type_eq _ _ = false

pub record HashField : Type 0 where
  pub field : Bytes
  pub val : Bytes

pub record HashObj : Type 0 where
  pub buckets : List (List HashField)
  pub nfields : ℕ

-- The score is the bit pattern of the `double`.
pub record ZNode : Type 0 where
  pub member : Bytes
  pub score : ℕ

pub record ZSet : Type 0 where
  pub arr : List ZNode
  pub cap : ℕ

-- `type`, `val` and `obj` of an entry.
pub data Value : Type 0 where
  str : Bytes → Value
  hash_obj : HashObj → Value
  list_obj : List Bytes → Value
  zset_obj : ZSet → Value

abbrev pub type_of : Value → ArType
type_of (str v) = string
type_of (hash_obj h) = hash
type_of (list_obj l) = list
type_of (zset_obj z) = zset

abbrev pub sizeof_entry : ℕ
sizeof_entry = 80

fields_bytes : List HashField → ℕ
fields_bytes [] = 0
fields_bytes (f ∷ fs) = 40 + length f.field + length f.val + fields_bytes fs

buckets_bytes : List (List HashField) → ℕ
buckets_bytes [] = 0
buckets_bytes (b ∷ bs) = fields_bytes b + buckets_bytes bs

-- sizeof(ArHash) is 24, a bucket pointer 8, sizeof(ArHashField) 40.
unfoldable pub hash_obj_bytes : HashObj → ℕ
unfolding fields_bytes buckets_bytes
hash_obj_bytes h = 24 + length h.buckets * 8 + buckets_bytes h.buckets

nodes_bytes : List Bytes → ℕ
nodes_bytes [] = 0
nodes_bytes (v ∷ vs) = 32 + length v + nodes_bytes vs

-- sizeof(ArList) is 24, sizeof(ArListNode) 32.
unfoldable pub list_obj_bytes : List Bytes → ℕ
unfolding nodes_bytes
list_obj_bytes l = 24 + nodes_bytes l

members_bytes : List ZNode → ℕ
members_bytes [] = 0
members_bytes (z ∷ zs) = length z.member + members_bytes zs

-- sizeof(ArZSet) is 24, sizeof(ArZNode) 24.
unfoldable pub zset_obj_bytes : ZSet → ℕ
unfolding members_bytes
zset_obj_bytes z = 24 + z.cap * 24 + members_bytes z.arr

unfoldable pub payload_bytes : Value → ℕ
payload_bytes (str v) = length v
payload_bytes (hash_obj h) = hash_obj_bytes h
payload_bytes (list_obj l) = list_obj_bytes l
payload_bytes (zset_obj z) = zset_obj_bytes z

pub record Entry : Type 0 where
  pub key : Bytes
  pub value : Value
  pub last_access : ℕ
  pub lfu_freq : ℕ
  pub pinned : Bool
  pub expire_at : ℕ

-- What an entry counts for in `used_memory`.
unfoldable pub entry_bytes : Entry → ℕ
entry_bytes e = length e.key + payload_bytes e.value + sizeof_entry
