-- ===== src/Table.antt =====
-- A bucket array of chained entries: the table helpers of native/src/ar_core.c. The array is a list
-- of buckets, so its length is `nbuckets`, and the empty list stands for the NULL table. An entry is
-- named by its key: the pointers that the code holds come from a search in the same bucket.
pub mod Weight
pub mod Search
pub mod Placed
pub mod Rehash
pub mod Member
use aura_redis.Prelude.{
  ℕ, zero, suc, ◌+◌, ◌*◌, Option, none, some, List, [], ◌∷◌, length, get_or, set, replicate, ◌==◌,
  if◌then◌else◌,
}
use aura_redis.Bytes.{Bytes, bytes_eq, bucket_index}
use aura_redis.Entry.{Entry}

abbrev pub Table : Type 0
Table = List (List Entry)

unfoldable pub find_in_bucket : Bytes → List Entry → Option Entry
find_in_bucket key [] = none
find_in_bucket key (e ∷ es) = if bytes_eq e.key key then some e else find_in_bucket key es

unfoldable pub find_in_table : Bytes → Table → Option Entry
find_in_table key t =
    if length t == 0 then none else find_in_bucket key (get_or t (bucket_index key (length t)) [])

unfoldable pub unlink_bucket : Bytes → List Entry → List Entry
unlink_bucket key [] = []
unlink_bucket key (e ∷ es) = if bytes_eq e.key key then es else e ∷ unlink_bucket key es

unfoldable pub store_bucket : Bytes → Entry → List Entry → List Entry
store_bucket key e' [] = []
store_bucket key e' (e ∷ es) = if bytes_eq e.key key then e' ∷ es else e ∷ store_bucket key e' es

-- The index of the bucket of `key`.
abbrev pub slot : Bytes → Table → ℕ
slot key t = bucket_index key (length t)

-- `*pp = e->next`
unfoldable pub unlink_entry : Bytes → Table → Table
unfolding unlink_bucket
unlink_entry key t = set t (slot key t) (unlink_bucket key (get_or t (slot key t) []))

-- The entry that `find_in_table` returned is overwritten in its place.
unfoldable pub store_entry : Bytes → Entry → Table → Table
unfolding store_bucket
store_entry key e t = set t (slot key t) (store_bucket key e (get_or t (slot key t) []))

-- `e->next = table[b]; table[b] = e;`
unfoldable pub link_entry : Entry → Table → Table
link_entry e t = set t (slot e.key t) (e ∷ get_or t (slot e.key t) [])

-- The walk of one chain, then of the array, that links every entry into `nb`.
unfoldable pub link_chain : List Entry → Table → Table
link_chain [] nb = nb
link_chain (e ∷ es) nb = link_chain es (link_entry e nb)

unfoldable pub link_all : Table → Table → Table
unfolding link_chain
link_all [] nb = nb
link_all (b ∷ bs) nb = link_all bs (link_chain b nb)

unfoldable pub rehash_table : Table → Table
unfolding link_all
rehash_table t = link_all t (replicate (length t * 2) [])
