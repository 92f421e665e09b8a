-- ===== src/Core/ZSets.antt =====
-- The sorted set commands of native/src/ar_types.c: an array of nodes in the order of `zcmp`. Scores
-- are the bit patterns of doubles, compared as IEEE 754 says.
pub mod Order
pub mod Arrays
pub mod Scores
pub mod Keeps
pub mod Removes
pub mod Bounds
pub mod Stores
pub mod Examples
use aura_redis.Prelude.{
  ℕ, zero, suc, ◌+◌, ◌-◌, ◌*◌, ◌%◌, ◌^◌, Bool, true, false, not, ◌&&◌, Option, none, some, List, [],
  ◌∷◌, length, ltb, leb, ◌==◌, if◌then◌else◌,
}
use aura_redis.Bytes.{Bytes, bytes_eq}
use aura_redis.Entry.{zset, ZNode, ZSet, Value, zset_obj, zset_obj_bytes, Entry}
use aura_redis.Core.{Core, Tier}
use aura_redis.Core.Typed.{
  Typed, absent, wrong_type, typed, zset_kind, settle, resize, ar_entry_get_typed,
  ar_entry_get_or_create, put_obj, store_object,
}
use aura_redis.Core.Watch.{ar_watch_touch}
use aura_redis.Core.Free.{ar_entry_free_ex}
use aura_redis.Core.Store.{store_at}
use aura_redis.Core.Evict.{ar_maybe_evict_pub}

-- All exponent bits are set, and some fraction bit.
abbrev pub is_nan : ℕ → Bool
is_nan s = ltb 9218868437227405312 (s % 2 ^ 63)

-- The order of the doubles that are no NaN: both zeros have one rank.
abbrev pub rank : ℕ → ℕ
rank s = if ltb s (2 ^ 63) then 2 ^ 63 + s else 2 ^ 64 - s

-- `<` on doubles; false where one is a NaN.
unfoldable pub score_lt : ℕ → ℕ → Bool
score_lt a b = not (is_nan a) && not (is_nan b) && ltb (rank a) (rank b)

-- `memcmp` on the shorter length, then the lengths: below 0.
unfoldable pub member_lt : Bytes → Bytes → Bool
member_lt [] [] = false
member_lt [] (y ∷ t) = true
member_lt (x ∷ s) [] = false
member_lt (x ∷ s) (y ∷ t) =
    let rest = member_lt s t in if ltb x y then true else if ltb y x then false else rest

-- `zcmp` below 0.
unfoldable pub zcmp_below : ZNode → ZNode → Bool
unfolding score_lt member_lt
zcmp_below a b =
    if score_lt a.score b.score
    then true
    else if score_lt b.score a.score
    then false
    else member_lt a.member b.member

unfoldable pub zfind_member : List ZNode → Bytes → Option ℕ
zfind_member [] m = none
zfind_member (x ∷ xs) m =
    let rest = zfind_member xs m in
    if bytes_eq x.member m then some 0 else elim rest [ none ↦ none | some i ↦ some (suc i) ]

-- The `memmove` over a node, and the one that makes room for a node.
unfoldable pub remove_at : ℕ → List ZNode → List ZNode
remove_at i [] = []
remove_at zero (x ∷ xs) = xs
remove_at (suc i) (x ∷ xs) = x ∷ remove_at i xs

unfoldable pub insert_at : ℕ → ZNode → List ZNode → List ZNode
insert_at zero n xs = n ∷ xs
insert_at (suc i) n [] = n ∷ []
insert_at (suc i) n (x ∷ xs) = x ∷ insert_at i n xs

unfoldable pub insert_pos : ZNode → List ZNode → ℕ
unfolding zcmp_below
insert_pos n [] = 0
insert_pos n (x ∷ xs) = let rest = insert_pos n xs in if zcmp_below x n then suc rest else 0

-- `while (nc < need) nc *= 2`; a capacity that is not 0 needs at most `need` rounds.
unfoldable pub double_until : ℕ → ℕ → ℕ → ℕ
double_until zero nc need = nc
double_until (suc fuel) nc need =
    let more = double_until fuel (nc * 2) need in if ltb nc need then more else nc

unfoldable pub zensure_cap : ℕ → ℕ → ℕ
unfolding double_until
zensure_cap cap need =
    if leb need cap then cap else double_until need (if cap == 0 then 8 else cap * 2) need

-- One score with its member; the flag tells a new member.
unfoldable pub insert_node : ZNode → ℕ → List ZNode → ZSet
unfolding zensure_cap insert_pos insert_at
insert_node n cap arr = record {
  arr = insert_at (insert_pos n arr) n arr;
  cap = zensure_cap cap (length arr + 1);
}

unfoldable pub zadd_one : ZNode → ZSet → ZSet × ℕ
unfolding insert_node zfind_member remove_at
zadd_one n z = elim (zfind_member z.arr n.member) [
  | none ↦ (insert_node n z.cap z.arr, 1)
  | some i ↦ (insert_node n z.cap (remove_at i z.arr), 0)
]

-- The result and how many members are new.
unfoldable pub zadd_all : List ZNode → ZSet → ZSet × ℕ
unfolding zadd_one
zadd_all [] z = (z, 0)
zadd_all (n ∷ ns) z =
    let (z1, k) = zadd_one n z in let (z2, added) = zadd_all ns z1 in (z2, k + added)

-- The members that are not in the set before the command, each as often as it is given.
unfoldable pub new_members : List ZNode → ZSet → ℕ
unfolding zfind_member
new_members [] z = 0
new_members (n ∷ ns) z =
    (elim (zfind_member z.arr n.member) [ none ↦ 1 | some i ↦ 0 ]) + new_members ns z

-- AR_ZSET_MAX_MEMBERS
abbrev pub max_members : ℕ
max_members = 4096

-- -1, -2, or the number of new members.
pub data ZAdded : Type 0 where
  failed oversize : ZAdded
  added : ℕ → ZAdded

abbrev pub exceeds : List ZNode → ZSet → Bool
exceeds ns z = ltb 0 (new_members ns z) && ltb max_members (length z.arr + new_members ns z)

unfoldable pub zadd_typed : (ℕ → ℕ) → ℕ → Bytes → List ZNode → Core × Typed ZSet → Core × ZAdded
unfolding zadd_all new_members
zadd_typed rand now key ns (c, absent) = (c, failed)
zadd_typed rand now key ns (c, wrong_type) = (c, failed)
zadd_typed rand now key ns (c, typed tier e z) =
    let (z1, n) = zadd_all ns z in
    (
      if exceeds ns z then c else store_object zset_kind rand now key tier e z z1 c,
      if exceeds ns z then oversize else added n,
    )

unfoldable pub ar_zset_zadd : (ℕ → ℕ) → ℕ → Bytes → List ZNode → Core → Core × ZAdded
unfolding zadd_typed
ar_zset_zadd rand now key ns c = elim ns [
  | [] ↦ (c, added 0)
  | n ∷ more ↦ zadd_typed rand now key (n ∷ more) (ar_entry_get_or_create zset_kind rand now key c)
]

unfoldable pub score_of : List ZNode → Bytes → Option ℕ
score_of [] m = none
score_of (x ∷ xs) m = let rest = score_of xs m in if bytes_eq x.member m then some x.score else rest

abbrev pub zscore_of : Bytes → Typed ZSet → Option ℕ
zscore_of m absent = none
zscore_of m wrong_type = none
zscore_of m (typed tier e z) = score_of z.arr m

-- The score before it is printed.
unfoldable pub ar_zset_zscore : ℕ → Bytes → Bytes → Core → Core × Option ℕ
unfolding score_of
ar_zset_zscore now key m c =
    let (c1, t) = ar_entry_get_typed zset_kind now key c in (c1, zscore_of m t)

-- The members that are there are removed one by one, and counted.
unfoldable pub zrem_one : Bytes → List ZNode → List ZNode × ℕ
unfolding zfind_member remove_at
zrem_one m arr = elim (zfind_member arr m) [ none ↦ (arr, 0) | some i ↦ (remove_at i arr, 1) ]

unfoldable pub zrem_all : List Bytes → List ZNode → List ZNode × ℕ
unfolding zrem_one
zrem_all [] arr = (arr, 0)
zrem_all (m ∷ ms) arr =
    let (arr1, k) = zrem_one m arr in let (arr2, removed) = zrem_all ms arr1 in (arr2, k + removed)

-- A set that is empty now is freed; `none` for another type.
unfoldable pub zrem_typed : Bytes → List Bytes → Core × Typed ZSet → Core × Option ℕ
unfolding zrem_all
zrem_typed key ms (c, absent) = (c, some 0)
zrem_typed key ms (c, wrong_type) = (c, none)
zrem_typed key ms (c, typed tier e z) =
    let (arr, removed) = zrem_all ms z.arr in
    let z1 : ZSet = record { arr = arr; cap = z.cap } in
    let c1 = settle zset (zset_obj_bytes z) (zset_obj_bytes z1) (put_obj zset_kind tier e z1 c) in
    let e1 = record e { value = zset_obj z1 } in
    (
      if length arr == 0
          then ar_entry_free_ex tier e1 c1
          else if ltb 0 removed
          then ar_watch_touch key c1
          else c1,
      some removed,
    )

unfoldable pub ar_zset_zrem : ℕ → Bytes → List Bytes → Core → Core × Option ℕ
unfolding zrem_typed
ar_zset_zrem now key ms c = zrem_typed key ms (ar_entry_get_typed zset_kind now key c)

-- 0 for a missing key, `none` for another type.
abbrev pub zcard_of : Typed ZSet → Option ℕ
zcard_of absent = some 0
zcard_of wrong_type = none
zcard_of (typed tier e z) = some (length z.arr)

unfoldable pub ar_zset_zcard : ℕ → Bytes → Core → Core × Option ℕ
ar_zset_zcard now key c = let (c1, t) = ar_entry_get_typed zset_kind now key c in (c1, zcard_of t)
