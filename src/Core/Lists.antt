-- ===== src/Core/Lists.antt =====
-- The list commands of native/src/ar_types.c, over entries found or created with their type. A list
-- of nodes is the list of its values, head first.
pub mod Writes
pub mod Counts
pub mod Ends
pub mod Pops
pub mod Stores
pub mod Examples
use aura_redis.Prelude.{
  ℕ, zero, suc, ◌+◌, ◌-◌, Bool, true, false, not, ◌&&◌, Option, none, some, List, [], ◌∷◌, ◌++◌,
  length, ltb, leb, ◌==◌, if◌then◌else◌, ℤ, pos, negsuc, magnitude,
}
use aura_redis.Bytes.{Bytes, bytes_eq}
use aura_redis.Entry.{
  list, Value, str, hash_obj, list_obj, zset_obj, list_obj_bytes, Entry, sizeof_entry,
}
use aura_redis.Table.{link_entry}
use aura_redis.Core.{Core, Tier, if_tiered}
use aura_redis.Core.Counters.{
  ar_mem_add, ar_mem_sub, type_bytes_add, type_bytes_sub, ar_type_stats_add_key,
  ar_type_stats_note_bigkey,
}
use aura_redis.Core.Watch.{ar_watch_touch}
use aura_redis.Core.Free.{ar_entry_free_ex}
use aura_redis.Core.Find.{ar_find_entry_ex}
use aura_redis.Core.Store.{store_at}
use aura_redis.Core.Tiers.{ar_rehash_if_needed}
use aura_redis.Core.Evict.{ar_maybe_evict_pub}
use aura_redis.Core.Typed.{
  Typed, absent, wrong_type, typed, list_kind, settle, ar_entry_get_typed, put_obj,
}

-- The first value, or the last, and the others.
pub pop_head : List Bytes → Option (Bytes × List Bytes)
pop_head [] = none
pop_head (x ∷ xs) = some (x, xs)

pub pop_tail : List Bytes → Option (Bytes × List Bytes)
pop_tail [] = none
pop_tail (x ∷ xs) = elim (pop_tail xs) [ none ↦ some (x, []) | some (y, ys) ↦ some (y, x ∷ ys) ]

abbrev pub is_empty : List Bytes → Bool
is_empty [] = true
is_empty (x ∷ xs) = false

unfoldable pub popped :
    Bytes → Tier → Entry → List Bytes → Option (Bytes × List Bytes) → Core → Core × Option Bytes
unfolding settle
popped key tier e l none c = (c, none)
popped key tier e l (some (out, rest)) c =
    let c1 =
      settle list (list_obj_bytes l) (list_obj_bytes rest) (put_obj list_kind tier e rest c) in
    (
      if is_empty rest
          then ar_entry_free_ex tier (record e { value = list_obj rest }) c1
          else ar_watch_touch key c1,
      some out,
    )

unfoldable pub pop_typed : Bytes → Bool → Core × Typed (List Bytes) → Core × Option Bytes
unfolding popped pop_head pop_tail
pop_typed key left (c, absent) = (c, none)
pop_typed key left (c, wrong_type) = (c, none)
pop_typed key left (c, typed tier e l) =
    popped key tier e l (if left then pop_head l else pop_tail l) c

unfoldable pub ar_list_pop : ℕ → Bytes → Bool → Core → Core × Option Bytes
unfolding pop_typed
ar_list_pop now key left c = pop_typed key left (ar_entry_get_typed list_kind now key c)

-- 0 for a missing key; `none` for another type.
abbrev pub llen_of : Typed (List Bytes) → Option ℕ
llen_of absent = some 0
llen_of wrong_type = none
llen_of (typed tier e l) = some (length l)

unfoldable pub ar_list_llen : ℕ → Bytes → Core → Core × Option ℕ
ar_list_llen now key c = let (c1, t) = ar_entry_get_typed list_kind now key c in (c1, llen_of t)

-- The `i`-th value.
pub nth : ℕ → List Bytes → Option Bytes
nth i [] = none
nth zero (x ∷ xs) = some x
nth (suc i) (x ∷ xs) = nth i xs

-- A negative index counts from the end.
unfoldable pub index_list : ℤ → List Bytes → Option Bytes
unfolding nth
index_list (pos i) l = nth i l
index_list (negsuc i) l = if ltb i (length l) then nth (length l - (i + 1)) l else none

abbrev pub lindex_of : ℤ → Typed (List Bytes) → Option Bytes
lindex_of index absent = none
lindex_of index wrong_type = none
lindex_of index (typed tier e l) = index_list index l

unfoldable pub ar_list_lindex : ℕ → Bytes → ℤ → Core → Core × Option Bytes
unfolding index_list
ar_list_lindex now key index c =
    let (c1, t) = ar_entry_get_typed list_kind now key c in (c1, lindex_of index t)

-- The walk from one end: with `all`, every value that equals `elem` goes, otherwise the first
-- `suc n`; the second component counts them.
pub remove_values : Bool → ℕ → Bytes → List Bytes → List Bytes × ℕ
remove_values all n elem [] = ([], 0)
remove_values all n elem (x ∷ xs) = elim (bytes_eq x elem) [
  | false ↦ let (ys, k) = remove_values all n elem xs in (x ∷ ys, k)
  | true ↦ elim all [
    | true ↦ let (ys, k) = remove_values true n elem xs in (ys, suc k)
    | false ↦ elim n [
      | zero ↦ (xs, 1)
      | suc m ↦ let (ys, k) = remove_values false m elem xs in (ys, suc k)
    ]
  ]
]

pub reversed : List Bytes → List Bytes → List Bytes
reversed [] acc = acc
reversed (x ∷ xs) acc = reversed xs (x ∷ acc)

-- By the sign of `count`: all, from the head, or from the tail. `-count` overflows for INT64_MIN alone,
-- which C leaves undefined; here the magnitude is taken.
unfoldable pub lrem_values : ℤ → Bytes → List Bytes → List Bytes × ℕ
unfolding remove_values reversed
lrem_values (pos zero) elem l = remove_values true 0 elem l
lrem_values (pos (suc n)) elem l = remove_values false n elem l
lrem_values (negsuc n) elem l =
    let (ys, k) = remove_values false n elem (reversed l []) in (reversed ys [], k)

-- An emptied list is freed at its new size; the bytes of its values stay in the sums.
unfoldable pub lrem_typed : Bytes → ℤ → Bytes → Core × Typed (List Bytes) → Core × Option ℕ
unfolding lrem_values settle
lrem_typed key count elem (c, absent) = (c, some 0)
lrem_typed key count elem (c, wrong_type) = (c, none)
lrem_typed key count elem (c, typed tier e l) =
    let (rest, removed) = lrem_values count elem l in
    let e1 = record e { value = list_obj rest } in
    let c1 = put_obj list_kind tier e rest c in
    let c2 =
      settle list (list_obj_bytes l) (list_obj_bytes rest) (record c { clock = c.clock + 1 }) in
    (
      ar_watch_touch key (
          if is_empty rest
          then ar_entry_free_ex tier e1 c1
          else store_at tier (record e1 { last_access = c.clock + 1 }) c2),
      some removed,
    )

unfoldable pub ar_list_lrem : ℕ → Bytes → ℤ → Bytes → Core → Core × Option ℕ
unfolding lrem_typed
ar_list_lrem now key count elem c =
    lrem_typed key count elem (ar_entry_get_typed list_kind now key c)

-- `start` after the clamps, and one more than `stop`.
abbrev pub trim_start : ℕ → ℤ → ℕ
trim_start len (pos n) = n
trim_start len (negsuc n) = len - (n + 1)

abbrev pub trim_end : ℕ → ℤ → ℕ
trim_end len (pos n) = if leb len n then len else n + 1
trim_end len (negsuc n) = len - n

pub drop_values : ℕ → List Bytes → List Bytes
drop_values n [] = []
drop_values zero (x ∷ xs) = x ∷ xs
drop_values (suc n) (x ∷ xs) = drop_values n xs

pub take_values : ℕ → List Bytes → List Bytes
take_values n [] = []
take_values zero (x ∷ xs) = []
take_values (suc n) (x ∷ xs) = x ∷ take_values n xs
