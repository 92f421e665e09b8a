-- ===== src/Core/Lists/Writes.antt =====
-- LTRIM and LPUSH/RPUSH of native/src/ar_types.c.
use aura_redis.Prelude.{
  ℕ, ◌+◌, ◌-◌, Bool, true, false, ◌||◌, List, [], ◌∷◌, ◌++◌, length, leb, ◌==◌, if◌then◌else◌, ℤ,
}
use aura_redis.Bytes.{Bytes}
use aura_redis.Entry.{list, list_obj, list_obj_bytes}
use aura_redis.Core.{Core}
use aura_redis.Core.Watch.{ar_watch_touch}
use aura_redis.Core.Free.{ar_entry_free_ex}
use aura_redis.Core.Store.{store_at}
use aura_redis.Core.Lists.{trim_start, trim_end, drop_values, take_values}
use aura_redis.Core.Typed.{
  Typed, absent, wrong_type, typed, Wrote, gone, flagged, counted, list_kind, settle, store_object,
  ar_entry_get_typed, ar_entry_get_or_create,
}

unfoldable pub trim_list : ℤ → ℤ → List Bytes → List Bytes
unfolding drop_values take_values
trim_list start stop l =
    let len = length l in
    take_values (trim_end len stop - trim_start len start) (drop_values (trim_start len start) l)

-- `start > stop || start >= len || len == 0`
abbrev pub trims_all : ℤ → ℤ → ℕ → Bool
trims_all start stop len =
    leb (trim_end len stop) (trim_start len start) || leb len (trim_start len start) || len == 0

-- True for OK; a key of another type is refused.
unfoldable pub ltrim_typed : Bytes → ℤ → ℤ → Core × Typed (List Bytes) → Core × Bool
unfolding trim_list
ltrim_typed key start stop (c, absent) = (c, true)
ltrim_typed key start stop (c, wrong_type) = (c, false)
ltrim_typed key start stop (c, typed tier e l) =
    let rest = trim_list start stop l in
    let c1 =
      settle list (list_obj_bytes l) (list_obj_bytes rest) (record c { clock = c.clock + 1 }) in
    let e1 = record e { value = list_obj rest; last_access = c.clock + 1 } in
    (
      ar_watch_touch key (
          if trims_all start stop (length l)
          then ar_entry_free_ex tier e c
          else store_at tier e1 c1),
      true,
    )

unfoldable pub ar_list_ltrim : ℕ → Bytes → ℤ → ℤ → Core → Core × Bool
unfolding ltrim_typed
ar_list_ltrim now key start stop c =
    ltrim_typed key start stop (ar_entry_get_typed list_kind now key c)

-- Each value in turn goes to the head, or to the tail.
unfoldable pub push_values : Bool → List Bytes → List Bytes → List Bytes
push_values left [] l = l
push_values true (v ∷ vs) l = push_values true vs (v ∷ l)
push_values false (v ∷ vs) l = push_values false vs (l ++ v ∷ [])

-- The reply is the new length.
unfoldable pub push_typed :
    (ℕ → ℕ) → ℕ → Bytes → Bool → List Bytes → Core × Typed (List Bytes) → Core × Wrote
unfolding push_values
push_typed rand now key left vals (c, absent) = (c, gone)
push_typed rand now key left vals (c, wrong_type) = (c, flagged)
push_typed rand now key left vals (c, typed tier e l) =
    let l1 = push_values left vals l in
    (store_object list_kind rand now key tier e l l1 c, counted (length l1))

unfoldable pub ar_list_push : (ℕ → ℕ) → ℕ → Bytes → Bool → List Bytes → Core → Core × Wrote
unfolding push_typed
ar_list_push rand now key left vals c = elim vals [
  | [] ↦ (c, counted 0)
  | v ∷ vs ↦ push_typed rand now key left (v ∷ vs) (ar_entry_get_or_create list_kind rand now key c)
]
