-- ===== src/Core/Hashes.antt =====
-- The hash commands of native/src/ar_types.c: a table of chained fields in one entry. A field is
-- named by its name, which is unique in its table.
pub mod Model
pub mod Tables
pub mod Keeps
pub mod Removes
pub mod Stores
pub mod Examples
use aura_redis.Prelude.{
  ℕ, zero, suc, ◌+◌, ◌-◌, ◌*◌, Bool, true, false, Option, none, some, List, [], ◌∷◌, length, ltb,
  leb, ◌==◌, if◌then◌else◌, get_or, set, replicate,
}
use aura_redis.Bytes.{Bytes, bytes_eq, bucket_index}
use aura_redis.Entry.{hash, HashField, HashObj, Value, hash_obj, hash_obj_bytes, Entry}
use aura_redis.Core.{Core, Tier}
use aura_redis.Core.Typed.{
  Typed, absent, wrong_type, typed, Wrote, gone, flagged, counted, hash_kind, settle, resize,
  ar_entry_get_typed, ar_entry_get_or_create, put_obj, store_object,
}
use aura_redis.Core.Watch.{ar_watch_touch}
use aura_redis.Core.Free.{ar_entry_free_ex}
use aura_redis.Core.Find.{ar_find_entry_ex}
use aura_redis.Core.Store.{store_at}
use aura_redis.Core.Evict.{ar_maybe_evict_pub}

abbrev pub FieldTable : Type 0
FieldTable = List (List HashField)

unfoldable pub find_field : Bytes → List HashField → Option HashField
find_field field [] = none
find_field field (f ∷ fs) = if bytes_eq f.field field then some f else find_field field fs

abbrev pub field_slot : Bytes → FieldTable → ℕ
field_slot field t = bucket_index field (length t)

unfoldable pub hash_find : Bytes → FieldTable → Option HashField
unfolding find_field
hash_find field t = find_field field (get_or t (field_slot field t) [])

-- `nf->next = h->buckets[fb]; h->buckets[fb] = nf;`
unfoldable pub link_field : HashField → FieldTable → FieldTable
link_field f t = set t (field_slot f.field t) (f ∷ get_or t (field_slot f.field t) [])

-- `hash_find` returned this field, and its value is replaced.
pub write_val : HashField → List HashField → List HashField
write_val new [] = []
write_val new (f ∷ fs) = if bytes_eq f.field new.field then new ∷ fs else f ∷ write_val new fs

unfoldable pub write_field : HashField → FieldTable → FieldTable
unfolding write_val
write_field f t = set t (field_slot f.field t) (write_val f (get_or t (field_slot f.field t) []))

pub unlink_chain : Bytes → List HashField → List HashField
unlink_chain field [] = []
unlink_chain field (f ∷ fs) = if bytes_eq f.field field then fs else f ∷ unlink_chain field fs

unfoldable pub unlink_field : Bytes → FieldTable → FieldTable
unfolding unlink_chain
unlink_field field t =
    set t (field_slot field t) (unlink_chain field (get_or t (field_slot field t) []))

pub relink_chain : List HashField → FieldTable → FieldTable
relink_chain [] nb = nb
relink_chain (f ∷ fs) nb = relink_chain fs (link_field f nb)

unfoldable pub relink_all : FieldTable → FieldTable → FieldTable
unfolding relink_chain
relink_all [] nb = nb
relink_all (b ∷ bs) nb = relink_all bs (relink_chain b nb)

unfoldable pub hash_maybe_rehash : HashObj → HashObj
unfolding relink_all
hash_maybe_rehash h =
    if leb h.nfields (length h.buckets)
    then h
    else record h { buckets = relink_all h.buckets (replicate (length h.buckets * 2) []) }

-- One field with its value; the count tells a new field.
unfoldable pub hset_one : HashField → HashObj → HashObj × ℕ
unfolding hash_find link_field write_field hash_maybe_rehash
hset_one f h = elim (hash_find f.field h.buckets) [
  | some old ↦ (record h { buckets = write_field f h.buckets }, 0)
  | none ↦
      (hash_maybe_rehash (record { buckets = link_field f h.buckets; nfields = suc h.nfields }), 1)
]

unfoldable pub hset_all : List HashField → HashObj → HashObj × ℕ
unfolding hset_one
hset_all [] h = (h, 0)
hset_all (f ∷ fs) h =
    let (h1, k) = hset_one f h in let (h2, added) = hset_all fs h1 in (h2, k + added)

unfoldable pub hset_typed :
    (ℕ → ℕ) → ℕ → Bytes → List HashField → Core × Typed HashObj → Core × Wrote
unfolding hset_all
hset_typed rand now key fs (c, absent) = (c, gone)
hset_typed rand now key fs (c, wrong_type) = (c, flagged)
hset_typed rand now key fs (c, typed tier e h) =
    let (h1, added) = hset_all fs h in
    (store_object hash_kind rand now key tier e h h1 c, counted added)

unfoldable pub ar_hash_hset : (ℕ → ℕ) → ℕ → Bytes → List HashField → Core → Core × Wrote
unfolding hset_typed
ar_hash_hset rand now key fs c = elim fs [
  | [] ↦ (c, counted 0)
  | f ∷ more ↦ hset_typed rand now key (f ∷ more) (ar_entry_get_or_create hash_kind rand now key c)
]

abbrev pub val_of : Option HashField → Option Bytes
val_of none = none
val_of (some f) = some f.val

-- The value under a field.
unfoldable pub value_of : FieldTable → Bytes → Option Bytes
unfolding hash_find
value_of t field = val_of (hash_find field t)

abbrev pub hget_of : Bytes → Typed HashObj → Option Bytes
hget_of field absent = none
hget_of field wrong_type = none
hget_of field (typed tier e h) = value_of h.buckets field

unfoldable pub ar_hash_hget : ℕ → Bytes → Bytes → Core → Core × Option Bytes
unfolding value_of
ar_hash_hget now key field c =
    let (c1, t) = ar_entry_get_typed hash_kind now key c in (c1, hget_of field t)

-- A field that is there is unlinked and counted.
unfoldable pub hdel_one : Bytes → HashObj → HashObj × ℕ
unfolding hash_find unlink_field
hdel_one field h = elim (hash_find field h.buckets) [
  | none ↦ (h, 0)
  | some f ↦ (record { buckets = unlink_field field h.buckets; nfields = h.nfields - 1 }, 1)
]

unfoldable pub hdel_all : List Bytes → HashObj → HashObj × ℕ
unfolding hdel_one
hdel_all [] h = (h, 0)
hdel_all (field ∷ fields) h =
    let (h1, k) = hdel_one field h in let (h2, removed) = hdel_all fields h1 in (h2, k + removed)

abbrev pub free_found : Core × Option (Tier × Entry) → Core
free_found (c, none) = c
free_found (c, some (tier, e)) = ar_entry_free_ex tier e c

-- A hash that is empty now is searched again and freed. `none` is the `wrongtype` flag, with which C
-- returns 0.
unfoldable pub hdel_typed : ℕ → Bytes → List Bytes → Core × Typed HashObj → Core × Option ℕ
unfolding hdel_all
hdel_typed now key fields (c, absent) = (c, some 0)
hdel_typed now key fields (c, wrong_type) = (c, none)
hdel_typed now key fields (c, typed tier e h) =
    let (h1, removed) = hdel_all fields h in
    let c1 = settle hash (hash_obj_bytes h) (hash_obj_bytes h1) (put_obj hash_kind tier e h1 c) in
    (
      if h1.nfields == 0
          then free_found (ar_find_entry_ex now key c1)
          else if ltb 0 removed
          then ar_watch_touch key c1
          else c1,
      some removed,
    )

unfoldable pub ar_hash_hdel : ℕ → Bytes → List Bytes → Core → Core × Option ℕ
unfolding hdel_typed
ar_hash_hdel now key fields c = hdel_typed now key fields (ar_entry_get_typed hash_kind now key c)

abbrev pub has_field : Option HashField → Bool
has_field none = false
has_field (some f) = true

-- False and 0 for a missing key, `none` for another type.
abbrev pub hexists_of : Bytes → Typed HashObj → Option Bool
hexists_of field absent = some false
hexists_of field wrong_type = none
hexists_of field (typed tier e h) = some (has_field (hash_find field h.buckets))

unfoldable pub ar_hash_hexists : ℕ → Bytes → Bytes → Core → Core × Option Bool
ar_hash_hexists now key field c =
    let (c1, t) = ar_entry_get_typed hash_kind now key c in (c1, hexists_of field t)

abbrev pub hlen_of : Typed HashObj → Option ℕ
hlen_of absent = some 0
hlen_of wrong_type = none
hlen_of (typed tier e h) = some h.nfields

unfoldable pub ar_hash_hlen : ℕ → Bytes → Core → Core × Option ℕ
ar_hash_hlen now key c = let (c1, t) = ar_entry_get_typed hash_kind now key c in (c1, hlen_of t)
