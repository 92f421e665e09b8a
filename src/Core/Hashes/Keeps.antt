-- ===== src/Core/Hashes/Keeps.antt =====
-- HSET as an update of a map from fields to values.
use aura_redis.Prelude.{
  ℕ, suc, ◌+◌, ◌*◌, ◌≡◌, refl, sym, ap, subst, ◌∙◌, Bool, true, false, Option, none, some, List, [],
  ◌∷◌, length, replicate, leb, arith, if◌then◌else◌, if_elim,
}
use aura_redis.Bytes.{Bytes, bytes_eq, bytes_eq_refl}
use aura_redis.Entry.{HashField, HashObj, Value, str, Entry}
use aura_redis.Table.{find_in_table}
use aura_redis.Table.Search.{find-link_entry, find-store_entry}
use aura_redis.Table.Rehash.{find-rehash_table}
use aura_redis.Core.Hashes.{
  FieldTable, hash_find, link_field, write_field, relink_all, hash_maybe_rehash, hset_one, hset_all,
  val_of, value_of,
}
use aura_redis.Core.Hashes.Model.{
  entry_of, table_of, entry_found, find-table_of, table_of-link, table_of-write_field,
  table_of-rehash,
}
use aura_redis.Core.Hashes.Tables.{IsMap, link-IsMap, rehash-IsMap, store-IsMap}

-- The fields stand in their chains, each once, and are counted.
abbrev pub IsHash : HashObj → Type 0
IsHash h = IsMap (table_of h.buckets) h.nfields

abbrev pub text_of : Value → Option Bytes
text_of (str v) = some v
text_of _ = none

abbrev pub entry_val : Option Entry → Option Bytes
entry_val none = none
entry_val (some e) = text_of e.value

entry_val-found : (o : Option HashField) → entry_val (entry_found o) ≡ val_of o
entry_val-found none = refl
entry_val-found (some f) = refl

pub value_of-table :
    (t : FieldTable) (k : Bytes) → value_of t k ≡ entry_val (find_in_table k (table_of t))
unfolding value_of
value_of-table t k = sym (entry_val-found (hash_find k t)) ∙ ap entry_val (sym (find-table_of k t))

-- The map with the fields written into it, one after the other.
unfoldable pub written : List HashField → (Bytes → Option Bytes) → Bytes → Option Bytes
written [] f k = f k
written (x ∷ xs) f k = written xs (λ j. if bytes_eq x.field j then some x.val else f j) k

-- What HSET does with `fs`.
pub record Sets (fs : List HashField) (h h' : HashObj) (added : ℕ) : Type 0 where
  pub valid : IsHash h'
  pub values : (k : Bytes) → value_of h'.buckets k ≡ written fs (value_of h.buckets) k
  pub size : h'.nfields ≡ h.nfields + added

entry_val-if :
    (b : Bool) (f : HashField) (o : Option Entry)
    → entry_val (if b then some (entry_of f) else o) ≡ (if b then some f.val else entry_val o)
entry_val-if true f o = refl
entry_val-if false f o = refl

-- Two tables that show the same entry under a field show the same value.
shows :
    (f : HashField) (t : FieldTable) (t' : FieldTable) (k : Bytes)
    → find_in_table k (table_of t')
      ≡ (if bytes_eq f.field k then some (entry_of f) else find_in_table k (table_of t))
    → value_of t' k ≡ (if bytes_eq f.field k then some f.val else value_of t k)
shows f t t' k e =
    value_of-table t' k
    ∙ ap entry_val e
    ∙ entry_val-if (bytes_eq f.field k) f (find_in_table k (table_of t))
    ∙ ap (λ o. if bytes_eq f.field k then some f.val else o) (sym (value_of-table t k))

-- A rehash keeps a hash and its values.
rehash-keeps :
    (h : HashObj)
    → IsHash h
    → IsHash (hash_maybe_rehash h)
      × ((k : Bytes) → value_of (hash_maybe_rehash h).buckets k ≡ value_of h.buckets k)
      × ((hash_maybe_rehash h).nfields ≡ h.nfields)
unfolding hash_maybe_rehash
rehash-keeps h v =
    if_elim
      (λ x.
        IsHash x
        × ((k : Bytes) → value_of x.buckets k ≡ value_of h.buckets k)
        × (x.nfields ≡ h.nfields))
      (leb h.nfields (length h.buckets)) h
      (record h { buckets = relink_all h.buckets (replicate (length h.buckets * 2) []) })
      (λ e. (v, λ k. refl, refl))
      (λ e. (
        subst (λ t. IsMap t h.nfields) (sym (table_of-rehash h.buckets))
            (rehash-IsMap (table_of h.buckets) h.nfields v),
        λ k.
            value_of-table (relink_all h.buckets (replicate (length h.buckets * 2) [])) k
            ∙ ap (λ t. entry_val (find_in_table k t)) (table_of-rehash h.buckets)
            ∙ ap entry_val (find-rehash_table k (table_of h.buckets) v.chains v.placed (v.once k))
            ∙ sym (value_of-table h.buckets k),
        refl,
      ))

module _ (f : HashField) (h : HashObj) (v : IsHash h) where
  abbrev SetsOne : HashObj × ℕ → Type 0
  SetsOne (h', k) = Sets (f ∷ []) h h' k

  write_new :
      hash_find f.field h.buckets ≡ none
      → SetsOne (
        hash_maybe_rehash (record { buckets = link_field f h.buckets; nfields = suc h.nfields }),
        1,
      )
  write_new e =
      let linked : HashObj = record { buckets = link_field f h.buckets; nfields = suc h.nfields } in
      let gone = find-table_of f.field h.buckets ∙ ap entry_found e in
      let l : IsHash linked =
        subst (λ t. IsMap t (suc h.nfields)) (sym (table_of-link f h.buckets))
          (link-IsMap (entry_of f) (table_of h.buckets) h.nfields gone v) in
      let (valid, same, count) = rehash-keeps linked l in
      record {
        valid = valid;
        values = λ k.
            unfold written in
            (same k
              ∙ shows f h.buckets (link_field f h.buckets) k (
                  ap (find_in_table k) (table_of-link f h.buckets)
                  ∙ find-link_entry (entry_of f) (table_of h.buckets) k v.chains));
        size = omega (arith, count);
      }

  write_known :
      (old : HashField)
      → hash_find f.field h.buckets ≡ some old
      → SetsOne (record h { buckets = write_field f h.buckets }, 0)
  write_known old e =
      let there = find-table_of f.field h.buckets ∙ ap entry_found e in
      record {
        valid =
            subst (λ t. IsMap t h.nfields) (sym (table_of-write_field f h.buckets))
              (store-IsMap (entry_of f) (entry_of old) (table_of h.buckets) h.nfields there v);
        values = λ k.
            unfold written in
            shows f h.buckets (write_field f h.buckets) k (
              ap (find_in_table k) (table_of-write_field f h.buckets)
              ∙ find-store_entry f.field k (entry_of f) (table_of h.buckets) (entry_of old)
                  (bytes_eq_refl f.field) there);
        size = omega arith;
      }

  hset_one-Sets : SetsOne (hset_one f h)
  unfolding hset_one
  hset_one-Sets = by_search (hash_find f.field h.buckets) refl
    where
      by_search :
          (o : Option HashField)
          → hash_find f.field h.buckets ≡ o
          → SetsOne (elim o [
            | some old ↦ (record h { buckets = write_field f h.buckets }, 0)
            | none ↦ (
              hash_maybe_rehash
                  (record { buckets = link_field f h.buckets; nfields = suc h.nfields }),
              1,
            )
          ])
      by_search none e = write_new e
      by_search (some old) e = write_known old e

written-ext :
    (fs : List HashField) (f g : Bytes → Option Bytes) (k : Bytes)
    → ((j : Bytes) → f j ≡ g j)
    → written fs f k ≡ written fs g k
unfolding written
written-ext [] f g k e = e k
written-ext (x ∷ xs) f g k e = written-ext xs _ _ k (λ j. rw (e j) refl)

-- HSET keeps every field in its chain, once and counted, through rehashes; the values are those
-- before, overwritten by the given ones in their order; and the number of fields has grown by the
-- number that is replied.
pub hset_all-Sets :
    (fs : List HashField) (h : HashObj) → IsHash h → Sets fs h (hset_all fs h).0 (hset_all fs h).1
unfolding hset_all written
hset_all-Sets [] h v = record { valid = v; values = λ k. refl; size = omega arith }
hset_all-Sets (f ∷ fs) h v =
    let one = hset_one-Sets f h v in
    let more = hset_all-Sets fs (hset_one f h).0 one.valid in
    record {
      valid = more.valid;
      values = λ k. more.values k ∙ written-ext fs _ _ k (λ j. one.values j);
      size = omega (arith, one.size, more.size);
    }
