-- ===== src/Core/Hashes/Removes.antt =====
-- HDEL as a removal from a map from fields to values.
use aura_redis.Prelude.{
  ℕ, suc, ◌+◌, ◌-◌, ◌≡◌, refl, sym, ap, subst, ◌∙◌, Bool, true, false, ◌||◌, Bool-cases, inl, inr,
  Option, none, some, List, [], ◌∷◌, arith, if◌then◌else◌,
}
use aura_redis.Bytes.{Bytes, bytes_eq, eq_of_bytes_eq}
use aura_redis.Entry.{HashField, HashObj, Entry}
use aura_redis.Table.{Table, find_in_table, unlink_entry}
use aura_redis.Table.Search.{find-unlink_ne, find-unlink_self}
use aura_redis.Core.Hashes.{
  FieldTable, hash_find, unlink_field, hdel_one, hdel_all, val_of, value_of,
}
use aura_redis.Core.Hashes.Model.{entry_of, table_of, entry_found, find-table_of, table_of-unlink}
use aura_redis.Core.Hashes.Tables.{IsMap, unlink-IsMap, found-pos}
use aura_redis.Core.Hashes.Keeps.{IsHash, entry_val, value_of-table}

unfoldable pub listed : List Bytes → Bytes → Bool
listed [] k = false
listed (f ∷ fs) k = bytes_eq f k || listed fs k

-- What HDEL does with `fields`.
pub record Removes (fields : List Bytes) (h h' : HashObj) (removed : ℕ) : Type 0 where
  pub valid : IsHash h'
  pub values :
      (k : Bytes) → value_of h'.buckets k ≡ (if listed fields k then none else value_of h.buckets k)
  pub size : h'.nfields + removed ≡ h.nfields

find-unlink :
    (field k : Bytes) (t : Table) (n : ℕ)
    → IsMap t n
    → find_in_table k (unlink_entry field t)
      ≡ (if bytes_eq field k then none else find_in_table k t)
find-unlink field k t n v = elim (Bool-cases (bytes_eq field k)) [
  | inl same ↦
      rw (same, ← eq_of_bytes_eq field k same) (find-unlink_self field t v.chains (v.once field))
  | inr other ↦ rw other (find-unlink_ne field k t v.chains other)
]

entry_val-if :
    (b : Bool) (o : Option Entry)
    → entry_val (if b then none else o) ≡ (if b then none else entry_val o)
entry_val-if true o = refl
entry_val-if false o = refl

value_of-unlink :
    (field : Bytes) (h : HashObj)
    → IsHash h
    → (k : Bytes)
    → value_of (unlink_field field h.buckets) k
      ≡ (if bytes_eq field k then none else value_of h.buckets k)
value_of-unlink field h v k =
    value_of-table (unlink_field field h.buckets) k
    ∙ ap (λ t. entry_val (find_in_table k t)) (table_of-unlink field h.buckets)
    ∙ ap entry_val (find-unlink field k (table_of h.buckets) h.nfields v)
    ∙ entry_val-if (bytes_eq field k) (find_in_table k (table_of h.buckets))
    ∙ ap (λ o. if bytes_eq field k then none else o) (sym (value_of-table h.buckets k))

value_of-none :
    (t : FieldTable) (field : Bytes) → hash_find field t ≡ none → value_of t field ≡ none
unfolding value_of
value_of-none t field e = ap val_of e

module _ (field : Bytes) (h : HashObj) (v : IsHash h) where
  abbrev RemovesOne : HashObj × ℕ → Type 0
  RemovesOne (h', k) = Removes (field ∷ []) h h' k

  remove_unknown : hash_find field h.buckets ≡ none → RemovesOne (h, 0)
  unfolding listed
  remove_unknown e = record {
    valid = v;
    values = λ k. elim (Bool-cases (bytes_eq field k)) [
      | inl same ↦ rw (same, ← eq_of_bytes_eq field k same) (value_of-none h.buckets field e)
      | inr other ↦ rw other refl
    ];
    size = omega arith;
  }

  remove_known :
      (f : HashField)
      → hash_find field h.buckets ≡ some f
      → RemovesOne (record { buckets = unlink_field field h.buckets; nfields = h.nfields - 1 }, 1)
  unfolding listed
  remove_known f e =
      let there = find-table_of field h.buckets ∙ ap entry_found e in
      let pos = found-pos field (entry_of f) (table_of h.buckets) h.nfields there v in
      let counted : h.nfields ≡ suc (h.nfields - 1) = omega arith in
      record {
        valid =
            subst (λ t. IsMap t (h.nfields - 1)) (sym (table_of-unlink field h.buckets))
              (unlink-IsMap field (entry_of f) (table_of h.buckets) (h.nfields - 1) there
                (subst (IsMap (table_of h.buckets)) counted v));
        values = λ k. ground (arith, value_of-unlink field h v k);
        size = omega arith;
      }

  hdel_one-Removes : RemovesOne (hdel_one field h)
  unfolding hdel_one
  hdel_one-Removes = by_search (hash_find field h.buckets) refl
    where
      by_search :
          (o : Option HashField)
          → hash_find field h.buckets ≡ o
          → RemovesOne (elim o [
            | none ↦ (h, 0)
            | some f ↦
                (record { buckets = unlink_field field h.buckets; nfields = h.nfields - 1 }, 1)
          ])
      by_search none e = remove_unknown e
      by_search (some f) e = remove_known f e

-- HDEL keeps every field in its chain, once and counted; the fields given have no value any more
-- and the others keep theirs; and the number of fields has shrunk by the number that is replied.
pub hdel_all-Removes :
    (fields : List Bytes) (h : HashObj)
    → IsHash h
    → Removes fields h (hdel_all fields h).0 (hdel_all fields h).1
unfolding hdel_all listed
hdel_all-Removes [] h v = record { valid = v; values = λ k. refl; size = omega arith }
hdel_all-Removes (f ∷ fs) h v =
    let one = hdel_one-Removes f h v in
    let more = hdel_all-Removes fs (hdel_one f h).0 one.valid in
    record {
      valid = more.valid;
      values = λ k. ground (arith, more.values k, one.values k);
      size = omega (arith, one.size, more.size);
    }
