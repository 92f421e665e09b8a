-- ===== src/Core/Hashes/Model.antt =====
-- The fields of a hash seen as entries: its table helpers do what those of the keyspace do.
use aura_redis.Prelude.{
  ℕ, zero, suc, ◌*◌, ◌≡◌, refl, sym, ap, ◌∙◌, Bool, true, false, Option, none, some, List, [], ◌∷◌,
  length, get_or, set, replicate, arith, if◌then◌else◌,
}
use aura_redis.Bytes.{Bytes, bytes_eq}
use aura_redis.Entry.{HashField, str, Entry}
use aura_redis.Table.{
  Table, find_in_bucket, find_in_table, unlink_bucket, store_bucket, slot, unlink_entry,
  store_entry, link_entry, link_chain, link_all, rehash_table,
}
use aura_redis.Core.Hashes.{
  FieldTable, find_field, field_slot, hash_find, link_field, write_val, write_field, unlink_chain,
  unlink_field, relink_chain, relink_all,
}

abbrev pub entry_of : HashField → Entry
entry_of f = record {
  key = f.field;
  value = str f.val;
  last_access = 0;
  lfu_freq = 0;
  pinned = false;
  expire_at = 0;
}

pub chain_of : List HashField → List Entry
chain_of [] = []
chain_of (f ∷ fs) = entry_of f ∷ chain_of fs

unfoldable pub table_of : FieldTable → Table
unfolding chain_of
table_of [] = []
table_of (b ∷ bs) = chain_of b ∷ table_of bs

pub length-table_of : (t : FieldTable) → length (table_of t) ≡ length t
unfolding table_of
length-table_of [] = refl
length-table_of (b ∷ bs) = ap suc (length-table_of bs)

get_or-table_of : (t : FieldTable) (i : ℕ) → get_or (table_of t) i [] ≡ chain_of (get_or t i [])
unfolding table_of chain_of
get_or-table_of [] i = refl
get_or-table_of (b ∷ bs) zero = refl
get_or-table_of (b ∷ bs) (suc i) = get_or-table_of bs i

table_of-set :
    (t : FieldTable) (i : ℕ) (b : List HashField)
    → table_of (set t i b) ≡ set (table_of t) i (chain_of b)
unfolding table_of
table_of-set [] i b = refl
table_of-set (c ∷ t) zero b = refl
table_of-set (c ∷ t) (suc i) b = ap (λ x. chain_of c ∷ x) (table_of-set t i b)

-- The chain of a field, as entries.
slot-table_of :
    (k : Bytes) (t : FieldTable)
    → get_or (table_of t) (slot k (table_of t)) [] ≡ chain_of (get_or t (field_slot k t) [])
slot-table_of k t = rw (length-table_of t) (get_or-table_of t (field_slot k t))

-- A write to the chain of `k`.
table_of-write :
    (k : Bytes) (t : FieldTable) (b : List HashField) (es : List Entry)
    → chain_of b ≡ es
    → table_of (set t (field_slot k t) b) ≡ set (table_of t) (slot k (table_of t)) es
table_of-write k t b es e = rw (length-table_of t, ← e) (table_of-set t (field_slot k t) b)

pub table_of-link :
    (f : HashField) (t : FieldTable)
    → table_of (link_field f t) ≡ link_entry (entry_of f) (table_of t)
unfolding link_field link_entry
table_of-link f t =
    table_of-write f.field t (f ∷ get_or t (field_slot f.field t) []) _
      (unfold chain_of in ap (λ x. entry_of f ∷ x) (sym (slot-table_of f.field t)))

chain_of-write_val :
    (f : HashField) (fs : List HashField)
    → chain_of (write_val f fs) ≡ store_bucket f.field (entry_of f) (chain_of fs)
unfolding chain_of write_val store_bucket
chain_of-write_val f [] = refl
chain_of-write_val f (x ∷ fs) = ground (arith, chain_of-write_val f fs)

pub table_of-write_field :
    (f : HashField) (t : FieldTable)
    → table_of (write_field f t) ≡ store_entry f.field (entry_of f) (table_of t)
unfolding write_field store_entry
table_of-write_field f t =
    table_of-write f.field t (write_val f (get_or t (field_slot f.field t) [])) _ (
      chain_of-write_val f _
      ∙ ap (λ x. store_bucket f.field (entry_of f) x) (sym (slot-table_of f.field t)))

chain_of-unlink :
    (k : Bytes) (fs : List HashField) → chain_of (unlink_chain k fs) ≡ unlink_bucket k (chain_of fs)
unfolding chain_of unlink_chain unlink_bucket
chain_of-unlink k [] = refl
chain_of-unlink k (x ∷ fs) = ground (arith, chain_of-unlink k fs)

pub table_of-unlink :
    (k : Bytes) (t : FieldTable) → table_of (unlink_field k t) ≡ unlink_entry k (table_of t)
unfolding unlink_field unlink_entry
table_of-unlink k t =
    table_of-write k t (unlink_chain k (get_or t (field_slot k t) [])) _
      (chain_of-unlink k _ ∙ ap (λ x. unlink_bucket k x) (sym (slot-table_of k t)))

table_of-relink_chain :
    (fs : List HashField) (nb : FieldTable)
    → table_of (relink_chain fs nb) ≡ link_chain (chain_of fs) (table_of nb)
unfolding relink_chain link_chain chain_of
table_of-relink_chain [] nb = refl
table_of-relink_chain (f ∷ fs) nb =
    table_of-relink_chain fs (link_field f nb) ∙ ap (link_chain (chain_of fs)) (table_of-link f nb)

table_of-relink_all :
    (t nb : FieldTable) → table_of (relink_all t nb) ≡ link_all (table_of t) (table_of nb)
unfolding relink_all link_all table_of
table_of-relink_all [] nb = refl
table_of-relink_all (b ∷ t) nb =
    table_of-relink_all t (relink_chain b nb)
    ∙ ap (link_all (table_of t)) (table_of-relink_chain b nb)

pub table_of-empty : (n : ℕ) → table_of (replicate n []) ≡ replicate n []
unfolding table_of chain_of
table_of-empty zero = refl
table_of-empty (suc n) = ap (λ x. [] ∷ x) (table_of-empty n)

pub table_of-rehash :
    (t : FieldTable)
    → table_of (relink_all t (replicate (length t * 2) [])) ≡ rehash_table (table_of t)
unfolding rehash_table
table_of-rehash t =
    rw (length-table_of t)
      (table_of-relink_all t _ ∙ ap (link_all (table_of t)) (table_of-empty (length t * 2)))

abbrev pub entry_found : Option HashField → Option Entry
entry_found none = none
entry_found (some f) = some (entry_of f)

entry_found-if :
    (b : Bool) (f : HashField) (o : Option HashField)
    → (if b then some (entry_of f) else entry_found o) ≡ entry_found (if b then some f else o)
entry_found-if true f o = refl
entry_found-if false f o = refl

find-chain_of :
    (k : Bytes) (fs : List HashField)
    → find_in_bucket k (chain_of fs) ≡ entry_found (find_field k fs)
unfolding find_in_bucket find_field chain_of
find-chain_of k [] = refl
find-chain_of k (f ∷ fs) =
    rw (find-chain_of k fs) (entry_found-if (bytes_eq f.field k) f (find_field k fs))

pub find-table_of :
    (k : Bytes) (t : FieldTable) → find_in_table k (table_of t) ≡ entry_found (hash_find k t)
unfolding find_in_table hash_find table_of
find-table_of k [] = unfold find_in_bucket find_field in refl
find-table_of k (b ∷ t) =
    ground
      (arith, slot-table_of k (b ∷ t), find-chain_of k (get_or (b ∷ t) (field_slot k (b ∷ t)) []))
