-- ===== src/Core/Hashes/Tables.antt =====
-- Tables with every key at most once, under the writes of a hash.
use aura_redis.Prelude.{
  ℕ, suc, ◌≤◌, ◌<◌, ◌≡◌, refl, sym, ap, ◌∙◌, true, Bool-cases, inl, inr, none, some, [], ◌∷◌,
  length, get_or, length-set, arith,
}
use aura_redis.Bytes.{Bytes, bytes_eq, bytes_eq_refl, eq_of_bytes_eq}
use aura_redis.Entry.{Entry}
use aura_redis.Table.{
  Table, find_in_table, slot, unlink_bucket, store_bucket, unlink_entry, store_entry, link_entry,
  rehash_table,
}
use aura_redis.Table.Weight.{
  weigh, length-link_entry, length-rehash_table, weigh-unlink_entry, weigh-store_entry,
  weigh-link_entry, weigh-rehash_table,
}
use aura_redis.Table.Search.{tally, tally-eq_zero, find-key}
use aura_redis.Table.Placed.{IsPlaced, link-IsPlaced, unlink-IsPlaced, store-IsPlaced}
use aura_redis.Table.Rehash.{rehash-IsPlaced}

-- Fields in their chains, each once, `n` of them.
pub record IsMap (t : Table) (n : ℕ) : Type 0 where
  pub chains : 0 < length t
  pub placed : IsPlaced t
  pub once : (k : Bytes) → weigh (tally k) t ≤ 1
  pub count : n ≡ weigh (λ e. 1) t

unfound :
    (k : Bytes) (t : Table)
    → IsPlaced t
    → 0 < length t
    → find_in_table k t ≡ none
    → weigh (tally k) t ≡ 0
unfolding find_in_table
unfound k [] p h f = absurd (omega arith)
unfound k (b ∷ t) p h f =
    p.at k ∙ tally-eq_zero k (get_or (b ∷ t) (slot k (b ∷ t)) []) (ground (arith, f))

pub link-IsMap :
    (e : Entry) (t : Table) (n : ℕ)
    → find_in_table e.key t ≡ none
    → IsMap t n
    → IsMap (link_entry e t) (suc n)
link-IsMap e t n f v = record {
  chains = omega (arith, length-link_entry e t, v.chains);
  placed = link-IsPlaced e t v.chains v.placed;
  once = λ k. elim (Bool-cases (bytes_eq e.key k)) [
    | inl same ↦
        let z = unfound e.key t v.placed v.chains f in
        let at_k : weigh (tally k) t ≡ 0 =
          ap (λ j. weigh (tally j) t) (sym (eq_of_bytes_eq e.key k same)) ∙ z in
        ground (arith, weigh-link_entry (tally k) e t v.chains, at_k, same)
    | inr other ↦ ground (arith, weigh-link_entry (tally k) e t v.chains, v.once k, other)
  ];
  count = omega (arith, weigh-link_entry (λ x. 1) e t v.chains, v.count);
}

pub rehash-IsMap : (t : Table) (n : ℕ) → IsMap t n → IsMap (rehash_table t) n
rehash-IsMap t n v = record {
  chains = omega (arith, length-rehash_table t, v.chains);
  placed = rehash-IsPlaced t v.chains;
  once = λ k. omega (arith, weigh-rehash_table (tally k) t v.chains, v.once k);
  count = omega (arith, weigh-rehash_table (λ x. 1) t v.chains, v.count);
}

length-store_entry : (k : Bytes) (e : Entry) (t : Table) → length (store_entry k e t) ≡ length t
unfolding store_entry
length-store_entry k e t = length-set t (slot k t) (store_bucket k e (get_or t (slot k t) []))

length-unlink_entry : (k : Bytes) (t : Table) → length (unlink_entry k t) ≡ length t
unfolding unlink_entry
length-unlink_entry k t = length-set t (slot k t) (unlink_bucket k (get_or t (slot k t) []))

pub store-IsMap :
    (e' e : Entry) (t : Table) (n : ℕ)
    → find_in_table e'.key t ≡ some e
    → IsMap t n
    → IsMap (store_entry e'.key e' t) n
store-IsMap e' e t n f v =
    let same : e.key ≡ e'.key = find-key e'.key t e f in
    let eq : bytes_eq e.key e'.key ≡ true = rw same (bytes_eq_refl e'.key) in
    record {
      chains = omega (arith, length-store_entry e'.key e' t, v.chains);
      placed = store-IsPlaced e'.key e' t e f eq (bytes_eq_refl e'.key) v.placed;
      once = λ k.
          let as_old : tally k e ≡ tally k e' = rw same refl in
          omega (arith, weigh-store_entry (tally k) e'.key e' t e f, v.once k, as_old);
      count = omega (arith, weigh-store_entry (λ x. 1) e'.key e' t e f, v.count);
    }

pub unlink-IsMap :
    (k : Bytes) (e : Entry) (t : Table) (n : ℕ)
    → find_in_table k t ≡ some e
    → IsMap t (suc n)
    → IsMap (unlink_entry k t) n
unlink-IsMap k e t n f v =
    let eq : bytes_eq e.key k ≡ true = rw (find-key k t e f) (bytes_eq_refl k) in
    record {
      chains = omega (arith, length-unlink_entry k t, v.chains);
      placed = unlink-IsPlaced k t e f eq v.placed;
      once = λ j. omega (arith, weigh-unlink_entry (tally j) k t e f, v.once j);
      count = omega (arith, weigh-unlink_entry (λ x. 1) k t e f, v.count);
    }

-- A key that is found is counted.
pub found-pos :
    (k : Bytes) (e : Entry) (t : Table) (n : ℕ) → find_in_table k t ≡ some e → IsMap t n → 0 < n
found-pos k e t n f v = omega (arith, weigh-unlink_entry (λ x. 1) k t e f, v.count)
