-- ===== src/Table/Rehash.antt =====
-- A rehash, and the fold of one table into another, as searches see them.
use aura_redis.Prelude.{
  ℕ, zero, suc, ◌*◌, ◌≤◌, ◌<◌, ◌≡◌, refl, Option, none, some, List, [], ◌∷◌, arith, length, get_or,
  replicate, length-replicate, get_or-replicate,
}
use aura_redis.Bytes.{Bytes}
use aura_redis.Entry.{Entry}
use aura_redis.Table.{
  Table, find_in_bucket, find_in_table, slot, link_entry, link_chain, link_all, rehash_table,
}
use aura_redis.Table.Weight.{weigh_bucket, weigh, weigh-empty, length-link_entry, length-link_chain}
use aura_redis.Table.Search.{tally, weigh_bucket-le, find_in_bucket-none, find-link_entry}
use aura_redis.Table.Placed.{IsPlaced, link-IsPlaced}

abbrev pub or_else : Option Entry → Option Entry → Option Entry
or_else none o = o
or_else (some e) o = some e

find-link_chain :
    (k : Bytes) (es : List Entry) (nb : Table)
    → 0 < length nb
    → weigh_bucket (tally k) es ≤ 1
    → find_in_table k (link_chain es nb) ≡ or_else (find_in_bucket k es) (find_in_table k nb)
unfolding find_in_bucket link_chain weigh_bucket
find-link_chain k [] nb h once = refl
find-link_chain k (e ∷ es) nb h once =
    let n = length-link_entry e nb in
    let rest = find-link_chain k es (link_entry e nb) (omega arith) (ground arith) in
    ground (arith, rest, find-link_entry e nb k h, find_in_bucket-none k es)

-- The first entry of that key over all buckets.
unfoldable pub find_any : Bytes → Table → Option Entry
find_any k [] = none
find_any k (b ∷ t) = or_else (find_in_bucket k b) (find_any k t)

find_any-none : (k : Bytes) (t : Table) → weigh (tally k) t ≡ 0 → find_any k t ≡ none
unfolding find_any weigh
find_any-none k [] h = refl
find_any-none k (b ∷ t) h = ground (arith, find_in_bucket-none k b, find_any-none k t)

or_else-none : (o : Option Entry) → or_else o none ≡ o
or_else-none none = refl
or_else-none (some e) = refl

find_any-at :
    (k : Bytes) (t : Table) (i : ℕ)
    → weigh (tally k) t ≡ weigh_bucket (tally k) (get_or t i [])
    → find_any k t ≡ find_in_bucket k (get_or t i [])
unfolding find_any weigh
find_any-at k [] i h = ground (arith, find_in_bucket-none k [])
find_any-at k (b ∷ t) zero h =
    rw (find_any-none k t (omega arith)) (or_else-none (find_in_bucket k b))
find_any-at k (b ∷ t) (suc i) h =
    ground (arith, find_in_bucket-none k b, find_any-at k t i, weigh_bucket-le (tally k) t i)

pub find_any-find : (k : Bytes) (t : Table) → IsPlaced t → find_any k t ≡ find_in_table k t
unfolding find_in_table
find_any-find k [] p = unfold find_any in refl
find_any-find k (b ∷ t) p = ground (arith, find_any-at k (b ∷ t) (slot k (b ∷ t)) (p.at k))

pub find-link_all :
    (k : Bytes) (t nb : Table)
    → 0 < length nb
    → weigh (tally k) t ≤ 1
    → find_in_table k (link_all t nb) ≡ or_else (find_any k t) (find_in_table k nb)
unfolding find_any link_all weigh
find-link_all k [] nb h once = refl
find-link_all k (b ∷ t) nb h once =
    let n = length-link_chain b nb in
    let rest = find-link_all k t (link_chain b nb) (omega arith) (omega arith) in
    ground (
      arith,
      rest,
      find-link_chain k b nb h (omega arith),
      find_any-none k t,
      find_in_bucket-none k b,
    )

pub find-empty : (k : Bytes) (n : ℕ) → find_in_table k (replicate n []) ≡ none
unfolding find_in_table
find-empty k zero = refl
find-empty k (suc n) =
    rw (get_or-replicate {A = List Entry} (suc n) (slot k (replicate (suc n) [])) [])
      (unfold find_in_bucket in ground arith)

-- In a table with buckets, where entries stand in the buckets of their keys and the key stands at
-- most once, the key finds after a rehash what it found before.
pub find-rehash_table :
    (k : Bytes) (t : Table)
    → 0 < length t
    → IsPlaced t
    → weigh (tally k) t ≤ 1
    → find_in_table k (rehash_table t) ≡ find_in_table k t
unfolding rehash_table
find-rehash_table k t h p once =
    let n = length-replicate {A = List Entry} (length t * 2) [] in
    rw
      (
        find-link_all k t (replicate (length t * 2) []) (omega arith) once,
        find-empty k (length t * 2),
        find_any-find k t p,
      )
      (or_else-none (find_in_table k t))

link_chain-IsPlaced :
    (es : List Entry) (nb : Table) → 0 < length nb → IsPlaced nb → IsPlaced (link_chain es nb)
unfolding link_chain
link_chain-IsPlaced [] nb h p = p
link_chain-IsPlaced (e ∷ es) nb h p =
    let n = length-link_entry e nb in
    link_chain-IsPlaced es (link_entry e nb) (omega arith) (link-IsPlaced e nb h p)

pub link_all-IsPlaced : (t nb : Table) → 0 < length nb → IsPlaced nb → IsPlaced (link_all t nb)
unfolding link_all
link_all-IsPlaced [] nb h p = p
link_all-IsPlaced (b ∷ t) nb h p =
    let n = length-link_chain b nb in
    link_all-IsPlaced t (link_chain b nb) (omega arith) (link_chain-IsPlaced b nb h p)

pub empty-IsPlaced : (n : ℕ) → IsPlaced (replicate n [])
empty-IsPlaced n = record {
  at = λ k.
      rw (weigh-empty (tally k) n, get_or-replicate {A = List Entry} n (slot k (replicate n [])) [])
        (unfold weigh_bucket in refl);
}

pub rehash-IsPlaced : (t : Table) → 0 < length t → IsPlaced (rehash_table t)
unfolding rehash_table
rehash-IsPlaced t h =
    let n = length-replicate {A = List Entry} (length t * 2) [] in
    link_all-IsPlaced t (replicate (length t * 2) []) (omega arith) (empty-IsPlaced (length t * 2))
