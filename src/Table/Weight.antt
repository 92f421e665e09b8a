-- ===== src/Table/Weight.antt =====
-- Sums over all entries of a table, and how the table helpers change them. Every counter that the
-- core keeps is such a sum.
use aura_redis.Prelude.{
  ℕ, zero, suc, ◌+◌, ◌*◌, ◌≤◌, ◌<◌, ◌≡◌, refl, some, List, [], ◌∷◌, arith, length, get_or, set,
  replicate, length-set, length-replicate,
}
use aura_redis.Bytes.{Bytes, bucket_index-lt}
use aura_redis.Entry.{Entry}
use aura_redis.Table.{
  Table, find_in_bucket, find_in_table, unlink_bucket, store_bucket, slot, unlink_entry,
  store_entry, link_entry, link_chain, link_all, rehash_table,
}

unfoldable pub weigh_bucket : (Entry → ℕ) → List Entry → ℕ
weigh_bucket m [] = 0
weigh_bucket m (e ∷ es) = m e + weigh_bucket m es

unfoldable pub weigh : (Entry → ℕ) → Table → ℕ
unfolding weigh_bucket
weigh m [] = 0
weigh m (b ∷ bs) = weigh_bucket m b + weigh m bs

module _ (m : Entry → ℕ) where
  pub weigh-set :
      (t : Table) (i : ℕ) (b : List Entry)
      → i < length t
      → weigh m (set t i b) + weigh_bucket m (get_or t i []) ≡ weigh m t + weigh_bucket m b
  unfolding weigh
  weigh-set [] i b h = elim h [ ]
  weigh-set (c ∷ t) zero b h = omega arith
  weigh-set (c ∷ t) (suc i) b h = omega (arith, weigh-set t i b (omega arith))

  pub weigh-unlink_bucket :
      (key : Bytes) (es : List Entry) (e : Entry)
      → find_in_bucket key es ≡ some e
      → weigh_bucket m (unlink_bucket key es) + m e ≡ weigh_bucket m es
  unfolding find_in_bucket unlink_bucket weigh_bucket
  weigh-unlink_bucket key [] e h = ground arith
  weigh-unlink_bucket key (x ∷ es) e h = ground (arith, weigh-unlink_bucket key es e)

  pub weigh-store_bucket :
      (key : Bytes) (e' : Entry) (es : List Entry) (e : Entry)
      → find_in_bucket key es ≡ some e
      → weigh_bucket m (store_bucket key e' es) + m e ≡ weigh_bucket m es + m e'
  unfolding find_in_bucket store_bucket weigh_bucket
  weigh-store_bucket key e' [] e h = ground arith
  weigh-store_bucket key e' (x ∷ es) e h = ground (arith, weigh-store_bucket key e' es e)

pub length-link_entry : (e : Entry) (t : Table) → length (link_entry e t) ≡ length t
unfolding link_entry
length-link_entry e t = length-set t (slot e.key t) (e ∷ get_or t (slot e.key t) [])

pub length-link_chain : (es : List Entry) (nb : Table) → length (link_chain es nb) ≡ length nb
unfolding link_chain
length-link_chain [] nb = refl
length-link_chain (e ∷ es) nb =
    omega (arith, length-link_chain es (link_entry e nb), length-link_entry e nb)

pub length-link_all : (t nb : Table) → length (link_all t nb) ≡ length nb
unfolding link_all
length-link_all [] nb = refl
length-link_all (b ∷ t) nb =
    omega (arith, length-link_all t (link_chain b nb), length-link_chain b nb)

pub length-rehash_table : (t : Table) → length (rehash_table t) ≡ length t * 2
unfolding rehash_table
length-rehash_table t = omega (
  arith,
  length-link_all t (replicate (length t * 2) []),
  length-replicate {A = List Entry} (length t * 2) [],
)

-- A search that succeeds has a table to search.
pub find-pos : (key : Bytes) (t : Table) (e : Entry) → find_in_table key t ≡ some e → 0 < length t
unfolding find_in_table
find-pos key [] e h = ground arith
find-pos key (b ∷ t) e h = omega arith

pub find-bucket :
    (key : Bytes) (t : Table) (e : Entry)
    → find_in_table key t ≡ some e
    → find_in_bucket key (get_or t (slot key t) []) ≡ some e
unfolding find_in_table
find-bucket key [] e h = ground arith
find-bucket key (b ∷ t) e h = ground arith

module _ (m : Entry → ℕ) where
  pub weigh-unlink_entry :
      (key : Bytes) (t : Table) (e : Entry)
      → find_in_table key t ≡ some e
      → weigh m (unlink_entry key t) + m e ≡ weigh m t
  unfolding unlink_entry
  weigh-unlink_entry key t e h = omega (
    arith,
    weigh-set m t (slot key t) (unlink_bucket key (get_or t (slot key t) []))
        (bucket_index-lt key (length t) (find-pos key t e h)),
    weigh-unlink_bucket m key (get_or t (slot key t) []) e (find-bucket key t e h),
  )

  pub weigh-store_entry :
      (key : Bytes) (e' : Entry) (t : Table) (e : Entry)
      → find_in_table key t ≡ some e
      → weigh m (store_entry key e' t) + m e ≡ weigh m t + m e'
  unfolding store_entry
  weigh-store_entry key e' t e h = omega (
    arith,
    weigh-set m t (slot key t) (store_bucket key e' (get_or t (slot key t) []))
        (bucket_index-lt key (length t) (find-pos key t e h)),
    weigh-store_bucket m key e' (get_or t (slot key t) []) e (find-bucket key t e h),
  )

  pub weigh-link_entry :
      (e : Entry) (t : Table) → 0 < length t → weigh m (link_entry e t) ≡ weigh m t + m e
  unfolding link_entry weigh_bucket
  weigh-link_entry e t h = omega (
    arith,
    weigh-set m t (slot e.key t) (e ∷ get_or t (slot e.key t) [])
        (bucket_index-lt e.key (length t) h),
  )

  weigh-link_chain :
      (es : List Entry) (nb : Table)
      → 0 < length nb
      → weigh m (link_chain es nb) ≡ weigh m nb + weigh_bucket m es
  unfolding link_chain weigh_bucket
  weigh-link_chain [] nb h = omega arith
  weigh-link_chain (e ∷ es) nb h =
      let n = length-link_entry e nb in
      omega (arith, weigh-link_chain es (link_entry e nb) (omega arith), weigh-link_entry e nb h)

  pub weigh-link_all :
      (t nb : Table) → 0 < length nb → weigh m (link_all t nb) ≡ weigh m nb + weigh m t
  unfolding link_all weigh
  weigh-link_all [] nb h = omega arith
  weigh-link_all (b ∷ t) nb h =
      let n = length-link_chain b nb in
      omega (arith, weigh-link_all t (link_chain b nb) (omega arith), weigh-link_chain b nb h)

  pub weigh-empty : (n : ℕ) → weigh m (replicate n []) ≡ 0
  unfolding weigh
  weigh-empty zero = refl
  weigh-empty (suc n) = omega (arith, weigh-empty n)

  -- Doubling the bucket array loses and duplicates nothing.
  pub weigh-rehash_table : (t : Table) → 0 < length t → weigh m (rehash_table t) ≡ weigh m t
  unfolding rehash_table
  weigh-rehash_table t h =
      let n = length-replicate {A = List Entry} (length t * 2) [] in
      omega (
        arith,
        weigh-link_all t (replicate (length t * 2) []) (omega arith),
        weigh-empty (length t * 2),
      )

module _ (m n : Entry → ℕ) (h : (e : Entry) → m e ≤ n e) where
  weigh_bucket_mono : (es : List Entry) → weigh_bucket m es ≤ weigh_bucket n es
  unfolding weigh_bucket
  weigh_bucket_mono [] = omega arith
  weigh_bucket_mono (e ∷ es) = omega (arith, h e, weigh_bucket_mono es)

  pub weigh_mono : (t : Table) → weigh m t ≤ weigh n t
  unfolding weigh
  weigh_mono [] = omega arith
  weigh_mono (es ∷ t) = omega (arith, weigh_bucket_mono es, weigh_mono t)
