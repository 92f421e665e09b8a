-- ===== src/Table/Search.antt =====
-- What a search finds after each table helper, and the placement of entries in their buckets.
use aura_redis.Prelude.{
  ℕ, zero, suc, ◌≤◌, ◌<◌, ◌≡◌, refl, sym, subst, true, false, none, some, List, [], ◌∷◌, arith,
  length, get_or, set, length-set, get_or-set_self, get_or-set_ne, inl, inr, Bool-cases, ==_iff,
  ◌==◌, if◌then◌else◌,
}
use aura_redis.Bytes.{Bytes, bytes_eq, bytes_eq_iff, eq_of_bytes_eq, bytes_eq_refl, bucket_index-lt}
use aura_redis.Entry.{Entry}
use aura_redis.Table.{
  Table, find_in_bucket, find_in_table, unlink_bucket, store_bucket, slot, unlink_entry,
  store_entry, link_entry,
}
use aura_redis.Table.Weight.{weigh_bucket, weigh, find-pos, find-bucket}

-- One for an entry of that key.
abbrev pub tally : Bytes → Entry → ℕ
tally key e = if bytes_eq e.key key then 1 else 0

module _ (key : Bytes) where
  pub find_in_bucket-none :
      (es : List Entry) → weigh_bucket (tally key) es ≡ 0 → find_in_bucket key es ≡ none
  unfolding find_in_bucket weigh_bucket
  find_in_bucket-none [] h = refl
  find_in_bucket-none (e ∷ es) h = ground (arith, find_in_bucket-none es)

  pub tally-eq_zero :
      (es : List Entry) → find_in_bucket key es ≡ none → weigh_bucket (tally key) es ≡ 0
  unfolding find_in_bucket weigh_bucket
  tally-eq_zero [] h = refl
  tally-eq_zero (e ∷ es) h = ground (arith, tally-eq_zero es)

  -- The entry that a search returns has the key that was searched.
  pub find_in_bucket-key :
      (es : List Entry) (e : Entry) → find_in_bucket key es ≡ some e → bytes_eq e.key key ≡ true
  unfolding find_in_bucket
  find_in_bucket-key [] e h = ground arith
  find_in_bucket-key (x ∷ es) e h = ground (arith, find_in_bucket-key es e)

-- A write to one slot, seen from a search of another key.
find-set_ne :
    (key j : Bytes) (t : Table) (es : List Entry)
    → 0 < length t
    → find_in_bucket j es ≡ find_in_bucket j (get_or t (slot key t) [])
    → find_in_table j (set t (slot key t) es) ≡ find_in_table j t
unfolding find_in_table
find-set_ne key j t es h e =
    rw (length-set t (slot key t) es) (elim (Bool-cases (slot key t == slot j t)) [
      | inl same ↦
          let p : slot key t ≡ slot j t = (==_iff _ _).0 same in
          ground
            (arith, p, e, get_or-set_self t (slot key t) es [] (bucket_index-lt key (length t) h))
      | inr other ↦
          ground (arith, get_or-set_ne t (slot key t) (slot j t) es [] (λ p. ground arith))
    ])

find-set_self :
    (key : Bytes) (t : Table) (es : List Entry)
    → 0 < length t
    → find_in_table key (set t (slot key t) es) ≡ find_in_bucket key es
unfolding find_in_table
find-set_self key t es h =
    rw (length-set t (slot key t) es)
      (ground (arith, get_or-set_self t (slot key t) es [] (bucket_index-lt key (length t) h)))

-- After linking an entry, its key finds it and every other key finds what it found before.
pub find-link_entry :
    (e : Entry) (t : Table) (j : Bytes)
    → 0 < length t
    → find_in_table j (link_entry e t) ≡ (if bytes_eq e.key j then some e else find_in_table j t)
unfolding link_entry find_in_bucket
find-link_entry e t j h = elim (Bool-cases (bytes_eq e.key j)) [
  | inl same ↦
      let p : e.key ≡ j = eq_of_bytes_eq e.key j same in
      rw (← p)
        (rw (find-set_self e.key t (e ∷ get_or t (slot e.key t) []) h, bytes_eq_refl e.key) refl)
  | inr other ↦ rw other (
      find-set_ne e.key j t (e ∷ get_or t (slot e.key t) []) h
        (unfold find_in_bucket in rw other refl))
]

unlink_bucket-ne :
    (key j : Bytes) (es : List Entry)
    → bytes_eq key j ≡ false
    → find_in_bucket j (unlink_bucket key es) ≡ find_in_bucket j es
unfolding find_in_bucket unlink_bucket
unlink_bucket-ne key j [] h = refl
unlink_bucket-ne key j (e ∷ es) h = ground (
  arith,
  unlink_bucket-ne key j es h,
  bytes_eq_iff key j,
  bytes_eq_iff e.key j,
  bytes_eq_iff e.key key,
)

-- Unlinking one key leaves what every other key finds.
pub find-unlink_ne :
    (key j : Bytes) (t : Table)
    → 0 < length t
    → bytes_eq key j ≡ false
    → find_in_table j (unlink_entry key t) ≡ find_in_table j t
unfolding unlink_entry
find-unlink_ne key j t h ne =
    find-set_ne key j t (unlink_bucket key (get_or t (slot key t) [])) h
      (unlink_bucket-ne key j (get_or t (slot key t) []) ne)

unlink_bucket_self :
    (key : Bytes) (es : List Entry)
    → weigh_bucket (tally key) es ≤ 1
    → find_in_bucket key (unlink_bucket key es) ≡ none
unfolding find_in_bucket unlink_bucket weigh_bucket
unlink_bucket_self key [] h = refl
unlink_bucket_self key (e ∷ es) h =
    ground (arith, unlink_bucket_self key es, find_in_bucket-none key es)

pub weigh_bucket-le :
    (m : Entry → ℕ) (t : Table) (i : ℕ) → weigh_bucket m (get_or t i []) ≤ weigh m t
unfolding weigh weigh_bucket
weigh_bucket-le m [] i = omega arith
weigh_bucket-le m (b ∷ t) zero = omega arith
weigh_bucket-le m (b ∷ t) (suc i) = omega (arith, weigh_bucket-le m t i)

-- Unlinking a key that stands once removes it.
pub find-unlink_self :
    (key : Bytes) (t : Table)
    → 0 < length t
    → weigh (tally key) t ≤ 1
    → find_in_table key (unlink_entry key t) ≡ none
unfolding unlink_entry
find-unlink_self key t h once =
    rw (find-set_self key t (unlink_bucket key (get_or t (slot key t) [])) h) (
      unlink_bucket_self key (get_or t (slot key t) [])
        (omega (arith, weigh_bucket-le (tally key) t (slot key t))))

store_bucket-find :
    (key j : Bytes) (e' : Entry) (es : List Entry) (e : Entry)
    → bytes_eq e'.key key ≡ true
    → find_in_bucket key es ≡ some e
    → find_in_bucket j (store_bucket key e' es)
      ≡ (if bytes_eq key j then some e' else find_in_bucket j es)
unfolding find_in_bucket store_bucket
store_bucket-find key j e' [] e k h = ground arith
store_bucket-find key j e' (x ∷ es) e k h = ground (
  arith,
  store_bucket-find key j e' es e k,
  bytes_eq_iff key j,
  bytes_eq_iff x.key j,
  bytes_eq_iff x.key key,
  bytes_eq_iff e'.key key,
  bytes_eq_iff e'.key j,
)

-- Overwriting an entry under its own key changes what that key finds, and nothing else.
pub find-store_entry :
    (key j : Bytes) (e' : Entry) (t : Table) (e : Entry)
    → bytes_eq e'.key key ≡ true
    → find_in_table key t ≡ some e
    → find_in_table j (store_entry key e' t)
      ≡ (if bytes_eq key j then some e' else find_in_table j t)
unfolding store_entry
find-store_entry key j e' t e k h =
    let pos = find-pos key t e h in
    let old = find-bucket key t e h in
    let b = get_or t (slot key t) [] in
    elim (Bool-cases (bytes_eq key j)) [
      | inl same ↦
          let p : key ≡ j = eq_of_bytes_eq key j same in
          rw (same, ← p)
            (rw (find-set_self key t (store_bucket key e' b) pos)
              (ground (arith, store_bucket-find key key e' b e k old, bytes_eq_refl key)))
      | inr other ↦ rw other (
          find-set_ne key j t (store_bucket key e' b) pos
            (ground (arith, store_bucket-find key j e' b e k old)))
    ]

pub find_in_table-none : (k : Bytes) (t : Table) → weigh (tally k) t ≡ 0 → find_in_table k t ≡ none
unfolding find_in_table
find_in_table-none k t h =
    ground (
      arith,
      find_in_bucket-none k (get_or t (slot k t) []),
      weigh_bucket-le (tally k) t (slot k t),
    )

-- The entry that a search returns has the key that was searched.
pub find-key : (k : Bytes) (t : Table) (e : Entry) → find_in_table k t ≡ some e → e.key ≡ k
find-key k t e h =
    eq_of_bytes_eq e.key k (find_in_bucket-key k (get_or t (slot k t) []) e (find-bucket k t e h))

pub find-own :
    (k : Bytes) (t : Table) (e : Entry)
    → find_in_table k t ≡ some e
    → find_in_table e.key t ≡ some e
find-own k t e f = subst (λ j. find_in_table j t ≡ some e) (sym (find-key k t e f)) f
