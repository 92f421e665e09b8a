-- ===== src/Core/ZSets/Scores.antt =====
-- About the scores that an array of nodes gives, where it gains or loses a node.
use aura_redis.Prelude.{
  ℕ, zero, suc, ◌≡◌, refl, subst, ap, ◌∙◌, true, false, Bool-cases, inl, inr, Option, none, some,
  List, [], ◌∷◌, length, arith, if◌then◌else◌,
}
use aura_redis.Bytes.{Bytes, bytes_eq, eq_of_bytes_eq}
use aura_redis.Entry.{ZNode}
use aura_redis.Core.ZSets.{zfind_member, remove_at, insert_at, score_of}
use aura_redis.Core.ZSets.Arrays.{Lacks, IsSorted}

-- A string that equals one of two different ones is not the other.
apart : (x m k : Bytes) → bytes_eq x m ≡ false → bytes_eq x k ≡ true → bytes_eq m k ≡ false
apart x m k ne same = elim (Bool-cases (bytes_eq m k)) [
  | inl e ↦
      absurd (let f : bytes_eq x m ≡ true = ap (bytes_eq x) (eq_of_bytes_eq m k e) ∙ same in cc)
  | inr other ↦ other
]

-- Two equal members have one score.
pub score_of-Lacks :
    (xs : List ZNode) (m k : Bytes) → Lacks m xs → bytes_eq m k ≡ true → score_of xs k ≡ none
unfolding score_of
score_of-Lacks [] m k l e = refl
score_of-Lacks (x ∷ xs) m k (ne, l) e =
    let other : bytes_eq x.member k ≡ false = rw (← eq_of_bytes_eq m k e) ne in
    rw other (score_of-Lacks xs m k l e)

pub zfind-none : (xs : List ZNode) (m : Bytes) → zfind_member xs m ≡ none → Lacks m xs
unfolding zfind_member
zfind-none [] m h = tt
zfind-none (x ∷ xs) m h = (ground arith, zfind-none xs m (ground arith))

-- The node at the place that was found is the member's only one.
pub record Removed (m : Bytes) (xs ys : List ZNode) : Type 0 where
  pub gone : Lacks m ys
  pub scores : (k : Bytes) → score_of ys k ≡ (if bytes_eq m k then none else score_of xs k)
  pub size : suc (length ys) ≡ length xs

scores-head :
    (xs : List ZNode) (m k : Bytes)
    → Lacks m xs
    → score_of xs k ≡ (if bytes_eq m k then none else score_of xs k)
scores-head xs m k l = elim (Bool-cases (bytes_eq m k)) [
  | inl same ↦ rw same (score_of-Lacks xs m k l same)
  | inr other ↦ rw other refl
]

Removed-head :
    (x : ZNode) (xs : List ZNode) (m : Bytes)
    → Lacks x.member xs
    → bytes_eq x.member m ≡ true
    → Removed m (x ∷ xs) xs
unfolding score_of
Removed-head x xs m l e =
    let same : x.member ≡ m = eq_of_bytes_eq x.member m e in
    let gone : Lacks m xs = subst (λ y. Lacks y xs) same l in
    record { gone = gone; scores = λ k. ground (arith, scores-head xs m k gone, same); size = refl }

Removed-cons :
    (x : ZNode) (xs ys : List ZNode) (m : Bytes)
    → bytes_eq x.member m ≡ false
    → Removed m xs ys
    → Removed m (x ∷ xs) (x ∷ ys)
unfolding score_of
Removed-cons x xs ys m ne r = record {
  gone = (ne, r.gone);
  scores = λ k. elim (Bool-cases (bytes_eq x.member k)) [
    | inl same ↦
        let apart : bytes_eq m k ≡ false = apart x.member m k ne same in rw (same, apart) refl
    | inr other ↦ rw other (r.scores k)
  ];
  size = ap suc r.size;
}

some-suc :
    (o : Option ℕ) (i : ℕ)
    → (elim o [ none ↦ none | some j ↦ some (suc j) ]) ≡ some i
    → (j : ℕ) × (o ≡ some j) × (i ≡ suc j)
some-suc none i h = cc
some-suc (some j) i h = (j, refl, ground (arith, h))

pub zfind-Removed :
    (xs : List ZNode) (m : Bytes) (i : ℕ)
    → IsSorted xs
    → zfind_member xs m ≡ some i
    → Removed m xs (remove_at i xs)
unfolding zfind_member remove_at
zfind-Removed [] m i s h = cc
zfind-Removed (x ∷ xs) m i (hx, below, lacks, s) h = elim (Bool-cases (bytes_eq x.member m)) [
  | inl same ↦ let first : i ≡ 0 = ground arith in rw first (Removed-head x xs m lacks same)
  | inr other ↦
      let (j, e, later) = some-suc (zfind_member xs m) i (ground (arith, h, other)) in
      rw later (Removed-cons x xs (remove_at j xs) m other (zfind-Removed xs m j s e))
]

pub score_of-insert_at :
    (xs : List ZNode) (n : ZNode) (i : ℕ) (k : Bytes)
    → Lacks n.member xs
    → score_of (insert_at i n xs) k ≡ (if bytes_eq n.member k then some n.score else score_of xs k)
unfolding score_of insert_at
score_of-insert_at xs n zero k l = refl
score_of-insert_at [] n (suc i) k l = refl
score_of-insert_at (x ∷ xs) n (suc i) k (ne, l) =
    ground (arith, score_of-insert_at xs n i k l, apart x.member n.member k ne)

pub length-insert_at :
    (xs : List ZNode) (n : ZNode) (i : ℕ) → length (insert_at i n xs) ≡ suc (length xs)
unfolding insert_at
length-insert_at xs n zero = refl
length-insert_at [] n (suc i) = refl
length-insert_at (x ∷ xs) n (suc i) = ap suc (length-insert_at xs n i)
