-- ===== src/Core/ZSets/Arrays.antt =====
-- About the array of a sorted set: its order, and that no member stands twice.
use aura_redis.Prelude.{
  ℕ, zero, suc, ◌≡◌, ap, ◌∙◌, true, false, Bool-cases, inl, inr, List, [], ◌∷◌,
}
use aura_redis.Bytes.{Bytes, bytes_eq, bytes_eq_refl, eq_of_bytes_eq}
use aura_redis.Entry.{ZNode}
use aura_redis.Core.ZSets.{zcmp_below, remove_at, insert_at, insert_pos}
use aura_redis.Core.ZSets.Order.{IsNumber, zcmp_below_trans, zcmp_below_total}

abbrev pub AllBelow : ZNode → List ZNode → Type 0
AllBelow n [] = Unit
AllBelow n (x ∷ xs) = (zcmp_below n x ≡ true) × AllBelow n xs

abbrev pub Lacks : Bytes → List ZNode → Type 0
Lacks m [] = Unit
Lacks m (x ∷ xs) = (bytes_eq x.member m ≡ false) × Lacks m xs

-- Numbers in ascending order, each member once.
abbrev pub IsSorted : List ZNode → Type 0
IsSorted [] = Unit
IsSorted (x ∷ xs) = IsNumber x × AllBelow x xs × Lacks x.member xs × IsSorted xs

AllBelow-zcmp_below :
    (a b : ZNode) (xs : List ZNode)
    → IsNumber a
    → IsNumber b
    → IsSorted xs
    → zcmp_below a b ≡ true
    → AllBelow b xs
    → AllBelow a xs
AllBelow-zcmp_below a b [] ha hb s h l = tt
AllBelow-zcmp_below a b (x ∷ xs) ha hb (hx, below, lacks, s) h (l, ls) =
    (zcmp_below_trans a b x ha hb hx h l, AllBelow-zcmp_below a b xs ha hb s h ls)

-- What holds of all nodes and of the new one holds of all with it.
AllBelow-insert_at :
    (a n : ZNode) (i : ℕ) (xs : List ZNode)
    → zcmp_below a n ≡ true
    → AllBelow a xs
    → AllBelow a (insert_at i n xs)
unfolding insert_at
AllBelow-insert_at a n zero xs h l = (h, l)
AllBelow-insert_at a n (suc i) [] h l = (h, tt)
AllBelow-insert_at a n (suc i) (x ∷ xs) h (l, ls) = (l, AllBelow-insert_at a n i xs h ls)

Lacks-insert_at :
    (m : Bytes) (n : ZNode) (i : ℕ) (xs : List ZNode)
    → bytes_eq n.member m ≡ false
    → Lacks m xs
    → Lacks m (insert_at i n xs)
unfolding insert_at
Lacks-insert_at m n zero xs h l = (h, l)
Lacks-insert_at m n (suc i) [] h l = (h, tt)
Lacks-insert_at m n (suc i) (x ∷ xs) h (l, ls) = (l, Lacks-insert_at m n i xs h ls)

bytes_eq_sym : (a b : Bytes) → bytes_eq a b ≡ false → bytes_eq b a ≡ false
bytes_eq_sym a b h = elim (Bool-cases (bytes_eq b a)) [
  | inl same ↦ absurd (
      let e : bytes_eq a b ≡ true =
        ap (λ x. bytes_eq a x) (eq_of_bytes_eq b a same) ∙ bytes_eq_refl a in
      cc)
  | inr other ↦ other
]

-- The place that the loop finds keeps the order.
pub IsSorted-insert_at :
    (n : ZNode) (xs : List ZNode)
    → IsNumber n
    → Lacks n.member xs
    → IsSorted xs
    → IsSorted (insert_at (insert_pos n xs) n xs)
unfolding insert_at insert_pos
IsSorted-insert_at n [] hn l s = (hn, tt, tt, tt)
IsSorted-insert_at n (x ∷ xs) hn (ne, l) (hx, below, lacks, s) =
    elim (Bool-cases (zcmp_below x n)) [
      | inl before ↦ rw before (
        hx,
        AllBelow-insert_at x n (insert_pos n xs) xs before below,
        Lacks-insert_at x.member n (insert_pos n xs) xs (bytes_eq_sym x.member n.member ne) lacks,
        IsSorted-insert_at n xs hn l s,
      )
      | inr after ↦
          let first = zcmp_below_total x n hx hn after ne in
          rw after (
            hn,
            (first, AllBelow-zcmp_below n x xs hn hx s first below),
            (ne, l),
            (hx, below, lacks, s),
          )
    ]

AllBelow-remove_at :
    (a : ZNode) (i : ℕ) (xs : List ZNode) → AllBelow a xs → AllBelow a (remove_at i xs)
unfolding remove_at
AllBelow-remove_at a i [] l = tt
AllBelow-remove_at a zero (x ∷ xs) (l, ls) = ls
AllBelow-remove_at a (suc i) (x ∷ xs) (l, ls) = (l, AllBelow-remove_at a i xs ls)

Lacks-remove_at : (m : Bytes) (i : ℕ) (xs : List ZNode) → Lacks m xs → Lacks m (remove_at i xs)
unfolding remove_at
Lacks-remove_at m i [] l = tt
Lacks-remove_at m zero (x ∷ xs) (l, ls) = ls
Lacks-remove_at m (suc i) (x ∷ xs) (l, ls) = (l, Lacks-remove_at m i xs ls)

pub IsSorted-remove_at : (i : ℕ) (xs : List ZNode) → IsSorted xs → IsSorted (remove_at i xs)
unfolding remove_at
IsSorted-remove_at i [] s = tt
IsSorted-remove_at zero (x ∷ xs) (hx, below, lacks, s) = s
IsSorted-remove_at (suc i) (x ∷ xs) (hx, below, lacks, s) = (
  hx,
  AllBelow-remove_at x i xs below,
  Lacks-remove_at x.member i xs lacks,
  IsSorted-remove_at i xs s,
)
