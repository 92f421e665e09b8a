-- ===== src/Core/ZSets/Order.antt =====
-- About the order of a sorted set's nodes, where no score is a NaN.
use aura_redis.Prelude.{
  ℕ, ◌≡◌, refl, sym, ◌∙◌, Bool, true, false, [], ◌∷◌, ltb, arith, if◌then◌else◌,
}
use aura_redis.Bytes.{Bytes, bytes_eq}
use aura_redis.Entry.{ZNode}
use aura_redis.Core.ZSets.{is_nan, rank, score_lt, member_lt, zcmp_below}

abbrev pub IsNumber : ZNode → Type 0
IsNumber n = is_nan n.score ≡ false

member_lt_trans :
    (a b c : Bytes) → member_lt a b ≡ true → member_lt b c ≡ true → member_lt a c ≡ true
unfolding member_lt
member_lt_trans [] [] c h i = cc
member_lt_trans a (y ∷ b) [] h i = cc
member_lt_trans [] (y ∷ b) (z ∷ c) h i = refl
member_lt_trans (x ∷ a) [] c h i = cc
member_lt_trans (x ∷ a) (y ∷ b) (z ∷ c) h i = ground (arith, member_lt_trans a b c)

member_lt_total :
    (a b : Bytes) → member_lt a b ≡ false → bytes_eq a b ≡ false → member_lt b a ≡ true
unfolding member_lt bytes_eq
member_lt_total [] [] h ne = cc
member_lt_total [] (y ∷ b) h ne = cc
member_lt_total (x ∷ a) [] h ne = refl
member_lt_total (x ∷ a) (y ∷ b) h ne = ground (arith, member_lt_total a b)

-- `zcmp` by the ranks of the scores.
abbrev ranked : ℕ → Bytes → ℕ → Bytes → Bool
ranked r a s b = if ltb r s then true else if ltb s r then false else member_lt a b

zcmp_below-ranked :
    (a b : ZNode)
    → IsNumber a
    → IsNumber b
    → zcmp_below a b ≡ ranked (rank a.score) a.member (rank b.score) b.member
unfolding zcmp_below score_lt
zcmp_below-ranked a b ha hb = rw (ha, hb) refl

ranked_trans :
    (r s t : ℕ) (a b c : Bytes)
    → ranked r a s b ≡ true
    → ranked s b t c ≡ true
    → ranked r a t c ≡ true
ranked_trans r s t a b c h i = ground (arith, member_lt_trans a b c)

ranked_total :
    (r s : ℕ) (a b : Bytes) → ranked r a s b ≡ false → bytes_eq a b ≡ false → ranked s b r a ≡ true
ranked_total r s a b h ne = ground (arith, member_lt_total a b)

pub zcmp_below_trans :
    (a b c : ZNode)
    → IsNumber a
    → IsNumber b
    → IsNumber c
    → zcmp_below a b ≡ true
    → zcmp_below b c ≡ true
    → zcmp_below a c ≡ true
zcmp_below_trans a b c ha hb hc h i =
    zcmp_below-ranked a c ha hc
    ∙ ranked_trans (rank a.score) (rank b.score) (rank c.score) a.member b.member c.member
        (sym (zcmp_below-ranked a b ha hb) ∙ h) (sym (zcmp_below-ranked b c hb hc) ∙ i)

pub zcmp_below_total :
    (a b : ZNode)
    → IsNumber a
    → IsNumber b
    → zcmp_below a b ≡ false
    → bytes_eq a.member b.member ≡ false
    → zcmp_below b a ≡ true
zcmp_below_total a b ha hb h ne =
    zcmp_below-ranked b a hb ha
    ∙ ranked_total (rank a.score) (rank b.score) a.member b.member
        (sym (zcmp_below-ranked a b ha hb) ∙ h) ne
