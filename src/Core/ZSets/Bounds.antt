-- ===== src/Core/ZSets/Bounds.antt =====
-- The cap on the members of a sorted set.
use aura_redis.Prelude.{ℕ, ◌≤◌, ◌≡◌, refl, false, Option, none, some, List, [], ◌∷◌, length, arith}
use aura_redis.Bytes.{Bytes, bytes_eq_refl}
use aura_redis.Entry.{ZNode, ZSet}
use aura_redis.Core.ZSets.{
  zfind_member, remove_at, insert_node, zadd_one, zadd_all, new_members, score_of, exceeds,
  max_members,
}
use aura_redis.Core.ZSets.Order.{IsNumber}
use aura_redis.Core.ZSets.Scores.{score_of-Lacks, zfind-none}
use aura_redis.Core.ZSets.Keeps.{IsZSet, AreNumbers, updated, zadd_one-Adds, zadd_all-Adds}

zfind-score : (xs : List ZNode) (m : Bytes) → score_of xs m ≡ none → zfind_member xs m ≡ none
unfolding score_of zfind_member
zfind-score [] m h = refl
zfind-score (x ∷ xs) m h = ground (arith, zfind-score xs m, h)

score-zfind : (xs : List ZNode) (m : Bytes) → zfind_member xs m ≡ none → score_of xs m ≡ none
score-zfind xs m h = score_of-Lacks xs m m (zfind-none xs m h) (bytes_eq_refl m)

-- Every member of `z` is one of `z'`.
abbrev Within : ZSet → ZSet → Type 0
Within z z' = (m : Bytes) → score_of z'.arr m ≡ none → score_of z.arr m ≡ none

abbrev place_new : Option ℕ → ℕ
place_new none = 1
place_new (some i) = 0

zadd_one-new : (n : ZNode) (z : ZSet) → (zadd_one n z).1 ≡ place_new (zfind_member z.arr n.member)
unfolding zadd_one
zadd_one-new n z = by_place (zfind_member z.arr n.member)
  where
    by_place :
        (o : Option ℕ)
        → (let r : ZSet × ℕ = elim o [
          | none ↦ (insert_node n z.cap z.arr, 1)
          | some i ↦ (insert_node n z.cap (remove_at i z.arr), 0)
        ] in
            r.1)
          ≡ place_new o
    by_place none = refl
    by_place (some i) = refl

new-le :
    (n : ZNode) (z z' : ZSet)
    → Within z z'
    → place_new (zfind_member z'.arr n.member) ≤ place_new (zfind_member z.arr n.member)
new-le n z z' w = by_place (zfind_member z'.arr n.member) refl
  where
    by_place :
        (o : Option ℕ)
        → zfind_member z'.arr n.member ≡ o
        → place_new o ≤ place_new (zfind_member z.arr n.member)
    by_place none e =
        rw (zfind-score z.arr n.member (w n.member (score-zfind z'.arr n.member e))) (omega arith)
    by_place (some i) e = omega arith

Within-zadd_one :
    (n : ZNode) (z z' : ZSet) → IsNumber n → IsZSet z' → Within z z' → Within z (zadd_one n z').0
unfolding updated
Within-zadd_one n z z' hn v w m e = w m (ground (arith, (zadd_one-Adds n z' hn v).scores m, e))

-- No more members are added than were counted before.
added-le :
    (ns : List ZNode) (z z' : ZSet)
    → AreNumbers ns
    → IsZSet z'
    → Within z z'
    → (zadd_all ns z').1 ≤ new_members ns z
unfolding zadd_all new_members
added-le [] z z' h v w = omega arith
added-le (n ∷ ns) z z' (hn, h) v w = omega (
  arith,
  zadd_one-new n z',
  new-le n z z' w,
  added-le ns z (zadd_one n z').0 h (zadd_one-Adds n z' hn v).valid (Within-zadd_one n z z' hn v w),
)

-- Where ZADD is not refused, a set of at most 4096 members has at most 4096 members afterwards,
-- provided that no score is a NaN.
pub zadd_all-le :
    (ns : List ZNode) (z : ZSet)
    → AreNumbers ns
    → IsZSet z
    → length z.arr ≤ max_members
    → exceeds ns z ≡ false
    → length (zadd_all ns z).0.arr ≤ max_members
zadd_all-le ns z h v l e =
    ground (arith, added-le ns z z h v (λ m f. f), (zadd_all-Adds ns z h v).size)
