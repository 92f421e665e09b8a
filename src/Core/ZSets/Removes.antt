-- ===== src/Core/ZSets/Removes.antt =====
-- ZREM as a removal from a map from members to scores.
use aura_redis.Prelude.{
  ℕ, ◌+◌, ◌≡◌, refl, Bool, false, ◌||◌, Option, none, some, List, [], ◌∷◌, length, arith,
  if◌then◌else◌,
}
use aura_redis.Bytes.{Bytes, bytes_eq}
use aura_redis.Entry.{ZNode}
use aura_redis.Core.ZSets.{zfind_member, remove_at, zrem_one, zrem_all, score_of}
use aura_redis.Core.ZSets.Arrays.{Lacks, IsSorted, IsSorted-remove_at}
use aura_redis.Core.ZSets.Scores.{Removed, zfind-none, zfind-Removed, score_of-Lacks}

unfoldable pub listed : List Bytes → Bytes → Bool
listed [] m = false
listed (k ∷ ks) m = bytes_eq k m || listed ks m

-- What ZREM does with `ms`.
pub record Removes (ms : List Bytes) (xs : List ZNode) (ys : List ZNode) (removed : ℕ)
    : Type 0 where
  pub sorted : IsSorted ys
  pub scores : (m : Bytes) → score_of ys m ≡ (if listed ms m then none else score_of xs m)
  pub size : length ys + removed ≡ length xs

module _ (m : Bytes) (xs : List ZNode) (s : IsSorted xs) where
  abbrev RemovesOne : List ZNode × ℕ → Type 0
  RemovesOne (ys, k) = Removes (m ∷ []) xs ys k

  remove_known : (ys : List ZNode) → IsSorted ys → Removed m xs ys → RemovesOne (ys, 1)
  unfolding listed
  remove_known ys t r = record {
    sorted = t;
    scores = λ k. ground (arith, r.scores k);
    size = omega (arith, r.size);
  }

  remove_unknown : Lacks m xs → RemovesOne (xs, 0)
  unfolding listed
  remove_unknown l = record {
    sorted = s;
    scores = λ k. ground (arith, score_of-Lacks xs m k l);
    size = omega arith;
  }

  zrem_one-Removes : RemovesOne (zrem_one m xs)
  unfolding zrem_one
  zrem_one-Removes = by_place (zfind_member xs m) refl
    where
      by_place :
          (o : Option ℕ)
          → zfind_member xs m ≡ o
          → RemovesOne (elim o [ none ↦ (xs, 0) | some i ↦ (remove_at i xs, 1) ])
      by_place none e = remove_unknown (zfind-none xs m e)
      by_place (some i) e =
          remove_known (remove_at i xs) (IsSorted-remove_at i xs s) (zfind-Removed xs m i s e)

-- ZREM leaves the array in order with each member once; the members given have no score any more
-- and the others keep theirs; and the set has shrunk by the number that is replied.
pub zrem_all-Removes :
    (ms : List Bytes) (xs : List ZNode)
    → IsSorted xs
    → Removes ms xs (zrem_all ms xs).0 (zrem_all ms xs).1
unfolding zrem_all listed
zrem_all-Removes [] xs s = record { sorted = s; scores = λ m. refl; size = omega arith }
zrem_all-Removes (k ∷ ks) xs s =
    let one = zrem_one-Removes k xs s in
    let more = zrem_all-Removes ks (zrem_one k xs).0 one.sorted in
    record {
      sorted = more.sorted;
      scores = λ m. ground (arith, more.scores m, one.scores m);
      size = omega (arith, one.size, more.size);
    }
