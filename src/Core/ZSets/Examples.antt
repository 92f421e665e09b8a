-- ===== src/Core/ZSets/Examples.antt =====
-- The theorems on sorted sets at a small set, and runs of the commands.
use aura_redis.Prelude.{ℕ, ◌≤◌, ◌≡◌, refl, false, List, [], ◌∷◌, length, arith}
use aura_redis.Bytes.{Bytes, bytes_eq}
use aura_redis.Entry.{ZNode, ZSet}
use aura_redis.Core.ZSets.{zcmp_below, exceeds, max_members, zadd_all, zrem_all, new_members}
use aura_redis.Core.ZSets.Keeps.{IsZSet, Adds, zadd_all-Adds}
use aura_redis.Core.ZSets.Removes.{Removes, zrem_all-Removes}
use aura_redis.Core.ZSets.Bounds.{zadd_all-le}

-- The doubles 1.0, 2.0, -1.0 and a NaN.
abbrev plus_one : ℕ
plus_one = 4607182418800017408

abbrev plus_two : ℕ
plus_two = 4611686018427387904

abbrev minus_one : ℕ
minus_one = 13830554455654793216

abbrev nan : ℕ
nan = 9221120237041090560

abbrev a : Bytes
a = 97 ∷ []

abbrev b : Bytes
b = 98 ∷ []

abbrev c : Bytes
c = 99 ∷ []

abbrev node : Bytes → ℕ → ZNode
node m s = record { member = m; score = s }

abbrev pair : ZSet
pair = record { arr = node a plus_one ∷ node b plus_two ∷ []; cap = 8 }

pair-IsZSet : IsZSet pair
unfolding zcmp_below bytes_eq
pair-IsZSet = record {
  sorted = (refl, (refl, tt), (refl, tt), (refl, tt, tt, tt));
  room = omega arith;
}

-- A new member in front, and `a` moved behind `b`.
abbrev written : List ZNode
written = node c minus_one ∷ node a plus_two ∷ node b plus_one ∷ []

zadd_run : (zadd_all written pair).0.arr ≡ node c minus_one ∷ node b plus_one ∷ node a plus_two ∷ []
unfolding zadd_all zcmp_below bytes_eq
zadd_run = refl

zadd_all-Adds_example : Adds written pair (zadd_all written pair).0 (zadd_all written pair).1
zadd_all-Adds_example = zadd_all-Adds written pair (refl, (refl, (refl, tt))) pair-IsZSet

written_fits : exceeds written pair ≡ false
unfolding new_members bytes_eq
written_fits = refl

zadd_all-le_example : length (zadd_all written pair).0.arr ≤ max_members
zadd_all-le_example =
    zadd_all-le written pair (refl, (refl, (refl, tt))) pair-IsZSet (omega arith) written_fits

zrem_all-Removes_example :
    Removes
      (b ∷ c ∷ [])
      pair.arr
      (zrem_all (b ∷ c ∷ []) pair.arr).0
      (zrem_all (b ∷ c ∷ []) pair.arr).1
zrem_all-Removes_example = zrem_all-Removes (b ∷ c ∷ []) pair.arr pair-IsZSet.sorted

-- A score that is a NaN stops the search for a place: 2.0 then stands before 1.0.
nan_run :
    (zadd_all
      (node b nan ∷ node a plus_two ∷ [])
      (record { arr = node c plus_one ∷ []; cap = 8 })).0.arr
    ≡ node a plus_two ∷ node b nan ∷ node c plus_one ∷ []
unfolding zadd_all zcmp_below bytes_eq
nan_run = refl
