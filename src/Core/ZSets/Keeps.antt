-- ===== src/Core/ZSets/Keeps.antt =====
-- ZADD as an update of a map from members to scores.
use aura_redis.Prelude.{
  ℕ, zero, suc, ◌+◌, ◌*◌, ◌≤◌, ◌<◌, ◌≡◌, refl, ◌∙◌, Option, none, some, List, [], ◌∷◌, length,
  arith, if◌then◌else◌,
}
use aura_redis.Bytes.{Bytes, bytes_eq}
use aura_redis.Entry.{ZNode, ZSet}
use aura_redis.Core.ZSets.{
  zfind_member, remove_at, insert_pos, double_until, zensure_cap, insert_node, zadd_one, zadd_all,
  score_of,
}
use aura_redis.Core.ZSets.Order.{IsNumber}
use aura_redis.Core.ZSets.Arrays.{Lacks, IsSorted, IsSorted-insert_at, IsSorted-remove_at}
use aura_redis.Core.ZSets.Scores.{
  Removed, zfind-none, zfind-Removed, score_of-insert_at, length-insert_at,
}

-- The array is in order, each member stands once, and there is room for all.
pub record IsZSet (z : ZSet) : Type 0 where
  pub sorted : IsSorted z.arr
  pub room : length z.arr ≤ z.cap

abbrev pub AreNumbers : List ZNode → Type 0
AreNumbers [] = Unit
AreNumbers (n ∷ ns) = IsNumber n × AreNumbers ns

-- The map with the nodes written into it, one after the other.
unfoldable pub updated : List ZNode → (Bytes → Option ℕ) → Bytes → Option ℕ
updated [] f m = f m
updated (n ∷ ns) f m = updated ns (λ k. if bytes_eq n.member k then some n.score else f k) m

double_until-enough :
    (fuel nc need : ℕ) → 0 < nc → need ≤ nc + fuel → need ≤ double_until fuel nc need
unfolding double_until
double_until-enough zero nc need p h = omega arith
double_until-enough (suc fuel) nc need p h =
    ground (arith, double_until-enough fuel (nc * 2) need (omega arith) (omega arith))

-- The doubling loop reaches what is asked for.
pub zensure_cap-enough : (cap need : ℕ) → need ≤ zensure_cap cap need
unfolding zensure_cap
zensure_cap-enough cap need =
    ground (arith, double_until-enough need 8 need, double_until-enough need (cap * 2) need)

-- What ZADD does with `ns`.
pub record Adds (ns : List ZNode) (z z' : ZSet) (added : ℕ) : Type 0 where
  pub valid : IsZSet z'
  pub scores : (m : Bytes) → score_of z'.arr m ≡ updated ns (score_of z.arr) m
  pub size : length z'.arr ≡ length z.arr + added

insert_node-IsZSet :
    (n : ZNode) (cap : ℕ) (arr : List ZNode)
    → IsNumber n
    → Lacks n.member arr
    → IsSorted arr
    → IsZSet (insert_node n cap arr)
unfolding insert_node
insert_node-IsZSet n cap arr hn l s = record {
  sorted = IsSorted-insert_at n arr hn l s;
  room =
      omega
        (arith, length-insert_at arr n (insert_pos n arr), zensure_cap-enough cap (length arr + 1));
}

module _ (n : ZNode) (z : ZSet) (hn : IsNumber n) (v : IsZSet z) where
  abbrev AddsOne : ZSet × ℕ → Type 0
  AddsOne (z', added) = Adds (n ∷ []) z z' added

  add_new : Lacks n.member z.arr → AddsOne (insert_node n z.cap z.arr, 1)
  add_new l = record {
    valid = insert_node-IsZSet n z.cap z.arr hn l v.sorted;
    scores = λ m. unfold insert_node updated in score_of-insert_at z.arr n (insert_pos n z.arr) m l;
    size = unfold insert_node in omega (arith, length-insert_at z.arr n (insert_pos n z.arr));
  }

  add_known :
      (arr : List ZNode)
      → IsSorted arr
      → Removed n.member z.arr arr
      → AddsOne (insert_node n z.cap arr, 0)
  add_known arr s r = record {
    valid = insert_node-IsZSet n z.cap arr hn r.gone s;
    scores = λ m.
        unfold insert_node updated in
        (score_of-insert_at arr n (insert_pos n arr) m r.gone ∙ ground (arith, r.scores m));
    size = unfold insert_node in omega (arith, length-insert_at arr n (insert_pos n arr), r.size);
  }

  pub zadd_one-Adds : AddsOne (zadd_one n z)
  unfolding zadd_one
  zadd_one-Adds = by_place (zfind_member z.arr n.member) refl
    where
      by_place :
          (o : Option ℕ)
          → zfind_member z.arr n.member ≡ o
          → AddsOne (elim o [
            | none ↦ (insert_node n z.cap z.arr, 1)
            | some i ↦ (insert_node n z.cap (remove_at i z.arr), 0)
          ])
      by_place none e = add_new (zfind-none z.arr n.member e)
      by_place (some i) e =
          add_known (remove_at i z.arr) (IsSorted-remove_at i z.arr v.sorted)
            (zfind-Removed z.arr n.member i v.sorted e)

updated-ext :
    (ns : List ZNode) (f g : Bytes → Option ℕ) (m : Bytes)
    → ((k : Bytes) → f k ≡ g k)
    → updated ns f m ≡ updated ns g m
unfolding updated
updated-ext [] f g m h = h m
updated-ext (n ∷ ns) f g m h = updated-ext ns _ _ m (λ k. rw (h k) refl)

-- For scores that are no NaN, ZADD's array stays in order with each member once and room for all;
-- the scores are those before, overwritten by the given ones in their order; and the set has grown
-- by the number that is replied.
pub zadd_all-Adds :
    (ns : List ZNode) (z : ZSet)
    → AreNumbers ns
    → IsZSet z
    → Adds ns z (zadd_all ns z).0 (zadd_all ns z).1
unfolding zadd_all updated
zadd_all-Adds [] z h v = record { valid = v; scores = λ m. refl; size = omega arith }
zadd_all-Adds (n ∷ ns) z (hn, h) v =
    let one = zadd_one-Adds n z hn v in
    let more = zadd_all-Adds ns (zadd_one n z).0 h one.valid in
    record {
      valid = more.valid;
      scores = λ m. more.scores m ∙ updated-ext ns _ _ m (λ k. one.scores k);
      size = omega (arith, one.size, more.size);
    }
