-- ===== src/Core/Evict/Drops.antt =====
-- Losing entries, as a relation of two states, and where entries stand when one is freed.
use aura_redis.Prelude.{
  ℕ, ◌≤◌, ◌≡◌, refl, sym, subst, ◌∙◌, true, false, ◌⊎◌, inl, inr, Bool-cases, none, some, arith,
  length, ◌==◌,
}
use aura_redis.Bytes.{Bytes, bytes_eq, eq_of_bytes_eq}
use aura_redis.Entry.{Entry}
use aura_redis.Table.{find_in_table}
use aura_redis.Table.Weight.{weigh, find-pos}
use aura_redis.Table.Search.{find-unlink_ne, find_in_table-none}
use aura_redis.Table.Placed.{IsPlaced}
use aura_redis.Core.{Core, Tier, hot, cold}
use aura_redis.Core.Free.{ar_entry_free_ex, table}
use aura_redis.Core.Free.Keeps.{free-IsValid, lookup-free, total-free, tally-find}
use aura_redis.Core.Find.{is_due}
use aura_redis.Core.Invariant.{total, IsShaped, IsValid, lookup}

-- From `c` to `c'` entries have only been dropped, and no live pinned one.
pub record Drops (now : ℕ) (c c' : Core) : Type 0 where
  pub valid : IsValid c'
  pub lookups : (k : Bytes) → (lookup k c'.dict ≡ lookup k c.dict) ⊎ (lookup k c'.dict ≡ none)
  pub pinned_stay :
      (k : Bytes) (e : Entry)
      → lookup k c.dict ≡ some e
      → e.pinned ≡ true
      → is_due now e ≡ false
      → lookup k c'.dict ≡ some e
  pub shrinks : (m : Entry → ℕ) → total m c'.dict ≤ total m c.dict
  pub same_knobs : c'.knobs ≡ c.knobs

pub Drops-refl : {now : ℕ} {c : Core} → IsValid c → Drops now c c
Drops-refl v = record {
  valid = v;
  lookups = λ k. inl refl;
  pinned_stay = λ k e h p d. h;
  shrinks = λ m. omega arith;
  same_knobs = refl;
}

pub Drops-trans : {now : ℕ} {a b c : Core} → Drops now a b → Drops now b c → Drops now a c
Drops-trans {a} {b} {c} p q = record {
  valid = q.valid;
  lookups = λ k. join k (p.lookups k) (q.lookups k);
  pinned_stay = λ k e h y d. q.pinned_stay k e (p.pinned_stay k e h y d) y d;
  shrinks = λ m. omega (arith, p.shrinks m, q.shrinks m);
  same_knobs = q.same_knobs ∙ p.same_knobs;
}
  where
    join :
        (k : Bytes)
        → (lookup k b.dict ≡ lookup k a.dict) ⊎ (lookup k b.dict ≡ none)
        → (lookup k c.dict ≡ lookup k b.dict) ⊎ (lookup k c.dict ≡ none)
        → (lookup k c.dict ≡ lookup k a.dict) ⊎ (lookup k c.dict ≡ none)
    join k x (inr n) = inr n
    join k (inl x) (inl y) = inl (y ∙ x)
    join k (inr x) (inl y) = inr (y ∙ x)

-- Freeing an entry that is due, or not pinned, drops that entry.
pub Drops-free :
    (now : ℕ) (tier : Tier) (e : Entry) (c : Core)
    → find_in_table e.key (table tier c.dict) ≡ some e
    → lookup e.key c.dict ≡ some e
    → (e.pinned ≡ false) ⊎ (is_due now e ≡ true)
    → IsValid c
    → Drops now c (ar_entry_free_ex tier e c)
Drops-free now tier e c f l may v = record {
  valid = free-IsValid tier e c f v;
  lookups = λ k. ground (arith, lookup-free tier e c k f v.shape);
  pinned_stay = λ k x h p d.
      let same = eq_of_bytes_eq e.key k in
      ground (arith, lookup-free tier e c k f v.shape, l, same);
  shrinks = λ m. omega (arith, total-free e c m tier f);
  same_knobs = unfold ar_entry_free_ex in refl;
}

pub lookup-stands :
    (tier : Tier) (e : Entry) (c : Core)
    → find_in_table e.key (table tier c.dict) ≡ some e
    → IsShaped c.dict
    → lookup e.key c.dict ≡ some e
unfolding lookup
lookup-stands hot e c f s = rw f refl
lookup-stands cold e c f s =
    let gone =
      find_in_table-none e.key c.buckets
        (omega (arith, s.once e.key, tally-find e.key c.cold_buckets e f)) in
    rw (gone, f) refl

-- Entries of other keys stay where they stand.
pub stands-free :
    (tier tier' : Tier) (x y : Entry) (c : Core)
    → find_in_table x.key (table tier c.dict) ≡ some x
    → find_in_table y.key (table tier' c.dict) ≡ some y
    → bytes_eq x.key y.key ≡ false
    → find_in_table y.key (table tier' (ar_entry_free_ex tier x c).dict) ≡ some y
unfolding ar_entry_free_ex
stands-free hot hot x y c fx fy ne =
    find-unlink_ne x.key y.key c.buckets (find-pos x.key c.buckets x fx) ne ∙ fy
stands-free hot cold x y c fx fy ne = fy
stands-free cold hot x y c fx fy ne =
    let pos = find-pos x.key c.cold_buckets x fx in
    let there : (length c.cold_buckets == 0) ≡ false = ground arith in rw there fy
stands-free cold cold x y c fx fy ne =
    let pos = find-pos x.key c.cold_buckets x fx in
    let there : (length c.cold_buckets == 0) ≡ false = ground arith in
    rw there (find-unlink_ne x.key y.key c.cold_buckets pos ne ∙ fy)

-- A due entry and a live one have different keys.
pub apart :
    (now : ℕ) (tier tier' : Tier) (x y : Entry) (c : Core)
    → find_in_table x.key (table tier c.dict) ≡ some x
    → find_in_table y.key (table tier' c.dict) ≡ some y
    → is_due now x ≡ true
    → is_due now y ≡ false
    → IsShaped c.dict
    → bytes_eq x.key y.key ≡ false
apart now tier tier' x y c fx fy due alive s = elim (Bool-cases (bytes_eq x.key y.key)) [
  | inr ne ↦ ne
  | inl same ↦
      let p : x.key ≡ y.key = eq_of_bytes_eq x.key y.key same in
      let lx = lookup-stands tier x c fx s in
      let ly = lookup-stands tier' y c fy s in
      let both : some x ≡ some y = sym lx ∙ subst (λ k. lookup k c.dict ≡ some y) (sym p) ly in
      ground (arith, both)
]

pub weigh-tier :
    (tier : Tier) (m : Entry → ℕ) (c : Core) → weigh m (table tier c.dict) ≤ total m c.dict
weigh-tier hot m c = omega arith
weigh-tier cold m c = omega arith

pub IsPlaced-tier : (tier : Tier) (c : Core) → IsShaped c.dict → IsPlaced (table tier c.dict)
IsPlaced-tier hot c s = s.placed_hot
IsPlaced-tier cold c s = s.placed_cold
