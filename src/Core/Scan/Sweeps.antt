-- ===== src/Core/Scan/Sweeps.antt =====
-- The walk of one chain, with what is freed on it.
use aura_redis.Prelude.{
  ℕ, suc, ◌+◌, ◌≤◌, ◌≡◌, refl, sym, subst, ap, ◌∙◌, Bool, true, false, if_elim, inl, inr, some,
  List, [], ◌∷◌, length, get_or, if◌then◌else◌, arith,
}
use aura_redis.Bytes.{Bytes, bytes_eq, bucket_index}
use aura_redis.Entry.{Entry}
use aura_redis.Table.{find_in_table, slot}
use aura_redis.Table.Weight.{weigh_bucket}
use aura_redis.Table.Search.{tally}
use aura_redis.Table.Member.{Member, tally-Member}
use aura_redis.Core.{Core, Tier}
use aura_redis.Core.Free.{ar_entry_free_ex, table}
use aura_redis.Core.Free.Keeps.{total-free}
use aura_redis.Core.Find.{is_due, bump_expired}
use aura_redis.Core.Evict.Drops.{stands-free}
use aura_redis.Core.Keys.Purge.{Purges, Purges-refl, Purges-trans, Purges-free}
use aura_redis.Core.Invariant.{total, IsValid}
use aura_redis.Core.Scan.{matches, count_chain, scan_chain}
use aura_redis.Core.Scan.Frees.{Apart, free-bump_expired, lengths-free, elsewhere-free}

-- The entries of a chain that stay.
unfoldable pub alive : ℕ → List Entry → List Entry
alive now [] = []
alive now (e ∷ es) = if is_due now e then alive now es else e ∷ alive now es

unfoldable pub matching : Bytes → List Entry → List Bytes
matching pat [] = []
matching pat (e ∷ es) = if matches pat e.key then e.key ∷ matching pat es else matching pat es

abbrev pub due_part : ℕ → (Entry → ℕ) → Entry → ℕ
due_part now m e = if is_due now e then m e else 0

-- From `c` to `c'` the entries of `es`, the bucket `i` of `tier`, that are due have been freed.
pub record Sweeps (now : ℕ) (tier : Tier) (i : ℕ) (es : List Entry) (c c' : Core) : Type 0 where
  pub purges : Purges now c c'
  pub sums : (m : Entry → ℕ) → total m c'.dict + weigh_bucket (due_part now m) es ≡ total m c.dict
  pub same_layout : c'.layout ≡ c.layout
  pub lengths : (tier' : Tier) → length (table tier' c'.dict) ≡ length (table tier' c.dict)
  pub elsewhere :
      (tier' : Tier) (j : ℕ)
      → Apart tier i tier' j
      → get_or (table tier' c'.dict) j [] ≡ get_or (table tier' c.dict) j []

module _ (now : ℕ) (tier : Tier) where
  unfoldable pub sweep : List Entry → Core → Core
  sweep [] c = c
  sweep (e ∷ es) c = sweep es (if is_due now e then bump_expired (ar_entry_free_ex tier e c) else c)

  pub count_chain-sweep :
      (es : List Entry) (c : Core) → count_chain now tier es c ≡ (sweep es c, length (alive now es))
  unfolding count_chain sweep alive
  count_chain-sweep [] c = refl
  count_chain-sweep (e ∷ es) c =
      let c1 = if is_due now e then bump_expired (ar_entry_free_ex tier e c) else c in
      ap (λ r. (r.0, if is_due now e then r.1 else suc r.1)) (count_chain-sweep es c1)
      ∙ ap (λ n. (sweep es c1, n)) (counted (is_due now e))
    where
      counted :
          (due : Bool)
          → (if due then length (alive now es) else suc (length (alive now es)))
            ≡ length (if due then alive now es else e ∷ alive now es)
      counted true = refl
      counted false = refl

  pub scan_chain-sweep :
      (pat : Bytes) (es : List Entry) (c : Core)
      → scan_chain now pat tier es c ≡ (sweep es c, matching pat (alive now es))
  unfolding scan_chain sweep alive matching
  scan_chain-sweep pat [] c = refl
  scan_chain-sweep pat (e ∷ es) c =
      let same = free-bump_expired tier e c in
      let c1 = if is_due now e then bump_expired (ar_entry_free_ex tier e c) else c in
      ap (λ r. (r.0, if is_due now e then r.1 else if matches pat e.key then e.key ∷ r.1 else r.1))
        (ap (λ d. scan_chain now pat tier es (if is_due now e then d else c)) same
          ∙ scan_chain-sweep pat es c1)
      ∙ ap (λ ks. (sweep es c1, ks)) (collected (is_due now e))
    where
      collected :
          (due : Bool)
          → (if due
              then matching pat (alive now es)
              else if matches pat e.key
              then e.key ∷ matching pat (alive now es)
              else matching pat (alive now es))
            ≡ matching pat (if due then alive now es else e ∷ alive now es)
      collected true = refl
      collected false = refl

  module _ (i : ℕ) where
    free-Sweeps :
        (e : Entry) (c : Core)
        → find_in_table e.key (table tier c.dict) ≡ some e
        → slot e.key (table tier c.dict) ≡ i
        → is_due now e ≡ true
        → IsValid c
        → Sweeps now tier i (e ∷ []) c (bump_expired (ar_entry_free_ex tier e c))
    unfolding bump_expired weigh_bucket
    free-Sweeps e c f s due v = record {
      purges = Purges-free now tier e c f due v;
      sums = λ m. ground (arith, total-free e c m tier f, due);
      same_layout = unfold ar_entry_free_ex in refl;
      lengths = lengths-free tier e c f;
      elsewhere = λ tier' j ne.
          elsewhere-free tier e c f tier' j (subst (λ k. Apart tier k tier' j) (sym s) ne);
    }

    -- Each entry of the chain still stands, and in this bucket.
    pub record Stands (es : List Entry) (c : Core) : Type 0 where
      pub valid : IsValid c
      pub found : (y : Entry) → Member y es → find_in_table y.key (table tier c.dict) ≡ some y
      pub slots : (y : Entry) → Member y es → slot y.key (table tier c.dict) ≡ i
      pub once : (k : Bytes) → weigh_bucket (tally k) es ≤ 1

    kept-Stands : (e : Entry) (es : List Entry) (c : Core) → Stands (e ∷ es) c → Stands es c
    unfolding weigh_bucket
    kept-Stands e es c s = record {
      valid = s.valid;
      found = λ y m. s.found y (inr m);
      slots = λ y m. s.slots y (inr m);
      once = λ k. omega (arith, s.once k);
    }

    freed-Stands :
        (e : Entry) (es : List Entry) (c : Core)
        → is_due now e ≡ true
        → Stands (e ∷ es) c
        → Stands es (bump_expired (ar_entry_free_ex tier e c))
    unfolding weigh_bucket bump_expired
    freed-Stands e es c due s =
        let f = s.found e (inl refl) in
        let w = free-Sweeps e c f (s.slots e (inl refl)) due s.valid in
        record {
          valid = w.purges.valid;
          found = λ y m. stands-free tier tier e y c f (s.found y (inr m)) (distinct y m);
          slots = λ y m. ap (bucket_index y.key) (lengths-free tier e c f tier) ∙ s.slots y (inr m);
          once = λ k. omega (arith, s.once k);
        }
      where
        distinct : (y : Entry) → Member y es → bytes_eq e.key y.key ≡ false
        distinct y m = ground (arith, s.once y.key, tally-Member y es m)

    pub sweep-Sweeps :
        (es : List Entry) (c : Core) → Stands es c → Sweeps now tier i es c (sweep es c)
    unfolding sweep weigh_bucket
    sweep-Sweeps [] c s = record {
      purges = Purges-refl s.valid;
      sums = λ m. omega arith;
      same_layout = refl;
      lengths = λ t. refl;
      elsewhere = λ t j ne. refl;
    }
    sweep-Sweeps (e ∷ es) c s =
        if_elim (λ c1. Sweeps now tier i (e ∷ es) c (sweep es c1)) (is_due now e) _ _
          (λ due.
            let first = free-Sweeps e c (s.found e (inl refl)) (s.slots e (inl refl)) due s.valid in
            let rest =
              sweep-Sweeps es (bump_expired (ar_entry_free_ex tier e c))
                (freed-Stands e es c due s) in
            record {
              purges = Purges-trans first.purges rest.purges;
              sums = λ m. ground (arith, first.sums m, rest.sums m, due);
              same_layout = rest.same_layout ∙ first.same_layout;
              lengths = λ t. rest.lengths t ∙ first.lengths t;
              elsewhere = λ t j ne. rest.elsewhere t j ne ∙ first.elsewhere t j ne;
            })
          (λ stays.
            let rest = sweep-Sweeps es c (kept-Stands e es c s) in
            record {
              purges = rest.purges;
              sums = λ m. ground (arith, rest.sums m, stays);
              same_layout = rest.same_layout;
              lengths = rest.lengths;
              elsewhere = rest.elsewhere;
            })
