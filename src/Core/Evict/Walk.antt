-- ===== src/Core/Evict/Walk.antt =====
-- About the sampling walks of the eviction kernels of native/src/ar_core.c.
use aura_redis.Prelude.{
  ℕ, zero, suc, ◌+◌, ◌≤◌, ◌%◌, ◌≡◌, refl, Bool, true, false, not, inl, inr, if_elim, Option, none,
  some, List, [], ◌∷◌, arith, get_or, length, ltb, ◌==◌,
}
use aura_redis.Bytes.{Bytes, bytes_eq}
use aura_redis.Entry.{Entry}
use aura_redis.Table.{find_in_table}
use aura_redis.Table.Weight.{weigh_bucket}
use aura_redis.Table.Search.{tally, weigh_bucket-le}
use aura_redis.Table.Member.{Member, find-Member, tally-Member}
use aura_redis.Core.{Core, EvictOps, Tier}
use aura_redis.Core.Free.{ar_entry_free_ex, table}
use aura_redis.Core.Find.{is_due, bump_expired}
use aura_redis.Core.Evict.{
  Pick, better, consider, visit, walk, use_cold, with_rolls, sample_bucket, sample_pick,
}
use aura_redis.Core.Invariant.{IsShaped, IsValid}
use aura_redis.Core.Evict.Drops.{
  Drops, Drops-refl, Drops-trans, Drops-free, lookup-stands, stands-free, apart, weigh-tier,
  IsPlaced-tier,
}

-- The best entry so far stands in its tier, is live and is not pinned.
abbrev pub Holds : ℕ → Core → Option (Tier × Entry) → Type 0
Holds now c none = Unit
Holds now c (some (tier, e)) =
    (find_in_table e.key (table tier c.dict) ≡ some e) × (is_due now e ≡ false) × (e.pinned ≡ false)

Holds-free :
    (now : ℕ) (tier : Tier) (x : Entry) (c : Core) (o : Option (Tier × Entry))
    → find_in_table x.key (table tier c.dict) ≡ some x
    → is_due now x ≡ true
    → IsShaped c.dict
    → Holds now c o
    → Holds now (bump_expired (ar_entry_free_ex tier x c)) o
Holds-free now tier x c none f due s h = tt
Holds-free now tier x c (some (tier', y)) f due s h = (
  unfold bump_expired in
      stands-free tier tier' x y c f h.0 (apart now tier tier' x y c f h.0 due h.1 s),
  h.1,
  h.2,
)

-- A walk's state: only drops, and a best entry that holds.
pub record Walks (now : ℕ) (c : Core) (s : Core × Pick) : Type 0 where
  pub drops : Drops now c s.0
  pub holds : Holds now s.0 s.1.best

Drops-bump : {now : ℕ} {c : Core} (d : Core) → Drops now c d → Drops now c (bump_expired d)
unfolding bump_expired
Drops-bump d p = record {
  valid = record { shape = p.valid.shape; counts = p.valid.counts; accounts = p.valid.accounts };
  lookups = p.lookups;
  pinned_stay = p.pinned_stay;
  shrinks = p.shrinks;
  same_knobs = p.same_knobs;
}

module _ (ops : EvictOps) (now : ℕ) (max : ℕ) (tier : Tier) where
  consider-Holds :
      (e : Entry) (c : Core) (p : Pick)
      → Holds now c p.best
      → Holds now c (some (tier, e))
      → Holds now c (consider ops tier e p).best
  unfolding consider
  consider-Holds e c p h k = if_elim (Holds now c) (better ops e p) _ _ (λ _. k) (λ _. h)

  visit-Walks :
      (e : Entry) (c : Core) (p : Pick)
      → find_in_table e.key (table tier c.dict) ≡ some e
      → IsValid c
      → Holds now c p.best
      → Walks now c (visit ops now tier e (c, p))
  unfolding visit
  visit-Walks e c p f v h =
      if_elim (Walks now c) (is_due now e) _ _
        (λ due. record {
          drops =
              Drops-bump (ar_entry_free_ex tier e c)
                (Drops-free now tier e c f (lookup-stands tier e c f v.shape) (inr due) v);
          holds = Holds-free now tier e c p.best f due v.shape h;
        })
        (λ alive.
          if_elim (Walks now c) e.pinned _ _ (λ _. record { drops = Drops-refl v; holds = h })
            (λ free. record {
              drops = Drops-refl v;
              holds = consider-Holds e c p h (f, alive, free);
            }))

  -- The rest of the chain still stands after a visit of its head.
  visit-stands :
      (e y : Entry) (c : Core) (p : Pick)
      → find_in_table e.key (table tier c.dict) ≡ some e
      → find_in_table y.key (table tier c.dict) ≡ some y
      → bytes_eq e.key y.key ≡ false
      → find_in_table y.key (table tier (visit ops now tier e (c, p)).0.dict) ≡ some y
  unfolding visit bump_expired
  visit-stands e y c p fe fy ne =
      if_elim (λ (s : Core × Pick). find_in_table y.key (table tier s.0.dict) ≡ some y)
        (is_due now e) _ _ (λ _. stands-free tier tier e y c fe fy ne)
        (λ _.
          if_elim (λ (s : Core × Pick). find_in_table y.key (table tier s.0.dict) ≡ some y) e.pinned
            _ _ (λ _. fy) (λ _. fy))

  walk-Walks :
      (es : List Entry) (c : Core) (p : Pick)
      → ((y : Entry) → Member y es → find_in_table y.key (table tier c.dict) ≡ some y)
      → ((k : Bytes) → weigh_bucket (tally k) es ≤ 1)
      → IsValid c
      → Holds now c p.best
      → Walks now c (walk ops now max tier es (c, p))
  unfolding walk weigh_bucket
  walk-Walks [] c p stand once v h = record { drops = Drops-refl v; holds = h }
  walk-Walks (e ∷ es) c p stand once v h =
      let first = visit-Walks e c p (stand e (inl refl)) v h in
      let rest =
        walk-Walks es (visit ops now tier e (c, p)).0 (visit ops now tier e (c, p)).1
          (λ y m. visit-stands e y c p (stand e (inl refl)) (stand y (inr m)) (distinct y m))
          (λ k. omega (arith, once k)) first.drops.valid first.holds in
      if_elim (Walks now c) (ltb p.samples max) _ _
        (λ _. record { drops = Drops-trans first.drops rest.drops; holds = rest.holds })
        (λ _. record { drops = Drops-refl v; holds = h })
    where
      distinct : (y : Entry) → Member y es → bytes_eq e.key y.key ≡ false
      distinct y m = ground (arith, once y.key, tally-Member y es m)

module _ (rand : ℕ → ℕ) (ops : EvictOps) (now max : ℕ) where
  bucket-Walks :
      (tier : Tier) (c : Core) (p : Pick)
      → IsValid c
      → Holds now c p.best
      → Walks now c (sample_bucket rand ops now max tier (c, p))
  unfolding sample_bucket
  bucket-Walks tier c p v h =
      let t = table tier c.dict in
      let i = rand c.rolls % length t in
      let c1 = with_rolls (c.rolls + 1) c in
      let w =
        walk-Walks ops now max tier (get_or t i []) c1 p
          (λ y m.
            find-Member y t i m (omega (arith, weigh-tier tier (tally y.key) c, v.shape.once y.key))
              (IsPlaced-tier tier c v.shape))
          (λ k.
            omega
              (arith, weigh_bucket-le (tally k) t i, weigh-tier tier (tally k) c, v.shape.once k))
          (record { shape = v.shape; counts = v.counts; accounts = v.accounts })
          (unrolled p.best h) in
      if_elim (Walks now c) (length t == 0) _ _ (λ _. record { drops = Drops-refl v; holds = h })
        (λ _. record {
          drops = record {
            valid = w.drops.valid;
            lookups = w.drops.lookups;
            pinned_stay = w.drops.pinned_stay;
            shrinks = w.drops.shrinks;
            same_knobs = w.drops.same_knobs;
          };
          holds = w.holds;
        })
    where
      unrolled :
          (o : Option (Tier × Entry)) → Holds now c o → Holds now (with_rolls (c.rolls + 1) c) o
      unrolled none h = tt
      unrolled (some (tier', y)) h = h

  -- However long it samples, only due entries are dropped, and the pick is live and not pinned.
  pub pick-Walks :
      (n : ℕ) (odd : Bool) (c : Core) (p : Pick)
      → IsValid c
      → Holds now c p.best
      → Walks now c (sample_pick rand ops now max n odd (c, p))
  unfolding sample_pick
  pick-Walks zero odd c p v h = record { drops = Drops-refl v; holds = h }
  pick-Walks (suc n) odd c p v h =
      let s = sample_bucket rand ops now max (use_cold odd c) (c, p) in
      let first = bucket-Walks (use_cold odd c) c p v h in
      let rest = pick-Walks n (not odd) s.0 s.1 first.drops.valid first.holds in
      if_elim (Walks now c) (ltb p.samples max) _ _
        (λ _. record { drops = Drops-trans first.drops rest.drops; holds = rest.holds })
        (λ _. record { drops = Drops-refl v; holds = h })
