-- ===== src/Core/Evict/Keeps.antt =====
-- About `evict_one`, `maybe_evict` and `ar_maybe_evict_pub` of native/src/ar_core.c and ar_types.c.
use aura_redis.Prelude.{ℕ, zero, suc, Bool, false, ◌||◌, inl, if_elim, Option, none, some, ◌==◌}
use aura_redis.Entry.{Entry}
use aura_redis.Core.{Core, Tier}
use aura_redis.Core.Evict.{
  no_pick, max_samples, is_noop, sampled, evict_picked, evict_one, should_evict, evict_rounds,
  maybe_evict, ar_maybe_evict_pub,
}
use aura_redis.Core.Evict.Drops.{Drops, Drops-refl, Drops-trans, Drops-free, lookup-stands}
use aura_redis.Core.Evict.Walk.{Holds, pick-Walks}
use aura_redis.Core.Invariant.{IsValid}

module _ (rand : ℕ → ℕ) (now : ℕ) where
  Drops-evict_picked :
      (c : Core) (o : Option (Tier × Entry))
      → IsValid c
      → Holds now c o
      → Drops now c (evict_picked rand c o).0
  unfolding evict_picked
  Drops-evict_picked c none v h = Drops-refl v
  Drops-evict_picked c (some (tier, e)) v h =
      let d = Drops-free now tier e c h.0 (lookup-stands tier e c h.0 v.shape) (inl h.2) v in
      record {
        valid = record {
          shape = d.valid.shape;
          counts = d.valid.counts;
          accounts = d.valid.accounts;
        };
        lookups = d.lookups;
        pinned_stay = d.pinned_stay;
        shrinks = d.shrinks;
        same_knobs = d.same_knobs;
      }

  pub Drops-evict_one : (c : Core) → IsValid c → Drops now c (evict_one rand now c).0
  unfolding evict_one
  Drops-evict_one c v =
      let w = pick-Walks rand c.evict now (max_samples c) 128 false c no_pick v tt in
      if_elim (λ (r : Core × Bool). Drops now c r.0) (is_noop rand c.evict || c.nkeys == 0) _ _
        (λ _. Drops-refl v)
        (λ _. Drops-trans w.drops (
          Drops-evict_picked (sampled rand now c).0 (sampled rand now c).1.best w.drops.valid
            w.holds))

  Drops-evict_rounds : (n : ℕ) (c : Core) → IsValid c → Drops now c (evict_rounds rand now n c)
  unfolding evict_rounds
  Drops-evict_rounds zero c v = Drops-refl v
  Drops-evict_rounds (suc n) c v =
      let one = Drops-evict_one c v in
      let rest = Drops-evict_rounds n (evict_one rand now c).0 one.valid in
      if_elim (Drops now c) (should_evict rand c) _ _
        (λ _.
          if_elim (Drops now c) (evict_one rand now c).1 _ _ (λ _. Drops-trans one rest) (λ _. one))
        (λ _. Drops-refl v)

  -- Where the invariant holds and every reading of the clock in one eviction gives the same time,
  -- `maybe_evict`, under every kernel and whatever `rand()` returns, keeps it, leaves each key as
  -- it was or drops it, keeps every live pinned entry, and lets no sum grow.
  pub Drops-maybe_evict : (c : Core) → IsValid c → Drops now c (maybe_evict rand now c)
  unfolding maybe_evict
  Drops-maybe_evict c v = Drops-evict_rounds _ c v

  pub Drops-maybe_evict_pub : (c : Core) → IsValid c → Drops now c (ar_maybe_evict_pub rand now c)
  unfolding ar_maybe_evict_pub
  Drops-maybe_evict_pub c v = Drops-evict_rounds _ c v
