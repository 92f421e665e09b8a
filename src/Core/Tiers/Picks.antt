-- ===== src/Core/Tiers/Picks.antt =====
-- About the entry that `demote_one_hot_to_cold` of native/src/ar_core.c samples.
use aura_redis.Prelude.{
  ℕ, zero, suc, ◌+◌, ◌≤◌, ◌%◌, ◌≡◌, refl, ◌∙◌, ◌⊎◌, inl, inr, Bool-cases, Option, none, some, List,
  [], ◌∷◌, get_or, length, ltb,
}
use aura_redis.Entry.{Entry}
use aura_redis.Table.{Table, find_in_table}
use aura_redis.Table.Weight.{weigh}
use aura_redis.Table.Search.{tally}
use aura_redis.Table.Placed.{IsPlaced}
use aura_redis.Table.Member.{Member, find-Member}
use aura_redis.Core.Tiers.{Sample, no_sample, sample_one, sample_chain, sample_hot}

-- Where a sample may have its best entry from.
abbrev From : List Entry → Option Entry → Option Entry → Type 0
From es old new = (new ≡ old) ⊎ ((e : Entry) × (new ≡ some e) × Member e es)

From-sample_chain : (es : List Entry) (s : Sample) → From es s.best (sample_chain es s).best
unfolding sample_chain
From-sample_chain [] s = inl refl
From-sample_chain (e ∷ es) s = elim (Bool-cases (ltb s.samples 16)) [
  | inl go ↦ rw go (step (From-sample_chain es (sample_one e s)))
  | inr stop ↦ rw stop (inl refl)
]
  where
    step :
        From es (sample_one e s).best (sample_chain es (sample_one e s)).best
        → From (e ∷ es) s.best (sample_chain es (sample_one e s)).best
    step (inr (x, p, m)) = inr (x, p, inr m)
    step (inl p) = elim (Bool-cases (ltb e.last_access s.best_t)) [
      | inl newer ↦ inr (e, p ∙ (unfold sample_one in rw newer refl), inl refl)
      | inr older ↦ inl (p ∙ (unfold sample_one in rw older refl))
    ]

-- What the sample holds is found under its key.
abbrev pub Stands : Table → Option Entry → Type 0
Stands t none = Unit
Stands t (some e) = find_in_table e.key t ≡ some e

module _ (rand : ℕ → ℕ) (t : Table) (placed : IsPlaced t)
    (once : (e : Entry) → weigh (tally e.key) t ≤ 1) where
  Stands-chain :
      (i : ℕ) (s : Sample) → Stands t s.best → Stands t (sample_chain (get_or t i []) s).best
  Stands-chain i s h = elim (From-sample_chain (get_or t i []) s) [
    | inl p ↦ rw p h
    | inr (e, p, m) ↦ rw p (find-Member e t i m (once e) placed)
  ]

  Stands-hot :
      (n rolls : ℕ) (s : Sample) → Stands t s.best → Stands t (sample_hot rand n t rolls s).1.best
  unfolding sample_hot
  Stands-hot zero rolls s h = h
  Stands-hot (suc n) rolls s h = elim (Bool-cases (ltb s.samples 16)) [
    | inl go ↦ rw go (Stands-hot n (rolls + 1) _ (Stands-chain (rand rolls % length t) s h))
    | inr stop ↦ rw stop h
  ]

  pub Stands-sample : (n rolls : ℕ) → Stands t (sample_hot rand n t rolls no_sample).1.best
  Stands-sample n rolls = Stands-hot n rolls no_sample tt
