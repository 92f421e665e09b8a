-- ===== src/Core/Set/Sets.antt =====
-- What is asked of SET, with the search at its start and the eviction at its end.
use aura_redis.Prelude.{ℕ, zero, suc, ◌≡◌, refl, ap, ◌∙◌, false, ◌⊎◌, inl, inr, Option, none, arith}
use aura_redis.Bytes.{Bytes, bytes_eq}
use aura_redis.Entry.{Entry}
use aura_redis.Core.{Core, Tier}
use aura_redis.Core.Watch.{ar_watch_touch}
use aura_redis.Core.Find.Keeps.{Finds}
use aura_redis.Core.Evict.{should_evict, evict_rounds, maybe_evict}
use aura_redis.Core.Evict.Keeps.{Drops-maybe_evict}
use aura_redis.Core.Set.Steps.{Content, content, view, Rewrites}
use aura_redis.Core.Set.Touches.{Same}
use aura_redis.Core.Invariant.{IsValid}

pub Rewrites-trans :
    {key : Bytes} {o o' : Option Content} {a b c : Core}
    → Rewrites key o a b
    → Rewrites key o' b c
    → Rewrites key o' a c
Rewrites-trans p q = record {
  valid = q.valid;
  at_key = q.at_key;
  others = λ k ne. q.others k ne ∙ p.others k ne;
  same_knobs = q.same_knobs ∙ p.same_knobs;
}

pub Rewrites-Same :
    {key : Bytes} {o : Option Content} {a b c : Core}
    → Rewrites key o a b
    → Same b c
    → Rewrites key o a c
Rewrites-Same {key} p q = record {
  valid = q.valid;
  at_key = q.views key ∙ p.at_key;
  others = λ k ne. q.views k ∙ p.others k ne;
  same_knobs = q.same_knobs ∙ p.same_knobs;
}

-- What SET promises: `o` is what its key then has, unless eviction drops it again.
pub record Sets (key : Bytes) (o : Option Content) (c c' : Core) : Type 0 where
  pub valid : IsValid c'
  pub at_key : (view key c' ≡ o) ⊎ (view key c' ≡ none)
  pub others : (k : Bytes) → bytes_eq key k ≡ false → (view k c' ≡ view k c) ⊎ (view k c' ≡ none)
  pub calm_key : c.maxmemory ≡ 0 → view key c' ≡ o
  pub calm_others : c.maxmemory ≡ 0 → (k : Bytes) → bytes_eq key k ≡ false → view k c' ≡ view k c
  pub same_knobs : c'.knobs ≡ c.knobs

module _ (rand : ℕ → ℕ) (now : ℕ) where
  -- Without a memory limit nothing is evicted.
  pub calm-rounds : (n : ℕ) (c : Core) → c.maxmemory ≡ 0 → evict_rounds rand now n c ≡ c
  unfolding evict_rounds should_evict
  calm-rounds zero c h = refl
  calm-rounds (suc n) c h = let off : should_evict rand c ≡ false = ground (arith, h) in rw off refl

  calm-maybe_evict : (c : Core) → c.maxmemory ≡ 0 → maybe_evict rand now c ≡ c
  unfolding maybe_evict
  calm-maybe_evict c h = calm-rounds _ c h

  pub evicted-Sets :
      (key : Bytes) (o : Option Content) (c d : Core)
      → Rewrites key o c d
      → Sets key o c (ar_watch_touch key (maybe_evict rand now d))
  unfolding ar_watch_touch
  evicted-Sets key o c d r =
      let p = Drops-maybe_evict rand now d r.valid in
      let calm =
        λ (h : c.maxmemory ≡ 0). calm-maybe_evict d (ap (λ n. n.maxmemory) r.same_knobs ∙ h) in
      record {
        valid = record {
          shape = p.valid.shape;
          counts = p.valid.counts;
          accounts = p.valid.accounts;
        };
        at_key = elim (p.lookups key) [
          | inl same ↦ inl (ap content same ∙ r.at_key)
          | inr gone ↦ inr (ap content gone)
        ];
        others = λ k ne. elim (p.lookups k) [
          | inl same ↦ inl (ap content same ∙ r.others k ne)
          | inr gone ↦ inr (ap content gone)
        ];
        calm_key = λ h. ap (view key) (calm h) ∙ r.at_key;
        calm_others = λ h k ne. ap (view k) (calm h) ∙ r.others k ne;
        same_knobs = p.same_knobs ∙ r.same_knobs;
      }

pub after_find :
    {now : ℕ} {key : Bytes} {o : Option Content} {d : Core} (c : Core)
    (r : Core × Option (Tier × Entry))
    → Finds now key c r
    → Sets key o r.0 d
    → Sets key o c d
after_find c r s p = record {
  valid = p.valid;
  at_key = p.at_key;
  others = λ k ne. elim (p.others k ne) [
    | inl same ↦ inl (same ∙ ap content (s.others k ne))
    | inr gone ↦ inr gone
  ];
  calm_key = λ h. p.calm_key (ap (λ n. n.maxmemory) s.same_knobs ∙ h);
  calm_others = λ h k ne.
      p.calm_others (ap (λ n. n.maxmemory) s.same_knobs ∙ h) k ne ∙ ap content (s.others k ne);
  same_knobs = p.same_knobs ∙ s.same_knobs;
}
