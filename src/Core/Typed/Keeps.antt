-- ===== src/Core/Typed/Keeps.antt =====
-- What a command may do to the keys that it is not about.
use aura_redis.Prelude.{ℕ, ◌≡◌, ap, ◌∙◌, ◌⊎◌, inl, inr, false, Option, none}
use aura_redis.Bytes.{Bytes, bytes_eq}
use aura_redis.Entry.{Entry}
use aura_redis.Core.{Core, Tier}
use aura_redis.Core.Watch.{ar_watch_touch}
use aura_redis.Core.Find.Keeps.{Finds}
use aura_redis.Core.Evict.{ar_maybe_evict_pub}
use aura_redis.Core.Evict.Keeps.{Drops-maybe_evict_pub}
use aura_redis.Core.Set.Steps.{Content, content, view, Rewrites}
use aura_redis.Core.Set.Sets.{calm-rounds}
use aura_redis.Core.Invariant.{IsValid}

-- The invariant holds, and the other keys have what they had, unless eviction has dropped them.
pub record Spares (key : Bytes) (c c' : Core) : Type 0 where
  pub valid : IsValid c'
  pub others : (k : Bytes) → bytes_eq key k ≡ false → (view k c' ≡ view k c) ⊎ (view k c' ≡ none)
  pub calm : c.maxmemory ≡ 0 → (k : Bytes) → bytes_eq key k ≡ false → view k c' ≡ view k c
  pub same_knobs : c'.knobs ≡ c.knobs

pub Spares-trans : {key : Bytes} {a b c : Core} → Spares key a b → Spares key b c → Spares key a c
Spares-trans {key} {a} {b} {c} p q = record {
  valid = q.valid;
  others = λ k ne. join k (p.others k ne) (q.others k ne);
  calm = λ h k ne. q.calm (ap (λ n. n.maxmemory) p.same_knobs ∙ h) k ne ∙ p.calm h k ne;
  same_knobs = q.same_knobs ∙ p.same_knobs;
}
  where
    join :
        (k : Bytes)
        → (view k b ≡ view k a) ⊎ (view k b ≡ none)
        → (view k c ≡ view k b) ⊎ (view k c ≡ none)
        → (view k c ≡ view k a) ⊎ (view k c ≡ none)
    join k x (inr gone) = inr gone
    join k (inl x) (inl y) = inl (y ∙ x)
    join k (inr x) (inl y) = inr (y ∙ x)

pub Spares-Rewrites :
    {key : Bytes} {o : Option Content} {c d : Core} → Rewrites key o c d → Spares key c d
Spares-Rewrites r = record {
  valid = r.valid;
  others = λ k ne. inl (r.others k ne);
  calm = λ h k ne. r.others k ne;
  same_knobs = r.same_knobs;
}

pub Spares-Finds :
    {now : ℕ} {key : Bytes} {c : Core} {r : Core × Option (Tier × Entry)}
    → Finds now key c r
    → Spares key c r.0
Spares-Finds s = record {
  valid = s.valid;
  others = λ k ne. inl (ap content (s.others k ne));
  calm = λ h k ne. ap content (s.others k ne);
  same_knobs = s.same_knobs;
}

module _ (rand : ℕ → ℕ) (now : ℕ) where
  pub calm-maybe_evict_pub : (c : Core) → c.maxmemory ≡ 0 → ar_maybe_evict_pub rand now c ≡ c
  unfolding ar_maybe_evict_pub
  calm-maybe_evict_pub c h = calm-rounds rand now _ c h

  pub Spares-evict :
      (key : Bytes) (c : Core) → IsValid c → Spares key c (ar_maybe_evict_pub rand now c)
  Spares-evict key c v =
      let p = Drops-maybe_evict_pub rand now c v in
      record {
        valid = p.valid;
        others = λ k ne. elim (p.lookups k) [
          | inl same ↦ inl (ap content same)
          | inr gone ↦ inr (ap content gone)
        ];
        calm = λ h k ne. ap (view k) (calm-maybe_evict_pub c h);
        same_knobs = p.same_knobs;
      }

  pub Spares-touch :
      (key : Bytes) (c d : Core) → Spares key c d → Spares key c (ar_watch_touch key d)
  unfolding ar_watch_touch
  Spares-touch key c d p = record {
    valid = record { shape = p.valid.shape; counts = p.valid.counts; accounts = p.valid.accounts };
    others = p.others;
    calm = p.calm;
    same_knobs = p.same_knobs;
  }
