-- ===== src/Core/Keys/Purge.antt =====
-- About the active expiry, `ar_core_active_expire` of native/src/ar_core.c.
use aura_redis.Prelude.{
  ℕ, zero, suc, ◌+◌, ◌%◌, ◌≡◌, refl, ◌∙◌, Bool, true, false, not, ◌||◌, inl, inr, if_elim,
  Bool-cases, Option, none, some, List, [], ◌∷◌, length, get_or, ltb, arith, if◌then◌else◌, ◌==◌,
}
use aura_redis.Bytes.{Bytes, bytes_eq, eq_of_bytes_eq}
use aura_redis.Entry.{Entry}
use aura_redis.Table.{find_in_table}
use aura_redis.Table.Member.{Member, find-Member}
use aura_redis.Table.Search.{tally}
use aura_redis.Core.{Core, Tier}
use aura_redis.Core.Free.{ar_entry_free_ex, table}
use aura_redis.Core.Free.Keeps.{free-IsValid, lookup-free}
use aura_redis.Core.Find.{is_due, bump_expired}
use aura_redis.Core.Find.Keeps.{live}
use aura_redis.Core.Evict.Drops.{lookup-stands, weigh-tier, IsPlaced-tier}
use aura_redis.Core.Keys.{
  first_due, expire_picked, expire_round, expire_rounds, expire_tier, ar_core_active_expire,
}
use aura_redis.Core.Invariant.{IsValid, lookup}

-- From `c` to `c'` only due entries have gone.
pub record Purges (now : ℕ) (c c' : Core) : Type 0 where
  pub valid : IsValid c'
  pub lives : (k : Bytes) → live now (lookup k c'.dict) ≡ live now (lookup k c.dict)

pub Purges-refl : {now : ℕ} {c : Core} → IsValid c → Purges now c c
Purges-refl v = record { valid = v; lives = λ k. refl }

pub Purges-trans : {now : ℕ} {a b c : Core} → Purges now a b → Purges now b c → Purges now a c
Purges-trans p q = record { valid = q.valid; lives = λ k. q.lives k ∙ p.lives k }

first_due-Member :
    (now : ℕ) (es : List Entry) (e : Entry)
    → first_due now es ≡ some e
    → Member e es × (is_due now e ≡ true)
unfolding first_due
first_due-Member now [] e h = absurd (ground arith)
first_due-Member now (x ∷ es) e h = elim (Bool-cases (is_due now x)) [
  | inl due ↦ (inl (ground (arith, due)), ground (arith, due))
  | inr alive ↦ let m = first_due-Member now es e (ground (arith, alive)) in (inr m.0, m.1)
]

module _ (now : ℕ) where
  pub Purges-free :
      (tier : Tier) (e : Entry) (c : Core)
      → find_in_table e.key (table tier c.dict) ≡ some e
      → is_due now e ≡ true
      → IsValid c
      → Purges now c (bump_expired (ar_entry_free_ex tier e c))
  unfolding bump_expired
  Purges-free tier e c f due v =
      let w = free-IsValid tier e c f v in
      let stands = lookup-stands tier e c f v.shape in
      record {
        valid = record { shape = w.shape; counts = w.counts; accounts = w.accounts };
        lives = λ k. rw (lookup-free tier e c k f v.shape) (elim (Bool-cases (bytes_eq e.key k)) [
          | inr other ↦ rw other refl
          | inl same ↦ rw (same, ← eq_of_bytes_eq e.key k same, stands) (rw due refl)
        ]);
      }

  expire_picked-Purges :
      (tier : Tier) (o : Option Entry) (c : Core) (freed : ℕ)
      → ((e : Entry)
          → o ≡ some e
          → (find_in_table e.key (table tier c.dict) ≡ some e) × (is_due now e ≡ true))
      → IsValid c
      → Purges now c (expire_picked tier o (c, freed)).0
  unfolding expire_picked
  expire_picked-Purges tier none c freed h v = Purges-refl v
  expire_picked-Purges tier (some e) c freed h v =
      let p = h e refl in Purges-free tier e c p.0 p.1 v

  module _ (rand : ℕ → ℕ) where
    expire_round-Purges :
        (tier : Tier) (c : Core) (freed : ℕ)
        → IsValid c
        → Purges now c (expire_round rand now tier (c, freed)).0
    unfolding expire_round
    expire_round-Purges tier c freed v =
        let t = table tier c.dict in
        let i = rand c.rolls % length t in
        let c1 = record c { rolls = c.rolls + 1 } in
        let p =
          expire_picked-Purges tier (first_due now (get_or t i [])) c1 freed
            (λ e h.
              let m = first_due-Member now (get_or t i []) e h in
              (
                find-Member e t i m.0
                    (omega (arith, weigh-tier tier (tally e.key) c, v.shape.once e.key))
                    (IsPlaced-tier tier c v.shape),
                m.1,
              ))
            (record { shape = v.shape; counts = v.counts; accounts = v.accounts }) in
        if_elim (λ (r : Core × ℕ). Purges now c r.0) (length t == 0) _ _ (λ _. Purges-refl v)
          (λ _. record { valid = p.valid; lives = p.lives })

    expire_rounds-Purges :
        (n : ℕ) (odd : Bool) (c : Core) (freed : ℕ)
        → IsValid c
        → Purges now c (expire_rounds rand now n odd (c, freed)).0
    unfolding expire_rounds
    expire_rounds-Purges zero odd c freed v = Purges-refl v
    expire_rounds-Purges (suc n) odd c freed v =
        let tier = expire_tier rand now odd c in
        let first = expire_round-Purges tier c freed v in
        let d = expire_round rand now tier (c, freed) in
        Purges-trans first (expire_rounds-Purges n (not odd) d.0 d.1 first.valid)

    -- Where the invariant holds, the active expiry, whatever buckets `rand()` picks, keeps it and
    -- every entry that is not due.
    pub active_expire-Purges :
        (effort : ℕ) (c : Core)
        → IsValid c
        → Purges now c (ar_core_active_expire rand now effort c).0
    unfolding ar_core_active_expire
    active_expire-Purges effort c v =
        if_elim (λ (r : Core × ℕ). Purges now c r.0) (effort == 0 || c.nkeys == 0) _ _
          (λ _. Purges-refl v)
          (λ _. expire_rounds-Purges (if ltb 64 effort then 64 else effort) false c 0 v)
