-- ===== src/Core/Scan/Pages.antt =====
-- SCAN and KEYS: the keys of a page, and of all pages one after the other.
use mathlib.Core.List.{append-nil}
use aura_redis.Prelude.{
  ℕ, zero, suc, ◌+◌, ◌-◌, ◌≤◌, ◌<◌, ◌≡◌, ◌≢◌, refl, sym, subst, ap, ◌∙◌, Bool, true, false, if_elim,
  Option, none, some, List, [], ◌∷◌, ◌++◌, leb, ltb, if◌then◌else◌, arith,
}
use aura_redis.Bytes.{Bytes}
use aura_redis.Entry.{Entry}
use aura_redis.Core.{Core, Tier}
use aura_redis.Core.Invariant.{IsValid}
use aura_redis.Core.Scan.{matches, Page, scan_bucket_at, scan_chain, scan_slots}
use aura_redis.Core.Scan.Sweeps.{alive, matching, sweep, scan_chain-sweep}
use aura_redis.Core.Scan.Places.{bucket_at, chain_of, scan_bucket_at-bucket_at}
use aura_redis.Core.Scan.Buckets.{gathered}
use aura_redis.Core.Scan.Walks.{Walked, alive-append, Walked-none, Walked-visit, ahead, a_bucket}

pub matching-append :
    (pat : Bytes) (xs ys : List Entry)
    → matching pat (xs ++ ys) ≡ matching pat xs ++ matching pat ys
unfolding matching
matching-append pat [] ys = refl
matching-append pat (x ∷ xs) ys =
    ap (λ r. if matches pat x.key then x.key ∷ r else r) (matching-append pat xs ys)
    ∙ either (matches pat x.key)
  where
    either :
        (b : Bool)
        → (if b
            then x.key ∷ (matching pat xs ++ matching pat ys)
            else matching pat xs ++ matching pat ys)
          ≡ (if b then x.key ∷ matching pat xs else matching pat xs) ++ matching pat ys
    either true = refl
    either false = refl

-- How many of `n` buckets there are from `idx` on.
abbrev pub reach : ℕ → ℕ → ℕ → ℕ
reach total n idx = if leb n (total - idx) then n else total - idx

no_slots : (total idx : ℕ) → reach total 0 idx ≡ 0
no_slots total idx = ground arith

one_left :
    (total n idx : ℕ) → idx < total → leb total (suc idx) ≡ true → 1 ≡ reach total (suc n) idx
one_left total n idx lt last = ground (arith, last)

one_more : (total n idx : ℕ) → idx < total → suc (reach total n (suc idx)) ≡ reach total (suc n) idx
one_more total n idx lt = ground (arith, lt)

further :
    (total idx k : ℕ)
    → (if ltb (suc idx + k) total then suc idx + k else 0)
      ≡ (if ltb (idx + suc k) total then idx + suc k else 0)
further total idx k = ground arith

module _ (now : ℕ) (pat : Bytes) where
  -- The keys of `n` buckets that a walk from `idx` on collects.
  abbrev pub found_keys : ℕ → ℕ → Core → List Bytes
  found_keys n idx c = matching pat (alive now (gathered n idx c))

  -- A page over `k` buckets.
  pub record Scans (total k idx : ℕ) (c : Core) (p : Page) : Type 0 where
    pub walked : Walked now k idx c p.core
    pub listed : p.keys ≡ found_keys k idx c
    pub next : p.next_cursor ≡ (if ltb (idx + k) total then idx + k else 0)

  resized :
      {total k k' idx : ℕ} {c : Core} {p : Page}
      → k ≡ k'
      → Scans total k idx c p
      → Scans total k' idx c p
  resized {total} {k} {k'} {idx} {c} {p} e s = subst (λ n. Scans total n idx c p) e s

  pub no_keys : (idx : ℕ) (c : Core) → found_keys 0 idx c ≡ []
  unfolding gathered alive matching
  no_keys idx c = refl

  -- All buckets up to `total` are there.
  abbrev pub Reaches : ℕ → ℕ → Core → Type 0
  Reaches total idx c = (j : ℕ) → idx ≤ j → j < total → bucket_at c j ≢ none

  found_keys-visit :
      (k idx : ℕ) (tier : Tier) (es : List Entry) (c : Core)
      → IsValid c
      → bucket_at c idx ≡ some (tier, es)
      → matching pat (alive now es) ++ found_keys k (suc idx) (sweep now tier es c)
        ≡ found_keys (suc k) idx c
  unfolding gathered
  found_keys-visit k idx tier es c v h =
      ap (λ g. matching pat (alive now es) ++ matching pat (alive now g))
        (ahead now k idx c (sweep now tier es c) (a_bucket now idx tier es c v h))
      ∙ sym (matching-append pat (alive now es) (alive now (gathered k (suc idx) c)))
      ∙ ap (matching pat) (sym (alive-append now es (gathered k (suc idx) c)))
      ∙ ap (λ o. matching pat (alive now (chain_of o ++ gathered k (suc idx) c))) (sym h)

  abbrev after_chain : ℕ → ℕ → ℕ → Core × List Bytes → Page
  after_chain total n idx (c1, ks) =
      let rest = scan_slots now pat total n (suc idx) c1 in
      if leb total (suc idx)
      then record { core = c1; next_cursor = 0; keys = ks }
      else record rest { keys = ks ++ rest.keys }

  abbrev at_bucket : ℕ → ℕ → ℕ → Core → Option (Tier × List Entry) → Page
  at_bucket total n idx c o = elim o [
    | none ↦ record { core = c; next_cursor = idx; keys = [] }
    | some (tier, chain) ↦ after_chain total n idx (scan_chain now pat tier chain c)
  ]

  scan_step :
      (total n idx : ℕ) (c : Core)
      → IsValid c
      → idx < total
      → Reaches total idx c
      → ((c1 : Core)
          → IsValid c1
          → suc idx < total
          → Reaches total (suc idx) c1
          → Scans total
              (reach total n (suc idx))
              (suc idx)
              c1
              (scan_slots now pat total n (suc idx) c1))
      → (o : Option (Tier × List Entry)) → bucket_at c idx ≡ o
      → Scans total (reach total (suc n) idx) idx c (at_bucket total n idx c o)
  scan_step total n idx c v lt there ih none h = absurd (there idx (omega arith) lt h)
  scan_step total n idx c v lt there ih (some (tier, es)) h =
      let w = a_bucket now idx tier es c v h in
      let c1 = sweep now tier es c in
      subst (λ x. Scans total (reach total (suc n) idx) idx c (after_chain total n idx x))
        (sym (scan_chain-sweep now tier pat es c))
        (if_elim (Scans total (reach total (suc n) idx) idx c) (leb total (suc idx)) _ _
          (λ last. resized (one_left total n idx lt last) (record {
            walked = Walked-visit now 0 idx c c1 c1 w (Walked-none now (suc idx) c1 w.purges.valid);
            listed =
                sym (append-nil (matching pat (alive now es)))
                ∙ ap (λ ks. matching pat (alive now es) ++ ks) (sym (no_keys (suc idx) c1))
                ∙ found_keys-visit 0 idx tier es c v h;
            next = ground (arith, last);
          }))
          (λ more.
            let k = reach total n (suc idx) in
            let r = ih c1 w.purges.valid (ground (arith, more)) (λ j le small.
              subst (λ o. o ≢ none) (sym (w.buckets_same j (λ q. omega (arith, q, le))))
                (there j (omega (arith, le)) small)) in
            resized (one_more total n idx lt) (record {
              walked = Walked-visit now k idx c c1 _ w r.walked;
              listed =
                  ap (λ ks. matching pat (alive now es) ++ ks) r.listed
                  ∙ found_keys-visit k idx tier es c v h;
              next = r.next ∙ further total idx k;
            })))

  pub scan_slots-Scans :
      (total n idx : ℕ) (c : Core)
      → IsValid c
      → idx < total
      → Reaches total idx c
      → Scans total (reach total n idx) idx c (scan_slots now pat total n idx c)
  unfolding scan_slots
  scan_slots-Scans total zero idx c v lt there = resized (sym (no_slots total idx)) (record {
    walked = Walked-none now idx c v;
    listed = sym (no_keys idx c);
    next = ground (arith, lt);
  })
  scan_slots-Scans total (suc n) idx c v lt there =
      scan_step total n idx c v lt there
        (λ c1 v1 lt1 there1. scan_slots-Scans total n (suc idx) c1 v1 lt1 there1)
        (scan_bucket_at c idx) (sym (scan_bucket_at-bucket_at c idx v))
