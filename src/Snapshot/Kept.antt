-- ===== src/Snapshot/Kept.antt =====
-- Which entries a save writes, by key.
use aura_redis.Prelude.{
  ℕ, zero, suc, ◌+◌, ◌≤◌, ◌≡◌, refl, ap, ◌∙◌, false, Bool-cases, inl, inr, Option, none, some, List,
  [], ◌∷◌, ◌++◌, get_or, length, ◌==◌, arith,
}
use aura_redis.Bytes.{Bytes, bytes_eq}
use aura_redis.Entry.{Entry}
use aura_redis.Table.{Table, slot, find_in_bucket, find_in_table}
use aura_redis.Table.Weight.{weigh_bucket, weigh}
use aura_redis.Table.Search.{tally, find_in_bucket-none, weigh_bucket-le}
use aura_redis.Table.Rehash.{or_else}
use aura_redis.Table.Placed.{IsPlaced}
use aura_redis.Core.{Core}
use aura_redis.Core.Find.{is_due}
use aura_redis.Core.Find.Keeps.{live}
use aura_redis.Core.Invariant.{IsValid, lookup}
use aura_redis.Snapshot.Write.{chained, live_entries}
use aura_redis.Snapshot.RoundTrip.{saved_entries}

weigh-append :
    (m : Entry → ℕ) (xs ys : List Entry)
    → weigh_bucket m (xs ++ ys) ≡ weigh_bucket m xs + weigh_bucket m ys
unfolding weigh_bucket
weigh-append m [] ys = omega arith
weigh-append m (x ∷ xs) ys = omega (arith, weigh-append m xs ys)

weigh-chained : (m : Entry → ℕ) (t : Table) → weigh_bucket m (chained t) ≡ weigh m t
unfolding weigh_bucket weigh chained
weigh-chained m [] = refl
weigh-chained m (b ∷ t) = omega (arith, weigh-append m b (chained t), weigh-chained m t)

live_entries-le :
    (m : Entry → ℕ) (now : ℕ) (es : List Entry)
    → weigh_bucket m (live_entries now es) ≤ weigh_bucket m es
unfolding weigh_bucket live_entries
live_entries-le m now [] = omega arith
live_entries-le m now (e ∷ es) = ground (arith, live_entries-le m now es)

module _ (k : Bytes) where
  tally-pos :
      (es : List Entry) (e : Entry) → find_in_bucket k es ≡ some e → 1 ≤ weigh_bucket (tally k) es
  unfolding find_in_bucket weigh_bucket
  tally-pos [] e h = cc
  tally-pos (x ∷ es) e h = ground (arith, tally-pos es e)

  find-append :
      (xs ys : List Entry)
      → find_in_bucket k (xs ++ ys) ≡ or_else (find_in_bucket k xs) (find_in_bucket k ys)
  unfolding find_in_bucket
  find-append [] ys = refl
  find-append (x ∷ xs) ys = elim (Bool-cases (bytes_eq x.key k)) [
    | inl own ↦ rw own refl
    | inr other ↦ rw other (find-append xs ys)
  ]

  find-live :
      (now : ℕ) (es : List Entry)
      → weigh_bucket (tally k) es ≤ 1
      → find_in_bucket k (live_entries now es) ≡ live now (find_in_bucket k es)
  unfolding find_in_bucket live_entries weigh_bucket
  find-live now [] h = refl
  find-live now (e ∷ es) h = elim (Bool-cases (is_due now e)) [
    | inr stays ↦ elim (Bool-cases (bytes_eq e.key k)) [
      | inl own ↦ rw (stays, own) (rw stays refl)
      | inr other ↦ rw (stays, other) ((find-live now es (ground (arith, h, other))))
    ]
    | inl due ↦ elim (Bool-cases (bytes_eq e.key k)) [
      | inl own ↦
          rw (due, own)
            (find-live now es (ground (arith, h))
              ∙ ap (live now) (find_in_bucket-none k es (ground (arith, h, own)))
              ∙ rw due refl)
      | inr other ↦ rw (due, other) (find-live now es (ground (arith, h, other)))
    ]
  ]

  find-chained_at :
      (t : Table) (i : ℕ)
      → weigh (tally k) t ≡ weigh_bucket (tally k) (get_or t i [])
      → find_in_bucket k (chained t) ≡ find_in_bucket k (get_or t i [])
  unfolding chained weigh
  find-chained_at [] i h = refl
  find-chained_at (b ∷ t) zero h =
      let rest = find_in_bucket-none k (chained t) (omega (arith, h, weigh-chained (tally k) t)) in
      find-append b (chained t)
      ∙ ap (or_else (find_in_bucket k b)) rest
      ∙ or_none (find_in_bucket k b)
    where
      or_none : (o : Option Entry) → or_else o none ≡ o
      or_none none = refl
      or_none (some e) = refl
  find-chained_at (b ∷ t) (suc i) h =
      let below = weigh_bucket-le (tally k) t i in
      let first = find_in_bucket-none k b (omega (arith, h, below)) in
      find-append b (chained t)
      ∙ ap (λ o. or_else o (find_in_bucket k (chained t))) first
      ∙ find-chained_at t i (omega (arith, h, below))

  find-chained : (t : Table) → IsPlaced t → find_in_bucket k (chained t) ≡ find_in_table k t
  unfolding find_in_table chained find_in_bucket
  find-chained [] p = refl
  find-chained (b ∷ t) p =
      let there : (length (b ∷ t) == 0) ≡ false = ground arith in
      rw there (find-chained_at (b ∷ t) (slot k (b ∷ t)) (p.at k))

  pub saved_once :
      (now : ℕ) (c : Core) → IsValid c → weigh_bucket (tally k) (saved_entries now c) ≤ 1
  saved_once now c v = omega (
    arith,
    v.shape.once k,
    weigh-append (tally k) (live_entries now (chained c.buckets))
        (live_entries now (chained c.cold_buckets)),
    live_entries-le (tally k) now (chained c.buckets),
    live_entries-le (tally k) now (chained c.cold_buckets),
    weigh-chained (tally k) c.buckets,
    weigh-chained (tally k) c.cold_buckets,
  )

  -- A save writes the live entry of a key.
  pub find-saved :
      (now : ℕ) (c : Core)
      → IsValid c
      → find_in_bucket k (saved_entries now c) ≡ live now (lookup k c.dict)
  unfolding lookup
  find-saved now c v =
      let hot : List Entry = chained c.buckets in
      let cold : List Entry = chained c.cold_buckets in
      let sums : weigh_bucket (tally k) hot + weigh_bucket (tally k) cold ≤ 1 = omega (
        arith,
        v.shape.once k,
        weigh-chained (tally k) c.buckets,
        weigh-chained (tally k) c.cold_buckets,
      ) in
      let lives : or_else (find_in_bucket k (live_entries now hot))
            (find_in_bucket k (live_entries now cold))
          ≡ or_else (live now (find_in_bucket k hot)) (live now (find_in_bucket k cold)) =
        rw (find-live now hot (omega (arith, sums)), find-live now cold (omega (arith, sums)))
          refl in
      let tables : live now (or_else (find_in_bucket k hot) (find_in_bucket k cold))
          ≡ live now (or_else (find_in_table k c.buckets) (find_in_table k c.cold_buckets)) =
        rw
          (
            find-chained c.buckets v.shape.placed_hot,
            find-chained c.cold_buckets v.shape.placed_cold,
          )
          refl in
      find-append (live_entries now hot) (live_entries now cold)
      ∙ lives
      ∙ by_tier (find_in_bucket k hot) (find_in_bucket k cold) (either sums)
      ∙ tables
    where
      either :
          weigh_bucket (tally k) (chained c.buckets)
              + weigh_bucket (tally k) (chained c.cold_buckets)
            ≤ 1
          → (e : Entry) → find_in_bucket k (chained c.buckets) ≡ some e
          → find_in_bucket k (chained c.cold_buckets) ≡ none
      either sums e f =
          find_in_bucket-none k (chained c.cold_buckets)
            (omega (arith, sums, tally-pos (chained c.buckets) e f))

      by_tier :
          (h d : Option Entry)
          → ((e : Entry) → h ≡ some e → d ≡ none)
          → or_else (live now h) (live now d) ≡ live now (or_else h d)
      by_tier none d n = refl
      by_tier (some e) d n = elim (Bool-cases (is_due now e)) [
        | inl due ↦ rw (due, n e refl) refl
        | inr stays ↦ rw stays refl
      ]
