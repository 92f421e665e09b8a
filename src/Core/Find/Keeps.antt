-- ===== src/Core/Find/Keeps.antt =====
-- About the search with lazy expiry, `ar_find_entry_ex` of native/src/ar_core.c.
use aura_redis.Prelude.{
  ℕ, ◌≤◌, ◌≡◌, refl, true, false, Option, none, some, inl, inr, Bool-cases, Option-cases,
  if◌then◌else◌, arith,
}
use aura_redis.Bytes.{Bytes, bytes_eq, bytes_eq_refl, bytes_eq_iff}
use aura_redis.Entry.{Entry}
use aura_redis.Table.{find_in_table}
use aura_redis.Table.Search.{find-key, find-own, find_in_table-none}
use aura_redis.Table.Weight.{find-pos}
use aura_redis.Core.{Core, Tier, hot, cold, hot_cold}
use aura_redis.Core.Free.{ar_entry_free_ex, table}
use aura_redis.Core.Free.Keeps.{free-IsValid, lookup-free, tally-find, total-free}
use aura_redis.Core.Find.{is_due, bump_expired, check_due, find_cold, ar_find_entry_ex}
use aura_redis.Core.Invariant.{IsValid, lookup, total}

-- What a client can see of a stored entry: nothing, once it is due.
abbrev pub live : ℕ → Option Entry → Option Entry
live now none = none
live now (some e) = if is_due now e then none else some e

abbrev pub entry_of : Option (Tier × Entry) → Option Entry
entry_of none = none
entry_of (some (tier, e)) = some e

-- The entry that was returned stands in the table of the tier that was returned.
abbrev pub Located : Core → Option (Tier × Entry) → Type 0
Located c none = Unit
Located c (some (tier, e)) = find_in_table e.key (table tier c.dict) ≡ some e

-- What a search promises of the state it leaves and of its result.
pub record Finds (now : ℕ) (key : Bytes) (c : Core) (r : Core × Option (Tier × Entry))
    : Type 0 where
  pub valid : IsValid r.0
  pub located : Located r.0 r.1
  pub result : entry_of r.1 ≡ live now (lookup key c.dict)
  pub stored : lookup key r.0.dict ≡ live now (lookup key c.dict)
  pub others : (k : Bytes) → bytes_eq key k ≡ false → lookup k r.0.dict ≡ lookup k c.dict
  pub shrinks : (m : Entry → ℕ) → total m r.0.dict ≤ total m c.dict
  pub same_knobs : r.0.knobs ≡ c.knobs
  pub same_layout : r.0.layout ≡ c.layout

module _ (now : ℕ) (key : Bytes) where
  free_due-Finds :
      (tier : Tier) (e : Entry) (c : Core)
      → find_in_table key (table tier c.dict) ≡ some e
      → lookup key c.dict ≡ some e
      → is_due now e ≡ true
      → IsValid c
      → Finds now key c (bump_expired (ar_entry_free_ex tier e c), none)
  unfolding bump_expired
  free_due-Finds tier e c f l due v =
      let k : e.key ≡ key = find-key key (table tier c.dict) e f in
      let f' = find-own key (table tier c.dict) e f in
      let v' = free-IsValid tier e c f' v in
      let same : bytes_eq e.key key ≡ true = rw k (bytes_eq_refl key) in
      record {
        valid = record { shape = v'.shape; counts = v'.counts; accounts = v'.accounts };
        located = tt;
        result = rw (l, due) refl;
        stored = rw (l, due) (rw (lookup-free tier e c key f' v.shape) (rw same refl));
        others = λ j ne.
            rw (lookup-free tier e c j f' v.shape)
              (ground (arith, k, ne, bytes_eq_iff e.key j, bytes_eq_iff key j));
        shrinks = λ m. omega (arith, total-free e c m tier f');
        same_knobs = unfold ar_entry_free_ex in refl;
        same_layout = unfold ar_entry_free_ex in refl;
      }

  check_due-Finds :
      (tier : Tier) (e : Entry) (c : Core)
      → find_in_table key (table tier c.dict) ≡ some e
      → lookup key c.dict ≡ some e
      → IsValid c
      → Finds now key c (check_due now tier e c)
  unfolding check_due
  check_due-Finds tier e c f l v = elim (Bool-cases (is_due now e)) [
    | inl due ↦ rw due (free_due-Finds tier e c f l due v)
    | inr alive ↦ rw alive (record {
      valid = v;
      located = find-own key (table tier c.dict) e f;
      result = rw (l, alive) refl;
      stored = rw (l, alive) refl;
      others = λ k ne. refl;
      shrinks = λ m. omega arith;
      same_knobs = refl;
      same_layout = refl;
    })
  ]

  find_cold-none :
      (c : Core) → find_in_table key c.cold_buckets ≡ none → find_cold now key c ≡ (c, none)
  unfolding find_cold
  find_cold-none c h = ground (arith, h)

  nothing-Finds : (c : Core) → lookup key c.dict ≡ none → IsValid c → Finds now key c (c, none)
  nothing-Finds c l v = record {
    valid = v;
    located = tt;
    result = rw l refl;
    stored = rw l refl;
    others = λ k ne. refl;
    shrinks = λ m. omega arith;
    same_knobs = refl;
    same_layout = refl;
  }

  find_cold-hit :
      (c : Core) (e : Entry)
      → c.layout ≡ hot_cold
      → find_in_table key c.cold_buckets ≡ some e
      → find_cold now key c ≡ check_due now cold e c
  unfolding find_cold
  find_cold-hit c e l h = ground arith

  find_cold-Finds :
      (c : Core)
      → find_in_table key c.buckets ≡ none
      → IsValid c
      → Finds now key c (find_cold now key c)
  unfolding lookup
  find_cold-Finds c h v = elim (Option-cases (find_in_table key c.cold_buckets)) [
    | inl n ↦ rw (find_cold-none c n) (nothing-Finds c (rw (h, n) refl) v)
    | inr (e, f) ↦
        let tiers : c.layout ≡ hot_cold =
          ground (arith, find-pos key c.cold_buckets e f, v.shape.cold_null) in
        rw (find_cold-hit c e tiers f) (check_due-Finds cold e c f (rw (h, f) refl) v)
  ]

  find-miss :
      (c : Core)
      → find_in_table key c.buckets ≡ none
      → ar_find_entry_ex now key c ≡ find_cold now key c
  unfolding ar_find_entry_ex
  find-miss c h = ground arith

  find-due :
      (c : Core) (e : Entry)
      → find_in_table key c.buckets ≡ some e
      → is_due now e ≡ true
      → ar_find_entry_ex now key c ≡ find_cold now key (bump_expired (ar_entry_free_ex hot e c))
  unfolding ar_find_entry_ex
  find-due c e h due = rw (h, ar_find_entry_ex) (rw due refl)

  find-alive :
      (c : Core) (e : Entry)
      → find_in_table key c.buckets ≡ some e
      → is_due now e ≡ false
      → ar_find_entry_ex now key c ≡ (c, some (hot, e))
  unfolding ar_find_entry_ex
  find-alive c e h alive = rw (h, ar_find_entry_ex) (rw alive refl)

  cold-free :
      (c : Core) (e : Entry)
      → (bump_expired (ar_entry_free_ex hot e c)).cold_buckets ≡ c.cold_buckets
  unfolding bump_expired ar_entry_free_ex
  cold-free c e = refl

  -- The search with lazy expiry, where the invariant holds: the result is what is stored and not due, in the table that it
  -- names; what was due is gone; the other keys find what they found; no sum grows; the invariant,
  -- the settings and the layout are kept.
  pub find-Finds : (c : Core) → IsValid c → Finds now key c (ar_find_entry_ex now key c)
  unfolding lookup
  find-Finds c v = elim (Option-cases (find_in_table key c.buckets)) [
    | inl n ↦ rw (find-miss c n) (find_cold-Finds c n v)
    | inr (e, f) ↦
        let l : lookup key c.dict ≡ some e = rw f refl in
        elim (Bool-cases (is_due now e)) [
          | inl due ↦
              let gone : find_in_table key (bump_expired (ar_entry_free_ex hot e c)).cold_buckets
                  ≡ none =
                rw (cold-free c e) (
                  find_in_table-none key c.cold_buckets
                    (omega (arith, v.shape.once key, tally-find key c.buckets e f))) in
              rw (find-due c e f due, find_cold-none (bump_expired (ar_entry_free_ex hot e c)) gone)
                (free_due-Finds hot e c f l due v)
          | inr alive ↦ rw (find-alive c e f alive) (record {
            valid = v;
            located = find-own key c.buckets e f;
            result = rw (l, alive) refl;
            stored = rw (l, alive) refl;
            others = λ k ne. refl;
            shrinks = λ m. omega arith;
            same_knobs = refl;
            same_layout = refl;
          })
        ]
  ]
