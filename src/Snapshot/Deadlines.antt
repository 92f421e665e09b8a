-- ===== src/Snapshot/Deadlines.antt =====
-- The deadline that a load sets, and the loaded strings, as changes of one key.
use aura_redis.Prelude.{
  ℕ, ◌+◌, ◌*◌, ◌%◌, ◌^◌, ◌<◌, ◌≡◌, refl, sym, ap, ◌∙◌, true, false, Bool-cases, if_elim, inl, inr,
  Option, none, some, if◌then◌else◌, ◌==◌, arith, add64, ℤ, pos, is_nonpos,
}
use aura_redis.Bytes.{Bytes, bytes_eq}
use aura_redis.Entry.{Entry}
use aura_redis.Core.{Core, Tier}
use aura_redis.Core.Find.{ar_find_entry_ex}
use aura_redis.Core.Find.Keeps.{live, Located, find-Finds, entry_of}
use aura_redis.Core.Free.Keeps.{lookup-key}
use aura_redis.Core.Set.Steps.{Content, content, Rewrites}
use aura_redis.Core.Set.Sets.{Sets}
use aura_redis.Core.Counters.{entry_clear_expire, entry_set_expire_at}
use aura_redis.Core.Watch.{ar_watch_touch}
use aura_redis.Core.Store.{store_at}
use aura_redis.Core.Expire.{clear_deadline, set_deadline, expire_found, ar_expire}
use aura_redis.Core.Expire.Keeps.{expire-IsValid, lookup-set_deadline, lookup-clear_deadline}
use aura_redis.Core.Expire.Remaining.{lookup-expire_found}
use aura_redis.Core.Invariant.{total, deadline, IsShaped, IsValid, lookup}

-- Without a memory limit SET changes its key only.
pub Rewrites-Sets :
    {key : Bytes} {o : Option Content} {c c' : Core}
    → c.maxmemory ≡ 0
    → Sets key o c c'
    → Rewrites key o c c'
Rewrites-Sets calm s = record {
  valid = s.valid;
  at_key = s.calm_key calm;
  others = s.calm_others calm;
  same_knobs = s.same_knobs;
}

others-expire_found :
    (key k : Bytes) (amount : ℤ) (at : ℕ) (r : Core × Option (Tier × Entry))
    → IsShaped r.0.dict
    → Located r.0 r.1
    → ((tier : Tier) (e : Entry) → r.1 ≡ some (tier, e) → e.key ≡ key)
    → bytes_eq key k ≡ false
    → lookup k (expire_found key amount at r).0.dict ≡ lookup k r.0.dict
unfolding expire_found
others-expire_found key k amount at (c, none) a l own ne = refl
others-expire_found key k amount at (c, some (tier, e)) a l own ne =
    let other : bytes_eq e.key k ≡ false = rw (own tier e refl) ne in
    elim (Bool-cases (is_nonpos amount)) [
      | inl past ↦ rw past (rw (lookup-clear_deadline key tier e c l k a) (rw other refl))
      | inr future ↦ rw future (rw (lookup-set_deadline key tier e c l at k a) (rw other refl))
    ]

knobs-expire_found :
    (key : Bytes) (amount : ℤ) (at : ℕ) (r : Core × Option (Tier × Entry))
    → (expire_found key amount at r).0.knobs ≡ r.0.knobs
unfolding expire_found clear_deadline set_deadline entry_clear_expire entry_set_expire_at
    ar_watch_touch store_at
knobs-expire_found key amount at (c, none) = refl
knobs-expire_found key amount at (c, some (tier, e)) =
    if_elim (λ (d : Core). d.knobs ≡ c.knobs) (is_nonpos amount) _ _ (λ _. refl) (λ _. refl)

found-expire_found :
    (key : Bytes) (amount : ℤ) (at : ℕ) (r : Core × Option (Tier × Entry)) (e : Entry)
    → entry_of r.1 ≡ some e
    → (expire_found key amount at r).1 ≡ true
unfolding expire_found
found-expire_found key amount at (c, none) e h = cc
found-expire_found key amount at (c, some (tier, x)) e h = refl

-- EXPIRE of a live key gives it the deadline, and nothing else.
pub expire-Rewrites :
    (now : ℕ) (key : Bytes) (seconds : ℕ) (e : Entry) (c : Core)
    → IsValid c
    → live now (lookup key c.dict) ≡ some e
    → 0 < seconds
    → total deadline c.dict + add64 now (seconds * 1000 % 2 ^ 64) < 2 ^ 64
    → ((ar_expire now key (pos seconds) c).1 ≡ true)
      × Rewrites key
          (some (record { value = e.value; expire_at = add64 now (seconds * 1000 % 2 ^ 64) }))
          c
          (ar_expire now key (pos seconds) c).0
unfolding ar_expire
expire-Rewrites now key seconds e c v l some_left h =
    let at = add64 now (seconds * 1000 % 2 ^ 64) in
    let s = find-Finds now key c v in
    let r = ar_find_entry_ex now key c in
    let future : (seconds == 0) ≡ false = ground (arith, some_left) in
    (
      found-expire_found key (pos seconds) at r e (s.result ∙ l),
      record {
        valid = expire-IsValid key (pos seconds) at now c v h;
        at_key =
            ap content (
              lookup-expire_found key (pos seconds) at r (some e) s.valid.shape s.located
                (s.result ∙ l) (s.stored ∙ l))
            ∙ ap (λ b. some (record { value = e.value; expire_at = if b then 0 else at })) future;
        others = λ k ne. ap content (
            others-expire_found key k (pos seconds) at r s.valid.shape s.located
              (λ tier x q. lookup-key key r.0.dict x (s.stored ∙ sym s.result ∙ ap entry_of q)) ne
            ∙ s.others k ne);
        same_knobs = knobs-expire_found key (pos seconds) at r ∙ s.same_knobs;
      },
    )
