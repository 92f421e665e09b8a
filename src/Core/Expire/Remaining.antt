-- ===== src/Core/Expire/Remaining.antt =====
-- About the replies of TTL and PTTL of native/src/ar_core.c.
use aura_redis.Core.Free.Keeps.{lookup-key}
use aura_redis.Prelude.{
  sym, ◌∙◌, ℕ, ◌+◌, ◌-◌, ◌/◌, ◌^◌, ◌<◌, ◌≡◌, refl, true, Option, none, some, inl, inr, Bool-cases,
  if◌then◌else◌, arith, ◌==◌, leb, add64, ℤ, pos, is_nonpos, magnitude,
}
use aura_redis.Bytes.{Bytes, bytes_eq, bytes_eq_refl}
use aura_redis.Entry.{Entry}
use aura_redis.Core.{Core, Tier}
use aura_redis.Core.Find.{ar_find_entry_ex}
use aura_redis.Core.Find.Keeps.{Located, find-Finds, live, entry_of}
use aura_redis.Core.Expire.{
  expire_found, ar_pexpire, missing, persistent, pttl_of, ttl_of, ar_pttl, ar_ttl,
}
use aura_redis.Core.Expire.Keeps.{
  with_deadline, lookup-set_deadline, lookup-clear_deadline, pexpire-IsValid,
}
use aura_redis.Core.Invariant.{total, deadline, IsShaped, IsValid, lookup}

-- The reply for a live entry: the milliseconds left, or that it has no deadline.
abbrev pub remaining : ℕ → Option Entry → ℤ
remaining now none = missing
remaining now (some e) = if e.expire_at == 0 then persistent else pos (e.expire_at - now)

-- The seconds left, rounded up.
abbrev pub remaining_seconds : ℕ → Option Entry → ℤ
remaining_seconds now none = missing
remaining_seconds now (some e) =
    if e.expire_at == 0 then persistent else pos ((e.expire_at - now + 999) / 1000)

pttl_of-remaining :
    (now : ℕ) (r : Option (Tier × Entry)) (o : Option Entry)
    → entry_of r ≡ live now o
    → pttl_of now r ≡ remaining now (live now o)
unfolding pttl_of
pttl_of-remaining now none none h = refl
pttl_of-remaining now none (some e) h = ground arith
pttl_of-remaining now (some (tier, e')) none h = ground arith
pttl_of-remaining now (some (tier, e')) (some e) h = ground arith

ttl_of-remaining :
    (now : ℕ) (r : Option (Tier × Entry)) (o : Option Entry)
    → entry_of r ≡ live now o
    → ttl_of now r ≡ remaining_seconds now (live now o)
unfolding ttl_of
ttl_of-remaining now none none h = refl
ttl_of-remaining now none (some e) h = ground arith
ttl_of-remaining now (some (tier, e')) none h = ground arith
ttl_of-remaining now (some (tier, e')) (some e) h = ground arith

-- Where the invariant holds, PTTL replies -2 where nothing live is stored, -1 where the entry has no
-- deadline, and otherwise the milliseconds that are left.
pub pttl-remaining :
    (now : ℕ) (key : Bytes) (c : Core)
    → IsValid c
    → (ar_pttl now key c).1 ≡ remaining now (live now (lookup key c.dict))
unfolding ar_pttl
pttl-remaining now key c v =
    pttl_of-remaining now (ar_find_entry_ex now key c).1 (lookup key c.dict)
      (find-Finds now key c v).result

-- Where the invariant holds, TTL replies -2 where nothing live is stored, -1 where the entry has no
-- deadline, and otherwise the seconds that are left, rounded up.
pub ttl-remaining_seconds :
    (now : ℕ) (key : Bytes) (c : Core)
    → IsValid c
    → (ar_ttl now key c).1 ≡ remaining_seconds now (live now (lookup key c.dict))
unfolding ar_ttl
ttl-remaining_seconds now key c v =
    ttl_of-remaining now (ar_find_entry_ex now key c).1 (lookup key c.dict)
      (find-Finds now key c v).result

-- What an expiry command leaves under its key.
abbrev pub expired_entry : ℤ → ℕ → Option Entry → Option Entry
expired_entry amount at none = none
expired_entry amount at (some e) = some (with_deadline (if is_nonpos amount then 0 else at) e)

pub lookup-expire_found :
    (key : Bytes) (amount : ℤ) (at : ℕ) (r : Core × Option (Tier × Entry)) (o : Option Entry)
    → IsShaped r.0.dict
    → Located r.0 r.1
    → entry_of r.1 ≡ o
    → lookup key r.0.dict ≡ o
    → lookup key (expire_found key amount at r).0.dict ≡ expired_entry amount at o
unfolding expire_found
lookup-expire_found key amount at (c, none) o a l h s = ground arith
lookup-expire_found key amount at (c, some (tier, e)) o a l h s =
    let stored : lookup key c.dict ≡ some e = s ∙ sym h in
    let same : bytes_eq e.key key ≡ true =
      rw (lookup-key key c.dict e stored) (bytes_eq_refl key) in
    rw (← h) (elim (Bool-cases (is_nonpos amount)) [
      | inl past ↦ rw past (rw (lookup-clear_deadline key tier e c l key a) (rw same refl))
      | inr future ↦ rw future (rw (lookup-set_deadline key tier e c l at key a) (rw same refl))
    ])

-- PEXPIRE leaves the live entry with the new deadline, or with none for an argument that is not
-- positive.
lookup-pexpire :
    (now : ℕ) (key : Bytes) (ms : ℤ) (c : Core)
    → IsValid c
    → lookup key (ar_pexpire now key ms c).0.dict
      ≡ expired_entry ms (add64 now (magnitude ms)) (live now (lookup key c.dict))
unfolding ar_pexpire
lookup-pexpire now key ms c v =
    let s = find-Finds now key c v in
    lookup-expire_found key ms (add64 now (magnitude ms)) (ar_find_entry_ex now key c)
      (live now (lookup key c.dict)) s.valid.shape s.located s.result s.stored

-- Where the invariant holds and the sum of deadlines with the new one stays below 2^64: after PEXPIRE
-- of a live key by more than 0 milliseconds, PTTL at any time replies the milliseconds up to the
-- deadline, and -2 once it has come.
pub pttl-pexpire :
    (now later : ℕ) (key : Bytes) (ms : ℕ) (e : Entry) (c : Core)
    → IsValid c
    → live now (lookup key c.dict) ≡ some e
    → 0 < ms
    → total deadline c.dict + (now + ms) < 2 ^ 64
    → (ar_pttl later key (ar_pexpire now key (pos ms) c).0).1
      ≡ (if leb (now + ms) later then missing else pos (now + ms - later))
pttl-pexpire now later key ms e c v l h fits =
    let at : add64 now ms ≡ now + ms = omega arith in
    let v' = pexpire-IsValid now key (pos ms) c v (rw at fits) in
    rw
      (
        pttl-remaining later key (ar_pexpire now key (pos ms) c).0 v',
        lookup-pexpire now key (pos ms) c v,
        l,
      )
      (ground (arith, at))
