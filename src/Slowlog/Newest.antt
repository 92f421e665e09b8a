-- ===== src/Slowlog/Newest.antt =====
-- The slow log as a ring that SLOWLOG GET reads newest first.
use native.Mathlib.Nat.{mod-eq_of_lt, mod_self}
use aura_redis.Prelude.{
  ℕ, suc, ◌+◌, ◌-◌, ◌%◌, ◌^◌, ◌≤◌, ◌<◌, ◌≡◌, ◌≢◌, refl, ap, ◌∙◌, Bool, true, false, Bool-cases, inl,
  inr, List, length, length-set, leb, ltb, ◌==◌, if◌then◌else◌, get_or, set, get_or-set_self,
  get_or-set_ne, arith, ==_iff,
}
use aura_redis.Bytes.{Bytes}
use aura_redis.Slowlog.{
  SlowEntry, Slowlog, slowlog_max, max_len, new_slow, slowlog_push, wrap_up, slot_of, blank_slow,
  slowlog_at,
}

-- The log is on, and its head and its length are within its limit.
pub record IsRing (l : Slowlog) : Type 0 where
  pub size : length l.slowlog ≡ slowlog_max
  pub on : 0 < l.slowlog_max_len
  pub limited : l.slowlog_max_len ≤ slowlog_max
  pub head_lt : l.slowlog_head < l.slowlog_max_len
  pub len_le : l.slowlog_len ≤ l.slowlog_max_len

-- The slot of the `i`-th newest entry, by the head and the limit.
abbrev place : ℕ → ℕ → ℕ → ℕ
place i head m = if ltb i head then head - 1 - i else head + m - 1 - i

wrap_up-once : (fuel m missing : ℕ) → missing ≤ m → wrap_up (suc fuel) m missing ≡ m - missing
unfolding wrap_up
wrap_up-once fuel m missing h = let enough : leb missing m ≡ true = ground arith in rw enough refl

slot_of-place :
    (i : ℕ) (l : Slowlog)
    → IsRing l
    → i < l.slowlog_max_len
    → slot_of i l ≡ place i l.slowlog_head l.slowlog_max_len
unfolding slot_of wrap_up
slot_of-place i l r h =
    let small : place i l.slowlog_head l.slowlog_max_len < l.slowlog_max_len =
      ground (arith, r.head_lt, h) in
    let m : (if l.slowlog_max_len == 0 then slowlog_max else max_len l) ≡ l.slowlog_max_len =
      ground (arith, r.on, r.limited) in
    rw m
      (ap (λ x. x % l.slowlog_max_len) (wrapped (ltb i l.slowlog_head) refl) ∙ mod-eq_of_lt small)
  where
    wrapped :
        (b : Bool)
        → ltb i l.slowlog_head ≡ b
        → (if b
            then l.slowlog_head - 1 - i
            else wrap_up (suc i) l.slowlog_max_len (i + 1 - l.slowlog_head))
          ≡ (if b then l.slowlog_head - 1 - i else l.slowlog_head + l.slowlog_max_len - 1 - i)
    wrapped true e = refl
    wrapped false e =
        wrap_up-once i l.slowlog_max_len (i + 1 - l.slowlog_head) (omega (arith, h))
        ∙ ground (arith, e, h)

next_head : (head m : ℕ) → head < m → (head + 1) % m ≡ (if head + 1 == m then 0 else head + 1)
next_head head m h = elim (Bool-cases (head + 1 == m)) [
  | inl last ↦
      let e : head + 1 ≡ m = (==_iff _ _).0 last in rw last (ap (λ x. x % m) e ∙ mod_self m)
  | inr other ↦ rw other (mod-eq_of_lt (ground (arith, other, h)))
]

-- What SLOWLOG GET reads after a push of `e`, and the length.
pub record Pushes (e : SlowEntry) (l l' : Slowlog) : Type 0 where
  pub ring : IsRing l'
  pub newest : slowlog_at 0 l' ≡ e
  pub others : (i : ℕ) → suc i < l.slowlog_max_len → slowlog_at (suc i) l' ≡ slowlog_at i l
  pub counted :
      l'.slowlog_len
      ≡ (if ltb l.slowlog_len l.slowlog_max_len then l.slowlog_len + 1 else l.slowlog_len)
  pub same_limit : l'.slowlog_max_len ≡ l.slowlog_max_len

module _ (e : SlowEntry) (l : Slowlog) (r : IsRing l) where
  abbrev pushed : Slowlog
  pushed = record l {
    slowlog = set l.slowlog l.slowlog_head e;
    slowlog_next_id = (l.slowlog_next_id + 1) % 2 ^ 64;
    slowlog_head = (l.slowlog_head + 1) % l.slowlog_max_len;
    slowlog_len = if ltb l.slowlog_len l.slowlog_max_len then l.slowlog_len + 1 else l.slowlog_len;
  }

  moved :
      pushed.slowlog_head
      ≡ (if l.slowlog_head + 1 == l.slowlog_max_len then 0 else l.slowlog_head + 1)
  moved = next_head l.slowlog_head l.slowlog_max_len r.head_lt

  pushed-IsRing : IsRing pushed
  pushed-IsRing = record {
    size = length-set l.slowlog l.slowlog_head e ∙ r.size;
    on = r.on;
    limited = r.limited;
    head_lt = ground (arith, moved, r.head_lt);
    len_le = ground (arith, r.len_le);
  }

  first_slot : slot_of 0 pushed ≡ l.slowlog_head
  first_slot = slot_of-place 0 pushed pushed-IsRing r.on ∙ ground (arith, moved, r.head_lt)

  later_slot : (i : ℕ) → suc i < l.slowlog_max_len → slot_of (suc i) pushed ≡ slot_of i l
  later_slot i h =
      slot_of-place (suc i) pushed pushed-IsRing h
      ∙ ground (arith, moved, r.head_lt, h, slot_of-place i l r (omega (arith, h)))

  not_head : (i : ℕ) → suc i < l.slowlog_max_len → l.slowlog_head ≢ slot_of i l
  not_head i h same = ground (arith, same, slot_of-place i l r (omega (arith, h)), r.head_lt, h)

  pushed-Pushes : Pushes e l pushed
  unfolding slowlog_at
  pushed-Pushes = record {
    ring = pushed-IsRing;
    newest =
        ap (λ s. get_or (set l.slowlog l.slowlog_head e) s blank_slow) first_slot
        ∙ get_or-set_self l.slowlog l.slowlog_head e blank_slow
            (omega (arith, r.size, r.head_lt, r.limited));
    others = λ i h.
        ap (λ s. get_or (set l.slowlog l.slowlog_head e) s blank_slow) (later_slot i h)
        ∙ get_or-set_ne l.slowlog l.slowlog_head (slot_of i l) e blank_slow (not_head i h);
    counted = refl;
    same_limit = refl;
  }

-- While the limit stays as it is, a push makes its command the newest that SLOWLOG GET reads and
-- moves each other one place on, up to the limit, whatever the head; the length grows by one up to
-- the limit; and the head and the length stay within it.
pub slowlog_push-Pushes :
    (now us : ℕ) (argv : List Bytes) (l : Slowlog)
    → IsRing l
    → Pushes (new_slow now us argv l) l (slowlog_push now us argv l)
unfolding slowlog_push
slowlog_push-Pushes now us argv l r =
    let on : (l.slowlog_max_len == 0) ≡ false = ground (arith, r.on) in
    let limit : max_len l ≡ l.slowlog_max_len = ground (arith, r.limited) in
    rw (on, limit) (pushed-Pushes (new_slow now us argv l) l r)
