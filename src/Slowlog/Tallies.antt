-- ===== src/Slowlog/Tallies.antt =====
-- The latency counters of `note_cmd_latency` against each other, and its slow log.
use aura_redis.Prelude.{
  ℕ, ◌+◌, ◌%◌, ◌^◌, ◌≡◌, refl, Bool, true, false, List, ltb, ◌==◌, if◌then◌else◌, arith,
}
use aura_redis.Bytes.{Bytes}
use aura_redis.Slowlog.{
  Slowlog, slowlog_push, count_sample, count_class, is_slow, is_logged, note_cmd_latency,
}
use aura_redis.Slowlog.Newest.{IsRing, slowlog_push-Pushes}

abbrev classes : Slowlog → ℕ
classes l = l.cmd_lt_1ms + l.cmd_lt_10ms + l.cmd_lt_100ms + l.cmd_ge_100ms

-- Each sample is in one of the classes, and the log is on and within its limit.
pub record IsTallied (l : Slowlog) : Type 0 where
  pub tallied : l.cmd_latency_samples ≡ classes l % 2 ^ 64
  pub ring : IsRing l

if_keeps : (P : Slowlog → Type 0) (b : Bool) (l l' : Slowlog) → P l → P l' → P (if b then l else l')
if_keeps P true l l' p p' = p
if_keeps P false l l' p p' = p'

counted_tallied :
    (us : ℕ) (l : Slowlog)
    → l.cmd_latency_samples ≡ classes l % 2 ^ 64
    → (count_class us (count_sample us l)).cmd_latency_samples
      ≡ classes (count_class us (count_sample us l)) % 2 ^ 64
counted_tallied us l t = ground (arith, t)

counted-IsRing : (us : ℕ) (l : Slowlog) → IsRing l → IsRing (count_class us (count_sample us l))
counted-IsRing us l r = if_keeps IsRing (ltb us 1000) _ _ (same _ refl refl refl refl) (
    if_keeps IsRing (ltb us 10000) _ _ (same _ refl refl refl refl) (
      if_keeps IsRing (ltb us 100000) _ _ (same _ refl refl refl refl)
        (same _ refl refl refl refl)))
  where
    same :
        (l' : Slowlog)
        → l'.slowlog ≡ l.slowlog
        → l'.slowlog_max_len ≡ l.slowlog_max_len
        → l'.slowlog_head ≡ l.slowlog_head
        → l'.slowlog_len ≡ l.slowlog_len
        → IsRing l'
    same l' a b c d = record {
      size = rw a r.size;
      on = rw b r.on;
      limited = rw b r.limited;
      head_lt = rw (b, c) r.head_lt;
      len_le = rw (b, d) r.len_le;
    }

push_tallied :
    (now us : ℕ) (argv : List Bytes) (l : Slowlog)
    → l.cmd_latency_samples ≡ classes l % 2 ^ 64
    → (slowlog_push now us argv l).cmd_latency_samples
      ≡ classes (slowlog_push now us argv l) % 2 ^ 64
unfolding slowlog_push
push_tallied now us argv l t =
    if_keeps (λ k. k.cmd_latency_samples ≡ classes k % 2 ^ 64) (l.slowlog_max_len == 0) _ _ t t

push-IsTallied :
    (now us : ℕ) (argv : List Bytes) (l : Slowlog)
    → IsTallied l
    → IsTallied (slowlog_push now us argv l)
push-IsTallied now us argv l t = record {
  tallied = push_tallied now us argv l t.tallied;
  ring = (slowlog_push-Pushes now us argv l t.ring).ring;
}

-- Whatever the time of a command, note_cmd_latency keeps the number of samples, modulo 2^64, the sum
-- of the four latency classes, and the head and the length of a slow log that is on within its limit.
pub note_cmd_latency-IsTallied :
    (now us : ℕ) (argv : List Bytes) (l : Slowlog)
    → IsTallied l
    → IsTallied (note_cmd_latency now us argv l)
unfolding note_cmd_latency
note_cmd_latency-IsTallied now us argv l t =
    let l1 = count_class us (count_sample us l) in
    let l2 = record l1 { slowlog_count = (l1.slowlog_count + 1) % 2 ^ 64 } in
    let one : IsTallied l1 = record {
      tallied = counted_tallied us l t.tallied;
      ring = counted-IsRing us l t.ring;
    } in
    let two : IsTallied l2 = record {
      tallied = one.tallied;
      ring = record {
        size = one.ring.size;
        on = one.ring.on;
        limited = one.ring.limited;
        head_lt = one.ring.head_lt;
        len_le = one.ring.len_le;
      };
    } in
    if_keeps IsTallied (is_slow us l.slowlog_slower_than_us) _ _
      (if_keeps IsTallied (is_logged argv) _ _ (push-IsTallied now us argv l2 two) two) one
