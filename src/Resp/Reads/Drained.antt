-- ===== src/Resp/Reads/Drained.antt =====
-- The loop of `process_reads` ends, and leaves no whole command behind.
use aura_redis.Prelude.{
  ℕ, zero, suc, ◌≤◌, ◌<◌, ◌≡◌, subst, ◌⊎◌, inl, inr, refl, Bool, true, false, List, [], ◌∷◌, ◌++◌,
  length, if_elim, ap, length-append, arith,
}
use aura_redis.Bytes.{Bytes}
use aura_redis.Resp.{Parsed, parsed, incomplete, protocol_error, parse_command}
use aura_redis.Resp.Encode.{crlf, bulks, request}
use aura_redis.Resp.Sound.{parse_command-Accepts}
use aura_redis.Resp.Reads.{
  Conn, Handlers, run_command, after_command, after_parse, drain, process_reads,
}

length-bulks : (args : List (Bytes × Bytes)) (rest : Bytes) → length rest ≤ length (bulks args rest)
unfolding bulks
length-bulks [] rest = omega arith
length-bulks ((ds, a) ∷ args) rest = omega (
  arith,
  length-bulks args rest,
  length-append ds (crlf (a ++ crlf (bulks args rest))),
  length-append a (crlf (bulks args rest)),
)

-- A command takes bytes from the buffer.
pub parse_command-shorter :
    (s : Bytes) (args : List Bytes) (rest : Bytes)
    → parse_command s ≡ parsed args rest
    → length rest < length s
unfolding request
parse_command-shorter s args rest h =
    let a = parse_command-Accepts s args rest h in
    let e : length s ≡ length (request a.ds a.spelled rest) = ap length a.split in
    omega (arith, e, length-bulks a.spelled rest, length-append a.ds (crlf (bulks a.spelled rest)))

-- The connection is to be closed, or what is left is no whole command.
abbrev pub Drained : {S : Type 0} → Conn S → Bytes → Type 0
Drained c s = (c.should_close ≡ true) ⊎ (parse_command s ≡ incomplete)

module _ {S : Type 0} (h : Handlers S) where
  abbrev End : Conn S × Bytes → Type 0
  End (c, s) = Drained c s

  run_command-closes :
      (argv : List Bytes) (c : Conn S)
      → (run_command h argv c).1 ≡ true
      → (run_command h argv c).0.should_close ≡ true
  unfolding run_command
  run_command-closes argv c f = ground arith

  after_command-End :
      (next : Conn S → Bytes → Conn S × Bytes) (s rest : Bytes) (r : Conn S × Bool)
      → (r.1 ≡ true → r.0.should_close ≡ true)
      → ((c : Conn S) → End (next c rest))
      → End (after_command next s rest r)
  after_command-End next s rest (c, true) f ih = inl (f refl)
  after_command-End next s rest (c, false) f ih =
      if_elim End c.should_close (c, rest) (next c rest) (λ e. inl e) (λ e. ih c)

  after_parse-End :
      (next : Conn S → Bytes → Conn S × Bytes) (c : Conn S) (s : Bytes) (p : Parsed (List Bytes))
      → parse_command s ≡ p
      → ((c : Conn S) (rest : Bytes) → length rest < length s → End (next c rest))
      → End (after_parse h next c s p)
  unfolding after_parse
  after_parse-End next c s incomplete e ih = inr e
  after_parse-End next c s protocol_error e ih = inl refl
  after_parse-End next c s (parsed argv rest) e ih =
      after_command-End next s rest (run_command h argv c) (run_command-closes argv c)
        (λ c1. ih c1 rest (parse_command-shorter s argv rest e))

  drain-End : (fuel : ℕ) (c : Conn S) (s : Bytes) → length s ≤ fuel → End (drain h fuel c s)
  unfolding drain
  drain-End zero c [] l = inr (unfold parse_command in refl)
  drain-End zero c (x ∷ s) l = absurd (omega arith)
  drain-End (suc fuel) c s l =
      after_parse-End (drain h fuel) c s (parse_command s) refl
        (λ c1 rest m. drain-End fuel c1 rest (omega (arith, l, m)))

-- `process_reads` where the loop's result is known.
pub process_reads-drain :
    {S : Type 0} (h : Handlers S) (c : Conn S) (r : Conn S × Bytes)
    → c.is_replica ≡ false
    → drain h (length c.rbuf) c c.rbuf ≡ r
    → process_reads h c ≡ h.flush_writes (record r.0 { rbuf = r.1 })
unfolding process_reads
process_reads-drain h c r no_replica e =
    subst (λ x. process_reads h c ≡ h.flush_writes (record x.0 { rbuf = x.1 })) e
      (ground (arith, no_replica))

-- For every handler: on a connection that is no replica, what `process_reads` hands to
-- `flush_writes` is to be closed, or its read buffer holds no whole command any more.
pub process_reads-Drained :
    {S : Type 0} (h : Handlers S) (c : Conn S)
    → c.is_replica ≡ false
    → (c1 : Conn S) × (process_reads h c ≡ h.flush_writes c1) × Drained c1 c1.rbuf
process_reads-Drained h c e =
    let r = drain h (length c.rbuf) c c.rbuf in
    (
      record r.0 { rbuf = r.1 },
      process_reads-drain h c r e refl,
      drain-End h (length c.rbuf) c c.rbuf (omega arith),
    )
