-- ===== src/Resp/Reads.antt =====
-- `process_reads` of native/src/ar_server.c: the commands in a connection's read buffer, one after
-- the other. `S` is the core with all that `dispatch` may reach but the fields below; the loop is modelled for
-- any `dispatch`, `note_cmd_latency` (with its two clock readings), `flush_writes` and clock.
pub mod Pipeline
pub mod Drained
pub mod Cut
use aura_redis.Prelude.{ℕ, zero, suc, Bool, true, false, List, [], ◌∷◌, ◌++◌, length, if◌then◌else◌}
use aura_redis.Bytes.{Bytes}
use aura_redis.Resp.{Parsed, parsed, incomplete, protocol_error, parse_command}

-- The fields of `ArConn` that the loop uses, and `repl_applying` of the core.
pub record Conn (S : Type 0) : Type 0 where
  pub core : S
  pub rbuf : Bytes
  pub wbuf : Bytes
  pub should_close : Bool
  pub is_replica : Bool
  pub is_master_link : Bool
  pub repl_applying : Bool
  pub last_active_ms : ℕ

-- What the loop calls; the flag of `dispatch` is a negative result.
pub record Handlers (S : Type 0) : Type 0 where
  pub dispatch : List Bytes → Conn S → Conn S × Bool
  pub note_cmd_latency : List Bytes → Conn S → Conn S
  pub flush_writes : Conn S → Conn S
  pub ar_now_ms : Conn S → ℕ

-- "-ERR Protocol error", as `reply_err` writes it.
abbrev pub protocol_error_reply : Bytes
protocol_error_reply =
    b'-' ∷ b'E' ∷ b'R' ∷ b'R' ∷ b' ' ∷ b'P' ∷ b'r' ∷ b'o' ∷ b't' ∷ b'o' ∷ b'c' ∷ b'o' ∷ b'l' ∷ b' '
    ∷ b'e' ∷ b'r' ∷ b'r' ∷ b'o' ∷ b'r' ∷ 13 ∷ 10 ∷ []

module _ {S : Type 0} where
  abbrev pub close : Conn S → Conn S
  close c = record c { should_close = true }

  abbrev pub refuse : Conn S → Conn S
  refuse c = record c { wbuf = c.wbuf ++ protocol_error_reply; should_close = true }

  -- What the master's link does with the reply.
  abbrev pub drop_reply : Conn S → Conn S
  drop_reply c = if c.is_master_link then record c { repl_applying = false; wbuf = [] } else c

  abbrev pub begin_apply : Conn S → Conn S
  begin_apply c = if c.is_master_link then record c { repl_applying = true } else c

  -- The loop goes on where the command succeeded and the connection stays open.
  abbrev pub after_command :
      (Conn S → Bytes → Conn S × Bytes) → Bytes → Bytes → Conn S × Bool → Conn S × Bytes
  after_command next s rest (c, true) = (c, s)
  after_command next s rest (c, false) = if c.should_close then (c, rest) else next c rest

module _ {S : Type 0} (h : Handlers S) where
  -- One command; the flag is `dr < 0`.
  unfoldable pub run_command : List Bytes → Conn S → Conn S × Bool
  run_command argv c =
      let (c1, failed) = h.dispatch argv (begin_apply c) in
      let c2 = h.note_cmd_latency argv (drop_reply c1) in
      (if failed then close c2 else record c2 { last_active_ms = h.ar_now_ms c2 }, failed)

  unfoldable pub after_parse :
      (Conn S → Bytes → Conn S × Bytes) → Conn S → Bytes → Parsed (List Bytes) → Conn S × Bytes
  unfolding run_command
  after_parse next c s incomplete = (c, s)
  after_parse next c s protocol_error = (refuse c, s)
  after_parse next c s (parsed argv rest) = after_command next s rest (run_command argv c)

  -- The loop: `s` is the buffer from `pos` on. A command that failed is left in the buffer.
  unfoldable pub drain : ℕ → Conn S → Bytes → Conn S × Bytes
  unfolding after_parse
  drain zero c s = (c, s)
  drain (suc fuel) c s = after_parse (drain fuel) c s (parse_command s)

  unfoldable pub process_reads : Conn S → Conn S
  unfolding drain
  process_reads c =
      if c.is_replica
      then h.flush_writes (record c { rbuf = [] })
      else (let (c1, s) = drain (length c.rbuf) c c.rbuf in h.flush_writes (record c1 { rbuf = s }))
