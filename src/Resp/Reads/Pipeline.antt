-- ===== src/Resp/Reads/Pipeline.antt =====
-- Several requests in one read buffer.
use aura_redis.Prelude.{
  ℕ, zero, suc, ◌≤◌, ◌≡◌, refl, ap, ◌∙◌, Bool, true, false, List, [], ◌∷◌, length, arith,
  if◌then◌else◌,
}
use aura_redis.Bytes.{Bytes}
use aura_redis.Resp.{incomplete, parse_command}
use aura_redis.Resp.Encode.{arguments, request, IsRequest}
use aura_redis.Resp.RoundTrip.{parse_command-request}
use aura_redis.Resp.Reads.{
  Conn, Handlers, run_command, after_command, after_parse, drain, process_reads,
}
use aura_redis.Resp.Reads.Drained.{parse_command-shorter, process_reads-drain}

-- Requests in front of `rest`; each is the digits of its count with its arguments.
unfoldable pub requests : List (Bytes × List (Bytes × Bytes)) → Bytes → Bytes
requests [] rest = rest
requests ((ds, args) ∷ rs) rest = request ds args (requests rs rest)

abbrev pub AreRequests : List (Bytes × List (Bytes × Bytes)) → Type 0
AreRequests [] = Unit
AreRequests ((ds, args) ∷ rs) = IsRequest ds args × AreRequests rs

module _ {S : Type 0} (h : Handlers S) where
  -- The requests handed over in order, up to the first that fails or closes the connection; the
  -- bytes from the failed one on, or behind the last that ran, are kept.
  unfoldable pub serve : Conn S → List (Bytes × List (Bytes × Bytes)) → Bytes → Conn S × Bytes
  unfolding requests
  serve c [] rest = (c, rest)
  serve c ((ds, args) ∷ rs) rest =
      let (c1, failed) = run_command h (arguments args) c in
      let later = serve c1 rs rest in
      if failed
      then (c1, requests ((ds, args) ∷ rs) rest)
      else if c1.should_close
      then (c1, requests rs rest)
      else later

  after_command-next :
      (next : Conn S → Bytes → Conn S × Bytes) (s rest : Bytes) (r : Conn S × Bool)
      (later : Conn S × Bytes)
      → next r.0 rest ≡ later
      → after_command next s rest r
        ≡ (if r.1 then (r.0, s) else if r.0.should_close then (r.0, rest) else later)
  after_command-next next s rest (c, true) later e = refl
  after_command-next next s rest (c, false) later e = rw e refl

  drain-requests :
      (fuel : ℕ) (c : Conn S) (rs : List (Bytes × List (Bytes × Bytes))) (rest : Bytes)
      → length (requests rs rest) ≤ fuel
      → AreRequests rs
      → parse_command rest ≡ incomplete
      → drain h fuel c (requests rs rest) ≡ serve c rs rest
  unfolding drain serve requests after_parse
  drain-requests zero c [] rest l ok e = refl
  drain-requests (suc fuel) c [] rest l ok e = rw e refl
  drain-requests zero c ((ds, args) ∷ rs) rest l (ok, oks) e = absurd (
      omega (
        arith,
        l,
        parse_command-shorter _ _ _ (parse_command-request ds args (requests rs rest) ok),
      ))
  drain-requests (suc fuel) c ((ds, args) ∷ rs) rest l (ok, oks) e =
      let p = parse_command-request ds args (requests rs rest) ok in
      let (c1, failed) = run_command h (arguments args) c in
      let ih =
        drain-requests fuel c1 rs rest (omega (arith, l, parse_command-shorter _ _ _ p)) oks e in
      rw p (
        after_command-next (drain h fuel) _ _ (run_command h (arguments args) c) (serve c1 rs rest)
          ih)

-- For every handler: a read buffer of well-formed requests with an incomplete one behind them is
-- served request by request, in order, each with its arguments, until one fails or closes the
-- connection, and the bytes that are left are kept.
pub process_reads-requests :
    {S : Type 0} (h : Handlers S) (c : Conn S)
    → (rs : List (Bytes × List (Bytes × Bytes))) (rest : Bytes) → c.is_replica ≡ false
    → c.rbuf ≡ requests rs rest
    → AreRequests rs
    → parse_command rest ≡ incomplete
    → process_reads h c
      ≡ (let (c1, s) = serve h c rs rest in h.flush_writes (record c1 { rbuf = s }))
process_reads-requests h c rs rest no_replica e ok tail =
    process_reads-drain h c (serve h c rs rest) no_replica (
      ap (λ t. drain h (length t) c t) e
      ∙ drain-requests h (length (requests rs rest)) c rs rest (omega arith) ok tail)
