-- ===== src/Resp/Reads/Cut.antt =====
-- A request whose bytes have only partly arrived.
use aura_redis.Prelude.{
  ℕ, zero, suc, ◌+◌, ◌≤◌, ◌<◌, ◌^◌, ◌≡◌, refl, ap, ◌∙◌, false, ◌||◌, List, [], ◌∷◌, length, arith,
  leb, ltb,
}
use aura_redis.Bytes.{Bytes}
use aura_redis.Resp.{protocol_error, max_argv, parse_bulk, parse_args, parse_command}
use aura_redis.Resp.Encode.{Spells, bulks, AreLengths, request}
use aura_redis.Resp.RoundTrip.{count_digits-crlf, end_of_line-crlf, parse_bulk-bulk}
use aura_redis.Resp.Reads.{Conn, Handlers, refuse, after_parse, drain, process_reads}
use aura_redis.Resp.Reads.Drained.{process_reads-drain}

parse_args-cut :
    (n : ℕ) (args : List (Bytes × Bytes))
    → AreLengths args
    → length args < n
    → parse_args n (bulks args []) ≡ protocol_error
unfolding parse_args bulks parse_bulk
parse_args-cut zero args l m = absurd (omega arith)
parse_args-cut (suc n) [] l m = refl
parse_args-cut (suc n) ((ds, a) ∷ args) (h, l) m =
    rw (parse_bulk-bulk ds a (bulks args []) h, parse_args-cut n args l (omega arith)) refl

-- A request cut off in front of one of its bulk strings is refused.
pub parse_command-cut :
    (ds : Bytes) (args : List (Bytes × Bytes)) (n : ℕ)
    → Spells ds n
    → AreLengths args
    → length args < n
    → n ≤ max_argv
    → parse_command (request ds args []) ≡ protocol_error
unfolding parse_command request
parse_command-cut ds args n s l m small =
    let c = count_digits-crlf 0 0 ds (bulks args []) s.digits (omega (arith, s.spelled, small)) in
    let within : (leb (2 ^ 63) n || ltb max_argv n) ≡ false = ground (arith, small) in
    rw
      (
        c,
        s.spelled,
        end_of_line-crlf (0 + length ds) (bulks args []) (omega (arith, s.nonempty)),
        within,
      )
      (parse_args-cut n args l m)

drain-protocol_error :
    {S : Type 0} (h : Handlers S) (fuel : ℕ) (c : Conn S) (s : Bytes)
    → length s ≤ fuel
    → parse_command s ≡ protocol_error
    → drain h fuel c s ≡ (refuse c, s)
unfolding drain after_parse
drain-protocol_error h zero c [] l e = absurd (unfold parse_command in cc e)
drain-protocol_error h zero c (x ∷ s) l e = absurd (omega (arith, l))
drain-protocol_error h (suc fuel) c s l e = rw e refl

-- For every handler: where the read buffer holds the header of a request of `n` arguments, at most
-- 64, and then fewer than `n` whole bulk strings and nothing more, the connection, if it is no
-- replica, gets the protocol error and is to be closed; nothing waits for the other bytes.
pub process_reads-cut :
    {S : Type 0} (h : Handlers S) (c : Conn S) (ds : Bytes) (args : List (Bytes × Bytes)) (n : ℕ)
    → c.is_replica ≡ false
    → c.rbuf ≡ request ds args []
    → Spells ds n
    → AreLengths args
    → length args < n
    → n ≤ max_argv
    → process_reads h c ≡ h.flush_writes (refuse c)
process_reads-cut h c ds args n no_replica e s l m small =
    process_reads-drain h c (refuse c, c.rbuf) no_replica
      (drain-protocol_error h (length c.rbuf) c c.rbuf (omega arith)
        (ap parse_command e ∙ parse_command-cut ds args n s l m small))
