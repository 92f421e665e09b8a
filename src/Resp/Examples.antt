-- ===== src/Resp/Examples.antt =====
-- Runs of the request parser and of the loop over a read buffer.
use aura_redis.Prelude.{◌≡◌, refl, false, List, [], ◌∷◌, ◌++◌, arith}
use aura_redis.Bytes.{Bytes}
use aura_redis.Resp.{parsed, incomplete, parse_command}
use aura_redis.Resp.Encode.{value, Spells, AreLengths, arguments, request, IsRequest}
use aura_redis.Resp.RoundTrip.{parse_command-request}
use aura_redis.Resp.Sound.{Accepts, parse_command-Accepts}
use aura_redis.Resp.Reads.{Conn, Handlers, refuse, process_reads}
use aura_redis.Resp.Reads.Drained.{Drained, process_reads-Drained}
use aura_redis.Resp.Reads.Pipeline.{requests, serve, process_reads-requests}
use aura_redis.Resp.Reads.Cut.{process_reads-cut}

abbrev one : Bytes
one = b'1' ∷ []

abbrev two : Bytes
two = b'2' ∷ []

abbrev three : Bytes
three = b'3' ∷ []

abbrev get : List (Bytes × Bytes)
get = (b'0' ∷ b'3' ∷ [], b'G' ∷ b'E' ∷ b'T' ∷ []) ∷ (one, b'k' ∷ []) ∷ []

abbrev ping : List (Bytes × Bytes)
ping = (b'4' ∷ [], b'P' ∷ b'I' ∷ b'N' ∷ b'G' ∷ []) ∷ []

-- The first bytes of a next request.
abbrev begun : Bytes
begun = b'*' ∷ b'1' ∷ 13 ∷ []

one-Spells : Spells one 1
unfolding value
one-Spells = record { digits = (refl, tt); nonempty = omega arith; spelled = refl }

get-AreLengths : AreLengths get
unfolding value
get-AreLengths = (
  record {
    spells = record { digits = (refl, (refl, tt)); nonempty = omega arith; spelled = refl };
    few = omega arith;
    small = omega arith;
  },
  (record { spells = one-Spells; few = omega arith; small = omega arith }, tt),
)

get-IsRequest : IsRequest two get
unfolding value
get-IsRequest = record {
  count = record { digits = (refl, tt); nonempty = omega arith; spelled = refl };
  lengths = get-AreLengths;
  bounded = omega arith;
}

ping-IsRequest : IsRequest one ping
unfolding value
ping-IsRequest = record {
  count = one-Spells;
  lengths = (
    record {
      spells = record { digits = (refl, tt); nonempty = omega arith; spelled = refl };
      few = omega arith;
      small = omega arith;
    },
    tt,
  );
  bounded = omega arith;
}

parse_command-request_example : parse_command (request two get begun) ≡ parsed (arguments get) begun
parse_command-request_example = parse_command-request two get begun get-IsRequest

get_parsed : parse_command (request two get begun) ≡ parsed (arguments get) begun
unfolding request parse_command arguments
get_parsed = refl

parse_command-Accepts_example : Accepts (request two get begun) (arguments get) begun
parse_command-Accepts_example =
    parse_command-Accepts (request two get begun) (arguments get) begun get_parsed

begun_waits : parse_command begun ≡ incomplete
unfolding parse_command
begun_waits = refl

-- A core that keeps the commands it was given.
abbrev record_all : Handlers (List (List Bytes))
record_all = record {
  dispatch = λ argv c. (record c { core = c.core ++ (argv ∷ []) }, false);
  note_cmd_latency = λ argv c. c;
  flush_writes = λ c. c;
  ar_now_ms = λ c. 7;
}

abbrev conn_with : Bytes → Conn (List (List Bytes))
conn_with s = record {
  core = [];
  rbuf = s;
  wbuf = [];
  should_close = false;
  is_replica = false;
  is_master_link = false;
  repl_applying = false;
  last_active_ms = 0;
}

abbrev pipelined : List (Bytes × List (Bytes × Bytes))
pipelined = (two, get) ∷ (one, ping) ∷ []

abbrev reading : Conn (List (List Bytes))
reading = conn_with (requests pipelined begun)

process_reads-requests_example : process_reads record_all reading ≡ (
    let (c1, s) = serve record_all reading pipelined begun in
    record_all.flush_writes (record c1 { rbuf = s }))
process_reads-requests_example =
    process_reads-requests record_all reading pipelined begun refl refl
      (get-IsRequest, (ping-IsRequest, tt)) begun_waits

-- Both commands ran, and the begun one is kept.
pipelined_run :
    ((process_reads record_all reading).core ≡ arguments get ∷ arguments ping ∷ [])
    × ((process_reads record_all reading).rbuf ≡ begun)
unfolding process_reads requests request arguments parse_command
pipelined_run = (refl, refl)

process_reads-Drained_example :
    (c1 : Conn (List (List Bytes))) × (process_reads record_all reading
      ≡ record_all.flush_writes c1)
    × Drained c1 c1.rbuf
process_reads-Drained_example = process_reads-Drained record_all reading refl

-- The header for three arguments, and two of them.
abbrev cut_conn : Conn (List (List Bytes))
cut_conn = conn_with (request three get [])

process_reads-cut_example :
    process_reads record_all cut_conn ≡ record_all.flush_writes (refuse cut_conn)
unfolding value
process_reads-cut_example =
    process_reads-cut record_all cut_conn three get 3 refl refl
      (record { digits = (refl, tt); nonempty = omega arith; spelled = refl }) get-AreLengths
      (omega arith) (omega arith)
