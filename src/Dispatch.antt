-- ===== src/Dispatch.antt =====
-- The head of `dispatch` of native/src/ar_server.c: the guards, and WATCH, UNWATCH, MULTI, DISCARD,
-- EXEC and the queue. The commands behind them are any function `run`. `S` is the core and the
-- connection but for the fields below; `last_cmd`, which only CLIENT LIST shows, is left out, and
-- allocation and the write buffer do not fail. The flag of a result is `dispatch` below 0.
pub mod Queue
pub mod Transaction
pub mod Auth
pub mod Examples
use Prim.Native.Char.{code}
use Prim.Native.String.{String}
use aura_redis.Prelude.{
  ℕ, zero, suc, ◌+◌, Bool, true, false, not, ◌&&◌, ◌||◌, Option, none, some, List, [], ◌∷◌, ◌++◌,
  length, leb, ltb, ◌==◌, if◌then◌else◌,
}
use aura_redis.Bytes.{Bytes, bytes_eq}

-- A C string literal.
abbrev pub codes : String → Bytes
codes String.[] = []
codes (String.◌∷◌ c s) = code c ∷ codes s

unfoldable pub lower : Bytes → Bytes
lower [] = []
lower (c ∷ s) = (if leb b'A' c && leb c b'Z' then c + 32 else c) ∷ lower s

-- The literal is in lower case.
unfoldable pub cmd_eq : Bytes → String → Bool
unfolding lower
cmd_eq a lit = bytes_eq (lower a) (codes lit)

unfoldable pub one_of : Bytes → List String → Bool
unfolding cmd_eq
one_of cmd [] = false
one_of cmd (lit ∷ lits) = cmd_eq cmd lit || one_of cmd lits

unfoldable pub cmd_allowed_unauth : Bytes → Bool
unfolding one_of
cmd_allowed_unauth cmd = one_of cmd ("auth" ∷ "ping" ∷ "quit" ∷ "hello" ∷ [])

unfoldable pub cmd_is_write : Bytes → Bool
unfolding one_of
cmd_is_write cmd = one_of cmd (
    "set" ∷ "setnx" ∷ "setex" ∷ "psetex" ∷ "getset" ∷ "del" ∷ "unlink" ∷ "append" ∷ "rename"
    ∷ "renamenx" ∷ "expire" ∷ "pexpire" ∷ "expireat" ∷ "pexpireat" ∷ "flushdb" ∷ "mset" ∷ "incr"
    ∷ "decr" ∷ "incrby" ∷ "decrby" ∷ "pin" ∷ "unpin" ∷ "policy" ∷ "evict" ∷ "layout" ∷ "plugin"
    ∷ "save" ∷ "bgsave" ∷ "hset" ∷ "hdel" ∷ "hincrby" ∷ "lpush" ∷ "rpush" ∷ "lpop" ∷ "rpop" ∷ "lrem"
    ∷ "ltrim" ∷ "zadd" ∷ "zrem" ∷ "publish" ∷ [])

unfoldable pub pubsub_is_allowed : Bytes → Bool
unfolding one_of
pubsub_is_allowed cmd =
    one_of cmd
      ("subscribe" ∷ "unsubscribe" ∷ "psubscribe" ∷ "punsubscribe" ∷ "ping" ∷ "quit" ∷ "reset" ∷ [])

-- The error texts.
pub data Refusal : Type 0 where
  empty_command no_auth read_only pubsub_only wrong_number watch_in_multi watch_limit : Refusal
  nested_multi discard_without exec_without queue_full too_many_arguments : Refusal

pub data Reply : Type 0 where
  ok queued null_array : Reply
  array_header : ℕ → Reply
  err : Refusal → Reply
  other : Bytes → Reply

pub record Session (S : Type 0) : Type 0 where
  pub rest : S
  pub requirepass : Bytes
  pub repl_readonly : Bool
  pub authenticated : Bool
  pub is_master_link : Bool
  pub pubsub_mode : Bool
  pub in_multi : Bool
  pub multi_q : List (List Bytes)
  pub watch_keys : List Bytes
  pub watch_dirty : Bool
  pub replies : List Reply

abbrev pub is_set : Bytes → Bool
is_set [] = false
is_set (c ∷ s) = true

-- CONFIG SET and CONFIG REWRITE.
unfoldable pub config_writes : Bytes → List Bytes → Bool
unfolding one_of
config_writes cmd [] = false
config_writes cmd (sub ∷ args) = cmd_eq cmd "config" && one_of sub ("set" ∷ "rewrite" ∷ [])

-- AR_MULTI_MAX, AR_MULTI_ARGV and AR_WATCH_MAX.
abbrev pub multi_max : ℕ
multi_max = 128

abbrev pub multi_argv : ℕ
multi_argv = 32

abbrev pub watch_max : ℕ
watch_max = 64

unfoldable pub watched : Bytes → List Bytes → Bool
watched key [] = false
watched key (k ∷ ks) = bytes_eq k key || watched key ks

module _ {S : Type 0} where
  abbrev pub reply : Reply → Session S → Session S
  reply r s = record s { replies = s.replies ++ (r ∷ []) }

  abbrev pub multi_clear : Session S → Session S
  multi_clear s = record s { multi_q = []; in_multi = false }

  abbrev pub watch_clear : Session S → Session S
  watch_clear s = record s { watch_keys = []; watch_dirty = false }

  -- What refuses a command before any other test.
  unfoldable pub guard : Bytes → List Bytes → Session S → Option Refusal
  unfolding cmd_allowed_unauth cmd_is_write pubsub_is_allowed config_writes
  guard cmd args s =
      if is_set s.requirepass && not s.authenticated && not (cmd_allowed_unauth cmd)
      then some no_auth
      else if s.repl_readonly
          && not s.is_master_link
          && (cmd_is_write cmd || config_writes cmd args)
      then some read_only
      else if s.pubsub_mode && not (pubsub_is_allowed cmd)
      then some pubsub_only
      else none

  -- The keys before the one that finds the table full stay watched.
  unfoldable pub watch_each : List Bytes → Session S → Session S
  unfolding watched
  watch_each [] s = reply ok s
  watch_each (key ∷ keys) s =
      let known = watched key s.watch_keys in
      let more =
        watch_each keys
          (if known then s else record s { watch_keys = s.watch_keys ++ (key ∷ []) }) in
      if not known && leb watch_max (length s.watch_keys) then reply (err watch_limit) s else more

  unfoldable pub enqueue : List Bytes → Session S → Session S
  enqueue argv s =
      if leb multi_max (length s.multi_q)
      then reply (err queue_full) s
      else if ltb multi_argv (length argv)
      then reply (err too_many_arguments) s
      else reply queued (record s { multi_q = s.multi_q ++ (argv ∷ []) })

  -- Commands in order, up to the first that fails.
  unfoldable pub run_each :
      (List Bytes → Session S → Session S × Bool) → List (List Bytes) → Session S → Session S × Bool
  run_each d [] s = (s, false)
  run_each d (q ∷ qs) s =
      let (s1, failed) = d q s in
      let later = run_each d qs s1 in if failed then (s1, true) else later

  abbrev pub finish : Session S × Bool → Session S × Bool
  finish (s, failed) = (watch_clear (multi_clear s), failed)

  unfoldable pub exec : (List Bytes → Session S → Session S × Bool) → Session S → Session S × Bool
  unfolding run_each
  exec d s =
      if s.watch_dirty
      then (reply null_array (watch_clear (multi_clear s)), false)
      else finish (
          run_each d s.multi_q
            (reply (array_header (length s.multi_q)) (record s { in_multi = false })))

  -- `if (argc != 1) ...`, and then the command.
  abbrev pub alone : List Bytes → Session S → Session S × Bool → Session S × Bool
  alone [] s r = r
  alone (a ∷ args) s r = (reply (err wrong_number) s, false)

  abbrev pub unless : Bool → Refusal → Session S → Session S × Bool → Session S × Bool
  unless b r s done = if b then (reply (err r) s, false) else done

  abbrev pub answered : Session S → Session S × Bool
  answered s = (s, false)

  unfoldable pub watch : List Bytes → Session S → Session S × Bool
  unfolding watch_each
  watch [] s = (reply (err wrong_number) s, false)
  watch (key ∷ keys) s = unless s.in_multi watch_in_multi s (answered (watch_each (key ∷ keys) s))

  -- The commands behind the guards; `d` is `dispatch` itself.
  unfoldable pub guarded :
      (List Bytes → Session S → Session S × Bool)
      → (List Bytes → Session S → Session S × Bool)
      → Bytes
      → List Bytes
      → Session S
      → Option Refusal
      → Session S × Bool
  unfolding watch enqueue exec cmd_eq
  guarded run d cmd args s (some r) = (reply (err r) s, false)
  guarded run d cmd args s none =
      if cmd_eq cmd "watch"
      then watch args s
      else if cmd_eq cmd "unwatch"
      then alone args s (answered (reply ok (watch_clear s)))
      else if cmd_eq cmd "multi"
      then alone args s (
          unless s.in_multi nested_multi s
            (answered (reply ok (record s { in_multi = true; multi_q = [] }))))
      else if cmd_eq cmd "discard"
      then alone args s (
          unless (not s.in_multi) discard_without s
            (answered (reply ok (watch_clear (multi_clear s)))))
      else if cmd_eq cmd "exec"
      then alone args s (unless (not s.in_multi) exec_without s (exec d s))
      else if s.in_multi
      then (enqueue (cmd ∷ args) s, false)
      else run (cmd ∷ args) s

  -- `depth` bounds the calls of itself; EXEC is never queued, so that two are enough.
  unfoldable pub dispatch :
      (List Bytes → Session S → Session S × Bool) → ℕ → List Bytes → Session S → Session S × Bool
  unfolding guard guarded
  dispatch run zero argv s = (s, true)
  dispatch run (suc depth) [] s = (reply (err empty_command) s, false)
  dispatch run (suc depth) (cmd ∷ args) s =
      guarded run (dispatch run depth) cmd args s (guard cmd args s)
