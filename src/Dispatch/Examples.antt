-- ===== src/Dispatch/Examples.antt =====
-- A transaction on a server that keeps the commands that it has run.
use aura_redis.Prelude.{◌≡◌, refl, ◌||◌, Bool, true, false, List, [], ◌∷◌, ◌++◌}
use aura_redis.Bytes.{Bytes, bytes_eq}
use aura_redis.Dispatch.{codes, lower, ok, queued, null_array, Session, run_each, dispatch}
use aura_redis.Dispatch.Auth.{Command}

abbrev log_all : List Bytes → Session (List (List Bytes)) → Session (List (List Bytes)) × Bool
log_all argv s = (record s { rest = s.rest ++ (argv ∷ []) }, false)

abbrev watching : Bool → Session (List (List Bytes))
watching dirty = record {
  rest = [];
  requirepass = [];
  repl_readonly = false;
  authenticated = false;
  is_master_link = false;
  pubsub_mode = false;
  in_multi = false;
  multi_q = [];
  watch_keys = codes "k" ∷ [];
  watch_dirty = dirty;
  replies = [];
}

abbrev commands : List (List Bytes)
commands = (codes "INCR" ∷ codes "k" ∷ []) ∷ (codes "get" ∷ codes "k" ∷ []) ∷ []

-- Where the watched key was touched, nothing is run.
dirty_run :
    (run_each
      (dispatch log_all 2)
      ((codes "multi" ∷ []) ∷ (commands ++ ((codes "EXEC" ∷ []) ∷ [])))
      (watching true)).0
    ≡ record (watching true) {
      watch_keys = [];
      watch_dirty = false;
      replies = ok ∷ queued ∷ queued ∷ null_array ∷ [];
    }
unfolding run_each dispatch lower bytes_eq
dirty_run = refl

-- UNWATCH inside MULTI is not queued: it takes the mark away, and EXEC runs the commands.
unwatch_run :
    (run_each
      (dispatch log_all 2)
      ((codes "multi" ∷ []) ∷ (commands ++ ((codes "unwatch" ∷ []) ∷ (codes "exec" ∷ []) ∷ [])))
      (watching true)).0.rest
    ≡ commands
unfolding run_each dispatch lower bytes_eq
unwatch_run = refl

abbrev locked : Session (List (List Bytes))
locked = record (watching false) { requirepass = codes "pw" }

-- A server whose commands behind the guards do nothing, but QUIT closes the connection.
abbrev quits : Command (List (List Bytes))
quits argv s = elim argv [ [] ↦ (s, false) | cmd ∷ args ↦ (s, bytes_eq (lower cmd) (codes "quit")) ]

-- The same where FLUSHDB fails as well.
abbrev quits_more : Command (List (List Bytes))
quits_more argv s = elim argv [
  | [] ↦ (s, false)
  | cmd ∷ args ↦ (s, bytes_eq (lower cmd) (codes "quit") || bytes_eq (lower cmd) (codes "flushdb"))
]
