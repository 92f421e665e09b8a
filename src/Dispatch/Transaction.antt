-- ===== src/Dispatch/Transaction.antt =====
-- A transaction from MULTI to EXEC.
use aura_redis.Prelude.{
  ◌≡◌, Bool, true, false, not, ◌&&◌, Option, none, some, List, [], ◌∷◌, ◌++◌, length, if◌then◌else◌,
}
use aura_redis.Bytes.{Bytes}
use aura_redis.Dispatch.{
  Refusal, Reply, null_array, array_header, err, Session, is_set, guard, reply, run_each, finish,
}

-- No password is asked for, and the connection does not listen to channels.
pub record IsOpen {S : Type 0} (s : Session S) : Type 0 where
  pub allowed : (is_set s.requirepass && not s.authenticated) ≡ false
  pub commands : s.pubsub_mode ≡ false

module _ {S : Type 0} (run : List Bytes → Session S → Session S × Bool) where
  -- A command on its own: refused by a guard, or run.
  abbrev pub refused_or_run : List Bytes → Session S → Option Refusal → Session S × Bool
  refused_or_run argv s none = run argv s
  refused_or_run argv s (some r) = (reply (err r) s, false)

  unfoldable pub direct : List Bytes → Session S → Session S × Bool
  direct [] s = (s, true)
  direct (cmd ∷ args) s = refused_or_run (cmd ∷ args) s (guard cmd args s)

  -- What a transaction of `cs` comes to, with the replies `rs` before EXEC.
  unfoldable pub outcome : List (List Bytes) → List Reply → Session S → Session S × Bool
  unfolding direct run_each
  outcome cs rs s =
      if s.watch_dirty
      then (
        record s {
          in_multi = false;
          multi_q = [];
          watch_keys = [];
          watch_dirty = false;
          replies = rs ++ (null_array ∷ []);
        },
        false,
      )
      else finish (
          run_each direct cs (record s {
            in_multi = false;
            multi_q = cs;
            replies = rs ++ (array_header (length cs) ∷ []);
          }))
