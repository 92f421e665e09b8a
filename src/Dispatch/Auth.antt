-- ===== src/Dispatch/Auth.antt =====
-- Clients that have not given the password.
use aura_redis.Prelude.{ℕ, suc, ◌≡◌, ◌⊎◌, Bool, true, false, List, [], ◌∷◌, ◌++◌, if◌then◌else◌}
use Prim.Native.String.{String}
use aura_redis.Bytes.{Bytes}
use aura_redis.Dispatch.{
  codes, lower, cmd_eq, no_auth, err, Session, is_set, enqueue, run_each, dispatch,
}

-- A password is set, and the client has not given it.
abbrev pub IsLocked : {S : Type 0} → Session S → Type 0
IsLocked s = (is_set s.requirepass ≡ true) × (s.authenticated ≡ false)

-- AUTH, PING, QUIT and HELLO, in letters of any case.
abbrev pub MayPass : Bytes → Type 0
MayPass cmd =
    (lower cmd ≡ codes "auth")
    ⊎ (lower cmd ≡ codes "ping")
    ⊎ (lower cmd ≡ codes "quit")
    ⊎ (lower cmd ≡ codes "hello")

-- A name that is open is none of these.
abbrev Avoids : String → Bytes → Type 0
Avoids lit cmd = cmd_eq cmd lit ≡ false

module _ {S : Type 0} (run : List Bytes → Session S → Session S × Bool)
    (d : List Bytes → Session S → Session S × Bool) (cmd : Bytes) (args : List Bytes)
    (s : Session S) where
  abbrev passed : Session S × Bool
  passed = if s.in_multi then (enqueue (cmd ∷ args) s, false) else run (cmd ∷ args) s

abbrev pub Command : Type 0 → Type 0
Command S = List Bytes → Session S → Session S × Bool

-- Two servers whose AUTH, PING, QUIT and HELLO do the same to a locked client, and leave it locked.
pub record AgreeLocked {S : Type 0} (run run' : Command S) : Type 0 where
  pub same :
      (cmd : Bytes) (args : List Bytes) (s : Session S)
      → MayPass cmd
      → IsLocked s
      → run (cmd ∷ args) s ≡ run' (cmd ∷ args) s
  pub stays :
      (cmd : Bytes) (args : List Bytes) (s : Session S)
      → MayPass cmd
      → IsLocked s
      → IsLocked (run (cmd ∷ args) s).0

-- The NOAUTH error, and nothing else.
abbrev pub no_auth_only : {S : Type 0} → Session S → Session S × Bool
no_auth_only s = (record s { replies = s.replies ++ (err no_auth ∷ []) }, false)

-- The same outcome, of a client that is locked still.
abbrev Same : {S : Type 0} → Session S × Bool → Session S × Bool → Type 0
Same p q = (p ≡ q) × IsLocked p.0

-- What a locked client gets out of a server: as much as from any other with the same four commands,
-- and for a further command by another name the NOAUTH error only.
pub record Blind {S : Type 0} (run run' : Command S) (depth : ℕ) (cs : List (List Bytes))
    (s : Session S) : Type 0 where
  pub same : run_each (dispatch run (suc depth)) cs s ≡ run_each (dispatch run' (suc depth)) cs s
  pub locked : IsLocked (run_each (dispatch run (suc depth)) cs s).0
  pub others :
      (cmd : Bytes) (args : List Bytes)
      → MayPass cmd
        ⊎ (dispatch run (suc depth) (cmd ∷ args) (run_each (dispatch run (suc depth)) cs s).0
            ≡ no_auth_only (run_each (dispatch run (suc depth)) cs s).0)
