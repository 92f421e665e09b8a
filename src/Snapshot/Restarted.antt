-- ===== src/Snapshot/Restarted.antt =====
-- A data plane after a save and a load.
use aura_redis.Prelude.{ℕ, ◌≡◌, ◌⊎◌, Bool, true, Option, none, some, List, [], ◌∷◌, if◌then◌else◌}
use aura_redis.Bytes.{Bytes}
use aura_redis.Entry.{Entry}
use aura_redis.Table.{find_in_bucket}
use aura_redis.Core.{Core}
use aura_redis.Core.Set.Steps.{Content, view}
use aura_redis.Core.Invariant.{IsValid}
use aura_redis.Snapshot.Read.{Loading, expired_on_load}
use aura_redis.Snapshot.Replay.{restore_entry}
use aura_redis.Snapshot.Restores.{HasValueRoom, restored_content}

-- What a key has after a load, by its entry in the snapshot.
abbrev pub restored_view : ℕ → Option Entry → Option Content
restored_view now none = none
restored_view now (some e) =
    if expired_on_load now e.expire_at
    then none
    else some (restored_content now e.expire_at e.value)

-- Each entry that has not expired has the room that its commands need, where the load gets to it.
abbrev pub HasAllRoom : (ℕ → ℕ) → ℕ → List Entry → Loading → Type 0
HasAllRoom rand now [] l = Unit
HasAllRoom rand now (e ∷ es) l =
    ((expired_on_load now e.expire_at ≡ true)
      ⊎ HasValueRoom rand now e.key e.expire_at e.value l.core)
    × HasAllRoom rand now es (restore_entry rand now e l).0

-- The entry of the snapshot decides, or else what was there.
abbrev or_before : ℕ → Option Entry → Option Content → Option Content
or_before now none o = o
or_before now (some e) o = restored_view now (some e)

record Brings (now : ℕ) (es : List Entry) (l : Loading) (r : Loading × Bool) : Type 0 where
  done : r.1 ≡ true
  valid : IsValid r.0.core
  views : (k : Bytes) → view k r.0.core ≡ or_before now (find_in_bucket k es) (view k l.core)

-- What a restart keeps: the load replies success, and each key has what its live entry comes to.
pub record Restarts (now : ℕ) (held : Bytes → Option Entry) (r : Core × Bool) : Type 0 where
  pub done : r.1 ≡ true
  pub valid : IsValid r.0
  pub views : (k : Bytes) → view k r.0 ≡ restored_view now (held k)
