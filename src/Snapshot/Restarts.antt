-- ===== src/Snapshot/Restarts.antt =====
-- Saving and loading again, with the calls of the system that can fail.
use aura_redis.Prelude.{
  ℕ, ◌≡◌, Bool, true, false, ◌&&◌, Option, none, some, List, [], ◌∷◌, if◌then◌else◌,
}
use aura_redis.Bytes.{Bytes}
use aura_redis.Core.{Core}
use aura_redis.Snapshot.Write.{write_core}
use aura_redis.Snapshot.Read.{Loading}
use aura_redis.Snapshot.Save.{Disk, Calls, ar_rdb_save_to_path}

-- A save that succeeds leaves the whole snapshot, one that fails the file as it was; neither leaves
-- a temporary file that it has opened, unless it cannot be unlinked.
record IsAtomic (io : Calls) (whole : Option Bytes) (d : Disk) (r : Disk × Bool) : Type 0 where
  complete : r.1 ≡ true → (b : Bytes) × (whole ≡ some b) × (r.0.file ≡ some b)
  untouched : r.1 ≡ false → r.0.file ≡ d.file
  tidy : (io.path_fits && io.opens && io.unlinks) ≡ true → r.0.tmp ≡ none

-- Saves one after the other: the calls, the time and the data plane of each.
abbrev pub Attempts : Type 0
Attempts = List (Calls × ℕ × Core)

-- The disk after the saves, with the snapshot of the last one that replied success.
abbrev pub save_each : Attempts → Disk → Option Bytes → Disk × Option Bytes
save_each [] d last = (d, last)
save_each ((io, now, c) ∷ more) d last =
    let (d1, ok) = ar_rdb_save_to_path io now c d in
    save_each more d1 (if ok then write_core now c else last)

abbrev pub fresh_load : Core → Loading
fresh_load c = record { core = c; loaded = 0; skipped_expired = 0 }

abbrev pub core_and_result : Loading × Bool → Core × Bool
core_and_result (l, ok) = (l.core, ok)
