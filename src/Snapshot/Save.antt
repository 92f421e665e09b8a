-- ===== src/Snapshot/Save.antt =====
-- Saving in the foreground and in a child, of native/src/ar_rdb.c. The calls of the system are
-- arguments by their results. `fsync`, whose result the code ignores, changes nothing that a process
-- sees of a file, and has no field: what a crash of the machine leaves is not modelled. A save in a child is `save_to_path` with the data
-- plane and the time of the `fork`; its end is known from `waitpid`.
use aura_redis.Prelude.{ℕ, Bool, true, false, ◌&&◌, Option, none, some, ◌==◌, if◌then◌else◌}
use aura_redis.Bytes.{Bytes}
use aura_redis.Core.{Core}
use aura_redis.Snapshot.Write.{write_core}
use aura_redis.Snapshot.Read.{load_bytes}

-- The snapshot's file and the temporary one beside it.
pub record Disk : Type 0 where
  pub file : Option Bytes
  pub tmp : Option Bytes

-- Whether `snprintf`, `fopen`, every `fwrite`, `fflush`, `fclose`, `rename` and `unlink` do what they
-- are asked, and what the temporary file holds where it was not written as a whole.
pub record Calls : Type 0 where
  pub path_fits : Bool
  pub opens : Bool
  pub writes : Bool
  pub flushes : Bool
  pub closes : Bool
  pub renames : Bool
  pub unlinks : Bool
  pub partial : Bytes

abbrev pub unlink_tmp : Calls → Disk → Disk
unlink_tmp io d = if io.unlinks then record d { tmp = none } else d

-- The temporary file as it stands after `fopen` and the writes.
abbrev pub with_tmp : Bytes → Disk → Disk
with_tmp b d = record d { tmp = some b }

-- `rename(tmp, path)`
abbrev pub rename_tmp : Disk → Disk
rename_tmp d = record { file = d.tmp; tmp = none }

-- After `fopen`: what was written, then the rename or the end of the temporary file.
unfoldable pub finish_save : Calls → Option Bytes → Disk → Disk × Bool
finish_save io none d = (unlink_tmp io (with_tmp io.partial d), false)
finish_save io (some b) d =
    if io.writes && (io.flushes && io.closes)
    then (if io.renames
        then (rename_tmp (with_tmp b d), true)
        else (unlink_tmp io (with_tmp b d), false))
    else (unlink_tmp io (with_tmp io.partial d), false)

unfoldable pub ar_rdb_save_to_path : Calls → ℕ → Core → Disk → Disk × Bool
unfolding finish_save write_core
ar_rdb_save_to_path io now c d =
    if io.path_fits && io.opens then finish_save io (write_core now c) d else (d, false)

-- `rdb_last_save_time`, `rdb_bgsave_pid` (0 for none) and `rdb_last_bgsave_ok`.
pub record Saver : Type 0 where
  pub rdb_last_save_time : ℕ
  pub rdb_bgsave_pid : ℕ
  pub rdb_last_bgsave_ok : Bool

-- `path_ok` is the result of `ar_rdb_build_path`, `seconds` the time in seconds.
unfoldable pub ar_rdb_save : Bool → Calls → ℕ → ℕ → Core → Saver × Disk → (Saver × Disk) × Bool
unfolding ar_rdb_save_to_path
ar_rdb_save path_ok io now seconds c (s, d) =
    if path_ok
    then (let (d1, ok) = ar_rdb_save_to_path io now c d in
        if ok
        then ((record s { rdb_last_save_time = seconds; rdb_last_bgsave_ok = true }, d1), true)
        else ((s, d1), false))
    else ((s, d), false)

-- What `waitpid` says of the child: it runs, it has ended, well or not, the call was interrupted, or
-- there is no such child.
pub data Waited : Type 0 where
  running interrupted no_child : Waited
  ended : Bool → Waited

abbrev pub child_ended : ℕ → Bool → Saver → Saver
child_ended seconds ok s = record s {
  rdb_last_bgsave_ok = ok;
  rdb_last_save_time = if ok then seconds else s.rdb_last_save_time;
  rdb_bgsave_pid = 0;
}

abbrev pub polled : ℕ → Waited → Saver → Saver
polled seconds running s = s
polled seconds interrupted s = s
polled seconds no_child s = record s { rdb_bgsave_pid = 0; rdb_last_bgsave_ok = false }
polled seconds (ended ok) s = child_ended seconds ok s

unfoldable pub ar_rdb_poll_bgsave : ℕ → Waited → Saver → Saver
ar_rdb_poll_bgsave seconds w s = if s.rdb_bgsave_pid == 0 then s else polled seconds w s

-- The results -1, 0 and 1.
pub data BgResult : Type 0 where
  in_progress refused started : BgResult

abbrev pub bg_of : Bool → BgResult
bg_of true = started
bg_of false = refused

-- The process id that `fork` gave, `none` where it failed: then the save is in the foreground.
unfoldable pub ar_rdb_bgsave :
    Bool → Calls → ℕ → ℕ → Waited → Option ℕ → Core → Saver × Disk → (Saver × Disk) × BgResult
unfolding ar_rdb_poll_bgsave ar_rdb_save
ar_rdb_bgsave path_ok io now seconds w child c (s, d) =
    let s1 = ar_rdb_poll_bgsave seconds w s in
    if s1.rdb_bgsave_pid == 0
    then (if path_ok
        then elim child [
          | none ↦ let (sd, ok) = ar_rdb_save path_ok io now seconds c (s1, d) in (sd, bg_of ok)
          | some pid ↦ ((record s1 { rdb_bgsave_pid = pid }, d), started)
        ]
        else ((s1, d), refused))
    else ((s1, d), in_progress)

-- `waitpid` until it is not interrupted; `ok` is whether the child has ended well.
unfoldable pub ar_rdb_wait_bgsave : ℕ → Bool → Saver → Saver
ar_rdb_wait_bgsave seconds ok s = if s.rdb_bgsave_pid == 0 then s else child_ended seconds ok s

abbrev pub is_left : Option Bytes → Bool
is_left none = false
is_left (some s) = true

-- No file is no error; `path_ok` is the result of `ar_rdb_build_path`, and `opens` is whether the
-- file that is there can be opened.
unfoldable pub ar_rdb_load : (ℕ → ℕ) → ℕ → Bool → Bool → Option Bytes → Core → Core × Bool
unfolding load_bytes
ar_rdb_load rand now false opens file c = (c, false)
ar_rdb_load rand now true opens none c = (c, true)
ar_rdb_load rand now true opens (some s) c =
    if opens then (let (l, o) = load_bytes rand now c s in (l.core, is_left o)) else (c, false)
