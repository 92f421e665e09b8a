-- ===== src/Slowlog.antt =====
-- The latency counters and the slow log of native/src/ar_server.c: `slowlog_push`,
-- `note_cmd_latency` and the entries that SLOWLOG GET reads. The times are arguments. CONFIG keeps
-- the length's limit between 0 and 128; a negative threshold turns the log off.
pub mod Newest
pub mod Tallies
pub mod Examples
use aura_redis.Prelude.{
  ℕ, zero, suc, ◌+◌, ◌-◌, ◌%◌, ◌^◌, Bool, true, false, not, ◌&&◌, List, [], ◌∷◌, length, leb, ltb,
  ◌==◌, if◌then◌else◌, get_or, set, ℤ, pos, negsuc,
}
use aura_redis.Bytes.{Bytes}
use aura_redis.Resp.{take}
use aura_redis.Dispatch.{cmd_eq}

pub record SlowEntry : Type 0 where
  pub id : ℕ
  pub unix_ts : ℕ
  pub duration_us : ℕ
  pub args : List Bytes

pub record Slowlog : Type 0 where
  pub slowlog : List SlowEntry
  pub slowlog_len : ℕ
  pub slowlog_head : ℕ
  pub slowlog_next_id : ℕ
  pub slowlog_max_len : ℕ
  pub slowlog_slower_than_us : ℤ
  pub slowlog_count : ℕ
  pub cmd_latency_sum_us : ℕ
  pub cmd_latency_samples : ℕ
  pub cmd_lt_1ms : ℕ
  pub cmd_lt_10ms : ℕ
  pub cmd_lt_100ms : ℕ
  pub cmd_ge_100ms : ℕ

-- AR_SLOWLOG_MAX
abbrev pub slowlog_max : ℕ
slowlog_max = 128

-- At most 8 arguments, each cut to 47 bytes.
unfoldable pub cut_args : ℕ → List Bytes → List Bytes
unfolding take
cut_args zero argv = []
cut_args (suc n) [] = []
cut_args (suc n) (a ∷ argv) = take 47 a ∷ cut_args n argv

abbrev pub max_len : Slowlog → ℕ
max_len l = if ltb slowlog_max l.slowlog_max_len then slowlog_max else l.slowlog_max_len

abbrev pub new_slow : ℕ → ℕ → List Bytes → Slowlog → SlowEntry
new_slow now us argv l = record {
  id = l.slowlog_next_id;
  unix_ts = now;
  duration_us = us;
  args = cut_args 8 argv;
}

unfoldable pub slowlog_push : ℕ → ℕ → List Bytes → Slowlog → Slowlog
unfolding cut_args
slowlog_push now us argv l = if l.slowlog_max_len == 0 then l else record l {
  slowlog = set l.slowlog l.slowlog_head (new_slow now us argv l);
  slowlog_next_id = (l.slowlog_next_id + 1) % 2 ^ 64;
  slowlog_head = (l.slowlog_head + 1) % max_len l;
  slowlog_len = if ltb l.slowlog_len (max_len l) then l.slowlog_len + 1 else l.slowlog_len;
}

abbrev pub count_sample : ℕ → Slowlog → Slowlog
count_sample us l = record l {
  cmd_latency_sum_us = (l.cmd_latency_sum_us + us) % 2 ^ 64;
  cmd_latency_samples = (l.cmd_latency_samples + 1) % 2 ^ 64;
}

abbrev pub count_class : ℕ → Slowlog → Slowlog
count_class us l =
    if ltb us 1000
    then record l { cmd_lt_1ms = (l.cmd_lt_1ms + 1) % 2 ^ 64 }
    else if ltb us 10000
    then record l { cmd_lt_10ms = (l.cmd_lt_10ms + 1) % 2 ^ 64 }
    else if ltb us 100000
    then record l { cmd_lt_100ms = (l.cmd_lt_100ms + 1) % 2 ^ 64 }
    else record l { cmd_ge_100ms = (l.cmd_ge_100ms + 1) % 2 ^ 64 }

abbrev pub is_slow : ℕ → ℤ → Bool
is_slow us (pos n) = leb n us
is_slow us (negsuc n) = false

abbrev pub is_logged : List Bytes → Bool
is_logged [] = false
is_logged (cmd ∷ args) = not (cmd_eq cmd "slowlog")

unfoldable pub note_cmd_latency : ℕ → ℕ → List Bytes → Slowlog → Slowlog
unfolding slowlog_push cmd_eq
note_cmd_latency now us argv l =
    let l1 = count_class us (count_sample us l) in
    if is_slow us l.slowlog_slower_than_us
    then (let l2 = record l1 { slowlog_count = (l1.slowlog_count + 1) % 2 ^ 64 } in
        if is_logged argv then slowlog_push now us argv l2 else l2)
    else l1

-- `while (idx < 0) idx += maxl`, from `missing` below 0; each round brings at least one.
unfoldable pub wrap_up : ℕ → ℕ → ℕ → ℕ
wrap_up zero maxl missing = 0
wrap_up (suc fuel) maxl missing =
    let more = wrap_up fuel maxl (missing - maxl) in
    if leb missing maxl then maxl - missing else more

-- The slot of the `i`-th entry from the newest.
unfoldable pub slot_of : ℕ → Slowlog → ℕ
unfolding wrap_up
slot_of i l =
    let maxl = if l.slowlog_max_len == 0 then slowlog_max else max_len l in
    (if ltb i l.slowlog_head
      then l.slowlog_head - 1 - i
      else wrap_up (suc i) maxl (i + 1 - l.slowlog_head))
    % maxl

abbrev pub blank_slow : SlowEntry
blank_slow = record { id = 0; unix_ts = 0; duration_us = 0; args = [] }

-- The `i`-th entry that SLOWLOG GET replies.
unfoldable pub slowlog_at : ℕ → Slowlog → SlowEntry
unfolding slot_of
slowlog_at i l = get_or l.slowlog (slot_of i l) blank_slow
