-- ===== src/Slowlog/Examples.antt =====
-- A push onto an empty log whose head is at its last slot, and a slow command.
use aura_redis.Prelude.{refl, arith, replicate, pos, [], ◌∷◌}
use aura_redis.Slowlog.{Slowlog, new_slow, slowlog_push, note_cmd_latency, blank_slow}
use aura_redis.Slowlog.Tallies.{IsTallied, note_cmd_latency-IsTallied}
use aura_redis.Slowlog.Newest.{IsRing, Pushes, slowlog_push-Pushes}

abbrev last_slot : Slowlog
last_slot = record {
  slowlog = replicate 128 blank_slow;
  slowlog_len = 0;
  slowlog_head = 127;
  slowlog_next_id = 1;
  slowlog_max_len = 128;
  slowlog_slower_than_us = pos 10000;
  slowlog_count = 0;
  cmd_latency_sum_us = 0;
  cmd_latency_samples = 0;
  cmd_lt_1ms = 0;
  cmd_lt_10ms = 0;
  cmd_lt_100ms = 0;
  cmd_ge_100ms = 0;
}

last_slot-IsRing : IsRing last_slot
last_slot-IsRing = record {
  size = refl;
  on = omega arith;
  limited = omega arith;
  head_lt = omega arith;
  len_le = omega arith;
}

slowlog_push-Pushes_example :
    Pushes
      (new_slow 100 20000 ((75 ∷ []) ∷ []) last_slot)
      last_slot
      (slowlog_push 100 20000 ((75 ∷ []) ∷ []) last_slot)
slowlog_push-Pushes_example =
    slowlog_push-Pushes 100 20000 ((75 ∷ []) ∷ []) last_slot last_slot-IsRing

last_slot-IsTallied : IsTallied last_slot
last_slot-IsTallied = record { tallied = refl; ring = last_slot-IsRing }

note_cmd_latency-IsTallied_example :
    IsTallied (note_cmd_latency 100 20000 ((75 ∷ []) ∷ []) last_slot)
note_cmd_latency-IsTallied_example =
    note_cmd_latency-IsTallied 100 20000 ((75 ∷ []) ∷ []) last_slot last_slot-IsTallied
