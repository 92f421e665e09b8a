-- ===== src/Core/Counters.antt =====
-- Memory, type and expiry accounting: `ar_mem_*` and `ar_type_stats_*` of native/src/ar_types.c,
-- `entry_clear_expire` and `entry_set_expire_at` of native/src/ar_core.c.
-- A guarded assignment is written field by field: the field keeps its value where the guard fails.
use aura_redis.Prelude.{ℕ, suc, ◌-◌, ltb, ◌==◌, if◌then◌else◌, add64, sat_sub, dec}
use aura_redis.Entry.{ArType, string, type_eq, sizeof_entry, Entry}
use aura_redis.Core.{Core, Usage}

unfoldable pub ar_mem_add : ℕ → Core → Core
ar_mem_add n c = record c { usage = record c.usage { used_memory = add64 c.used_memory n } }

unfoldable pub ar_mem_sub : ℕ → Core → Core
ar_mem_sub n c = record c { usage = record c.usage { used_memory = sat_sub c.used_memory n } }

-- `core->type_x[type] = v`
abbrev pub put : ArType → ℕ → (ArType → ℕ) → ArType → ℕ
put t v f u = if type_eq t u then v else f u

unfoldable pub ar_type_stats_note_bigkey : ArType → ℕ → Core → Core
ar_type_stats_note_bigkey t payload c = record c {
  metrics = record c.metrics {
    bigkey_bytes = if ltb c.bigkey_bytes payload then payload else c.bigkey_bytes;
    bigkey_type = if ltb c.bigkey_bytes payload then t else c.bigkey_type;
  };
}

-- The two signs of `delta`.
unfoldable pub type_bytes_add : ArType → ℕ → Core → Core
type_bytes_add t n c = record c {
  usage = record c.usage { type_bytes = put t (add64 (c.type_bytes t) n) c.type_bytes };
}

unfoldable pub type_bytes_sub : ArType → ℕ → Core → Core
type_bytes_sub t n c = record c {
  usage = record c.usage { type_bytes = put t (sat_sub (c.type_bytes t) n) c.type_bytes };
}

unfoldable pub ar_type_stats_add_key : ArType → ℕ → Core → Core
unfolding ar_type_stats_note_bigkey
ar_type_stats_add_key t bytes c =
    let c1 = record c {
      usage = record c.usage {
        type_nkeys = put t (suc (c.type_nkeys t)) c.type_nkeys;
        type_bytes = put t (add64 (c.type_bytes t) bytes) c.type_bytes;
      };
    } in
    let c2 = ar_type_stats_note_bigkey t (bytes - sizeof_entry) c1 in
    record c1 { metrics = if ltb sizeof_entry bytes then c2.metrics else c1.metrics }

unfoldable pub ar_type_stats_sub_key : ArType → ℕ → Core → Core
ar_type_stats_sub_key t bytes c = record c {
  usage = record c.usage {
    type_nkeys = put t (dec (c.type_nkeys t)) c.type_nkeys;
    type_bytes = put t (sat_sub (c.type_bytes t) bytes) c.type_bytes;
  };
}

unfoldable pub ar_type_stats_reset : Core → Core
ar_type_stats_reset c = record c {
  usage = record c.usage { type_nkeys = λ t. 0; type_bytes = λ t. 0 };
  metrics = record c.metrics { bigkey_bytes = 0; bigkey_type = string };
}

-- The counters of `entry_clear_expire`; the entry's deadline becomes 0.
unfoldable pub clear_expire_usage : ℕ → Usage → Usage
clear_expire_usage at u = record u {
  keys_with_ttl = if at == 0 then u.keys_with_ttl else dec u.keys_with_ttl;
  expire_at_sum = if at == 0 then u.expire_at_sum else sat_sub u.expire_at_sum at;
}

unfoldable pub entry_clear_expire : Core → Entry → Core × Entry
unfolding clear_expire_usage
entry_clear_expire c e =
    (record c { usage = clear_expire_usage e.expire_at c.usage }, record e { expire_at = 0 })

unfoldable pub set_expire_usage : ℕ → Usage → Usage
set_expire_usage at u = record u {
  keys_with_ttl = if at == 0 then u.keys_with_ttl else suc u.keys_with_ttl;
  expire_at_sum = if at == 0 then u.expire_at_sum else add64 u.expire_at_sum at;
}

unfoldable pub entry_set_expire_at : Core → Entry → ℕ → Core × Entry
unfolding entry_clear_expire set_expire_usage
entry_set_expire_at c e at =
    let (c1, e1) = entry_clear_expire c e in
    (record c1 { usage = set_expire_usage at c1.usage }, record e1 { expire_at = at })
