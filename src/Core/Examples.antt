-- ===== src/Core/Examples.antt =====
-- The theorems at a small data plane with one key.
use aura_redis.Prelude.{
  false, ℕ, ◌+◌, ◌-◌, ◌^◌, ◌<◌, ◌≡◌, refl, ap, true, not, ◌&&◌, none, some, List, [], ◌∷◌, length,
  replicate, length-replicate, arith, if◌then◌else◌, ◌==◌, leb, pos,
}
use aura_redis.Bytes.{Bytes}
use aura_redis.Entry.{Entry, entry_bytes, payload_bytes, sizeof_entry}
use aura_redis.Table.Weight.{weigh-empty}
use aura_redis.Table.Rehash.{find-empty, empty-IsPlaced}
use aura_redis.Core.{Core, hot_cold, ar_core_create}
use aura_redis.Core.Counters.{ar_mem_add, ar_type_stats_add_key, ar_type_stats_note_bigkey}
use aura_redis.Core.Find.{ar_find_entry_ex}
use aura_redis.Core.Find.Keeps.{Finds, find-Finds, live}
use aura_redis.Core.Expire.{ar_pexpire, ar_pttl, missing}
use aura_redis.Core.Expire.Remaining.{pttl-pexpire}
use aura_redis.Core.Tiers.{maybe_demote_hot, ar_rehash_if_needed, ar_core_set_layout}
use aura_redis.Core.Tiers.Moves.{Transparent}
use aura_redis.Core.Tiers.Keeps.{Transparent-maybe_demote_hot, Transparent-rehash}
use aura_redis.Core.Tiers.Migrate.{Migrates, Migrates-set_layout}
use aura_redis.Core.Evict.{maybe_evict}
use aura_redis.Core.Evict.Drops.{Drops}
use aura_redis.Core.Evict.Keeps.{Drops-maybe_evict}
use aura_redis.Core.Set.{new_entry, link_new, ar_entry_set_ex}
use aura_redis.Core.Set.Steps.{view}
use aura_redis.Core.Set.Links.{link_new-Rewrites, link_new-stands, total-link_new}
use aura_redis.Core.Set.Sets.{Sets}
use aura_redis.Core.Set.Keeps.{set-Sets, wanted}
use aura_redis.Core.Keys.{ar_del_bin, ar_core_pin, ar_flushdb, ar_core_active_expire}
use aura_redis.Core.Keys.Keeps.{
  Changes, is_some, pinned_as, del-Changes, pin-Changes, Flushed, flushdb-Flushed,
}
use aura_redis.Core.Keys.Purge.{Purges, active_expire-Purges}
use aura_redis.Core.Strings.{hit, miss, get_ptr}
use aura_redis.Core.Strings.Keeps.{Reads, got, get_ptr-Reads, get-set}
use aura_redis.Core.Invariant.{total, deadline, IsValid, lookup}

abbrev pub zero_rand : ℕ → ℕ
zero_rand n = 0

abbrev pub key : Bytes
key = 107 ∷ []

abbrev val : Bytes
val = 118 ∷ 49 ∷ []

-- A new data plane holds the invariant.
pub create-IsValid : IsValid ar_core_create
unfolding ar_core_create
create-IsValid =
    let n : length {A = List Entry} (replicate 1024 []) ≡ 1024 =
      length-replicate {A = List Entry} 1024 [] in
    let z = λ (m : Entry → ℕ). weigh-empty m 1024 in
    let w = λ (m : Entry → ℕ). weigh-empty m 0 in
    record {
      shape = record {
        hot_pos = omega (arith, n);
        cold_pos = omega arith;
        cold_null = refl;
        placed_hot = empty-IsPlaced 1024;
        placed_cold = empty-IsPlaced 0;
        once = λ k. omega (arith, z _, w _);
      };
      counts = record { keys = omega (arith, z _, w _); hot_keys = refl; cold_keys = refl };
      accounts = record {
        memory = omega (arith, z _, w _);
        ttl_keys = omega (arith, z _, w _);
        ttl_sum = omega (arith, z _, w _);
        pins = omega (arith, z _, w _);
        type_keys = λ t. omega (arith, z _, w _);
        type_memory = λ t. omega (arith, z _, w _);
      };
    }

pub create-total : (m : Entry → ℕ) → total m ar_core_create.dict ≡ 0
unfolding ar_core_create
create-total m = omega (arith, weigh-empty m 1024, weigh-empty m 0)

create-empty : (k : Bytes) → lookup k ar_core_create.dict ≡ none
unfolding ar_core_create lookup
create-empty k = rw (find-empty k 1024, find-empty k 0) refl

pub create-missing : lookup key ar_core_create.dict ≡ none
create-missing = create-empty key

abbrev pub one_key : Core
one_key = link_new key val ar_core_create

abbrev entry : Entry
entry = new_entry key val ar_core_create

pub one_key-IsValid : IsValid one_key
one_key-IsValid =
    (link_new-Rewrites key val ar_core_create create-IsValid create-missing
      (omega (arith, create-total entry_bytes))).valid

one_key-lookup : lookup key one_key.dict ≡ some entry
unfolding lookup
one_key-lookup = rw (link_new-stands key val ar_core_create create-IsValid create-missing) refl

one_key-total : (m : Entry → ℕ) → total m one_key.dict ≡ m entry
one_key-total m =
    omega
      (arith, total-link_new key val ar_core_create create-IsValid create-missing m, create-total m)

one_key-fits : total entry_bytes one_key.dict + (length key + length val + sizeof_entry) < 2 ^ 64
one_key-fits = unfold entry_bytes payload_bytes in omega (arith, one_key-total entry_bytes)

no_deadline : total deadline one_key.dict ≡ 0
no_deadline = one_key-total deadline

one_key-calm : one_key.maxmemory ≡ 0
one_key-calm =
    unfold link_new ar_mem_add ar_type_stats_add_key ar_type_stats_note_bigkey ar_core_create in
    refl

one_key-unpinned : one_key.pinned_keys ≡ 0
one_key-unpinned =
    unfold link_new ar_mem_add ar_type_stats_add_key ar_type_stats_note_bigkey ar_core_create in
    refl

one_key-live : live 1000 (lookup key one_key.dict) ≡ some entry
one_key-live = ap (live 1000) one_key-lookup

set-Sets_example :
    Sets key
      (wanted zero_rand 1000 key val 9000)
      one_key
      (ar_entry_set_ex zero_rand 1000 key val 9000 one_key)
set-Sets_example =
    set-Sets zero_rand 1000 key val 9000 one_key one_key-IsValid one_key-fits
      (omega (arith, no_deadline))

get-set_example :
    (get_ptr zero_rand 2000 key (ar_entry_set_ex zero_rand 1000 key val 9000 one_key)).1
    ≡ (if not (9000 == 0) && leb 9000 2000 then miss else hit val)
get-set_example =
    get-set zero_rand 1000 2000 key val 9000 one_key one_key-IsValid one_key-calm one_key-fits
      (omega (arith, no_deadline))

find-Finds_example : Finds 1000 key one_key (ar_find_entry_ex 1000 key one_key)
find-Finds_example = find-Finds 1000 key one_key one_key-IsValid

Drops-maybe_evict_example : Drops 1000 one_key (maybe_evict zero_rand 1000 one_key)
Drops-maybe_evict_example = Drops-maybe_evict zero_rand 1000 one_key one_key-IsValid

active_expire-Purges_example :
    Purges 1000 one_key (ar_core_active_expire zero_rand 1000 20 one_key).0
active_expire-Purges_example = active_expire-Purges 1000 zero_rand 20 one_key one_key-IsValid

get_ptr-Reads_example :
    Reads 1000 key (got 1000 (view key one_key)) one_key (get_ptr zero_rand 1000 key one_key)
get_ptr-Reads_example = get_ptr-Reads zero_rand key 1000 one_key one_key-IsValid

pttl-pexpire_example :
    (ar_pttl 1200 key (ar_pexpire 1000 key (pos 500) one_key).0).1
    ≡ (if leb (1000 + 500) 1200 then missing else pos (1000 + 500 - 1200))
pttl-pexpire_example =
    pttl-pexpire 1000 1200 key 500 entry one_key one_key-IsValid one_key-live (omega arith)
      (omega (arith, no_deadline))

Migrates-set_layout_example : Migrates one_key (ar_core_set_layout (some hot_cold) one_key).0
Migrates-set_layout_example = Migrates-set_layout (some hot_cold) one_key one_key-IsValid

Transparent-maybe_demote_hot_example : Transparent one_key (maybe_demote_hot zero_rand one_key)
Transparent-maybe_demote_hot_example =
    Transparent-maybe_demote_hot zero_rand one_key one_key-IsValid

Transparent-rehash_example : Transparent one_key (ar_rehash_if_needed one_key)
Transparent-rehash_example = Transparent-rehash one_key one_key-IsValid

del-Changes_example :
    Changes key none
      (is_some (live 1000 (lookup key one_key.dict)))
      one_key
      (ar_del_bin 1000 key one_key)
del-Changes_example = del-Changes 1000 key one_key one_key-IsValid

pin-Changes_example :
    Changes key
      (pinned_as true (live 1000 (lookup key one_key.dict)))
      (is_some (live 1000 (lookup key one_key.dict)))
      one_key
      (ar_core_pin 1000 key one_key)
pin-Changes_example = pin-Changes 1000 key one_key one_key-IsValid

flushdb-Flushed_example : Flushed one_key (ar_flushdb one_key)
flushdb-Flushed_example = flushdb-Flushed one_key one_key-IsValid

abbrev watched : Core
watched = record one_key {
  conns = (record { in_use = true; watch_keys = key ∷ []; watch_dirty = false }) ∷ [];
}
