-- ===== src/Core/Expire.antt =====
-- The expiry commands of native/src/ar_core.c: EXPIRE, PEXPIRE, EXPIREAT, PEXPIREAT, TTL and PTTL.
pub mod Keeps
pub mod Remaining
use aura_redis.Prelude.{
  ℕ, ◌+◌, ◌-◌, ◌*◌, ◌/◌, ◌%◌, ◌^◌, Bool, true, false, Option, none, some, ◌==◌, leb, if◌then◌else◌,
  add64, ℤ, pos, negsuc, is_nonpos, magnitude,
}
use aura_redis.Bytes.{Bytes}
use aura_redis.Entry.{Entry}
use aura_redis.Core.{Core, Tier}
use aura_redis.Core.Counters.{entry_clear_expire, entry_set_expire_at}
use aura_redis.Core.Watch.{ar_watch_touch}
use aura_redis.Core.Find.{ar_find_entry_ex}
use aura_redis.Core.Store.{store_at}

-- `entry_clear_expire(core, e); ar_watch_touch(core, key, klen); return 1;`
unfoldable pub clear_deadline : Bytes → Tier → Entry → Core → Core
clear_deadline key tier e c =
    let (c1, e1) = entry_clear_expire c e in ar_watch_touch key (store_at tier e1 c1)

unfoldable pub set_deadline : Bytes → ℕ → Tier → Entry → Core → Core
set_deadline key at tier e c =
    let (c1, e1) = entry_set_expire_at c e at in ar_watch_touch key (store_at tier e1 c1)

-- The body that the four commands share: `amount` is their argument, `at` the deadline it asks for.
unfoldable pub expire_found : Bytes → ℤ → ℕ → Core × Option (Tier × Entry) → Core × Bool
expire_found key amount at (c, none) = (c, false)
expire_found key amount at (c, some (tier, e)) =
    (if is_nonpos amount then clear_deadline key tier e c else set_deadline key at tier e c, true)

unfoldable pub ar_expire : ℕ → Bytes → ℤ → Core → Core × Bool
unfolding expire_found
ar_expire now key seconds c =
    expire_found key seconds (add64 now (magnitude seconds * 1000 % 2 ^ 64))
      (ar_find_entry_ex now key c)

unfoldable pub ar_pexpire : ℕ → Bytes → ℤ → Core → Core × Bool
unfolding expire_found
ar_pexpire now key ms c =
    expire_found key ms (add64 now (magnitude ms)) (ar_find_entry_ex now key c)

unfoldable pub ar_expireat : ℕ → Bytes → ℤ → Core → Core × Bool
unfolding expire_found
ar_expireat now key unix_sec c =
    expire_found key unix_sec (magnitude unix_sec * 1000 % 2 ^ 64) (ar_find_entry_ex now key c)

unfoldable pub ar_pexpireat : ℕ → Bytes → ℤ → Core → Core × Bool
unfolding expire_found
ar_pexpireat now key unix_ms c =
    expire_found key unix_ms (magnitude unix_ms) (ar_find_entry_ex now key c)

-- The replies -2 (no key) and -1 (no deadline).
abbrev pub missing : ℤ
missing = negsuc 1

abbrev pub persistent : ℤ
persistent = negsuc 0

unfoldable pub pttl_of : ℕ → Option (Tier × Entry) → ℤ
pttl_of now none = missing
pttl_of now (some (tier, e)) =
    if e.expire_at == 0
    then persistent
    else if leb e.expire_at now
    then missing
    else pos (e.expire_at - now)

unfoldable pub ttl_of : ℕ → Option (Tier × Entry) → ℤ
ttl_of now none = missing
ttl_of now (some (tier, e)) =
    if e.expire_at == 0
    then persistent
    else if leb e.expire_at now
    then missing
    else pos ((e.expire_at - now + 999) / 1000)

unfoldable pub ar_pttl : ℕ → Bytes → Core → Core × ℤ
unfolding pttl_of
ar_pttl now key c = let (c1, r) = ar_find_entry_ex now key c in (c1, pttl_of now r)

unfoldable pub ar_ttl : ℕ → Bytes → Core → Core × ℤ
unfolding ttl_of
ar_ttl now key c = let (c1, r) = ar_find_entry_ex now key c in (c1, ttl_of now r)
