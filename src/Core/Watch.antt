-- ===== src/Core/Watch.antt =====
-- WATCH notification: `ar_watch_touch` and `ar_watch_touch_all` of native/src/ar_core.c.
pub mod Marks
use aura_redis.Prelude.{Bool, true, false, not, ◌&&◌, ◌||◌, List, [], ◌∷◌, if◌then◌else◌}
use aura_redis.Bytes.{Bytes, bytes_eq}
use aura_redis.Core.{Core, Conn}

unfoldable pub watches : Bytes → List Bytes → Bool
watches key [] = false
watches key (k ∷ ks) = bytes_eq k key || watches key ks

abbrev pub is_watching : Conn → Bool
is_watching c = elim c.watch_keys [ [] ↦ false | k ∷ ks ↦ true ]

unfoldable pub touch_conn : Bytes → Conn → Conn
unfolding watches
touch_conn key c =
    if not c.in_use || not (is_watching c) || c.watch_dirty
    then c
    else if watches key c.watch_keys
    then record c { watch_dirty = true }
    else c

unfoldable pub touch_conns : Bytes → List Conn → List Conn
touch_conns key [] = []
touch_conns key (c ∷ cs) = touch_conn key c ∷ touch_conns key cs

unfoldable pub ar_watch_touch : Bytes → Core → Core
ar_watch_touch key c = record c { conns = touch_conns key c.conns }

unfoldable pub touch_conn_all : Conn → Conn
touch_conn_all c = if c.in_use && is_watching c then record c { watch_dirty = true } else c

unfoldable pub touch_conns_all : List Conn → List Conn
touch_conns_all [] = []
touch_conns_all (c ∷ cs) = touch_conn_all c ∷ touch_conns_all cs

unfoldable pub ar_watch_touch_all : Core → Core
ar_watch_touch_all c = record c { conns = touch_conns_all c.conns }
