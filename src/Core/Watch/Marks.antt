-- ===== src/Core/Watch/Marks.antt =====
-- About `ar_watch_touch` of native/src/ar_core.c.
use aura_redis.Prelude.{◌≡◌, refl, Bool, true, false, ◌&&◌, ◌||◌, List, [], ◌∷◌, arith}
use aura_redis.Bytes.{Bytes}
use aura_redis.Entry.{Entry}
use aura_redis.Core.{Core, Conn}
use aura_redis.Core.Watch.{watches, touch_conn, touch_conns}

-- The connection with its dirty flag set where it is in use and watches `key`.
abbrev pub marked : Bytes → Conn → Conn
marked key c = record c { watch_dirty = c.watch_dirty || (c.in_use && watches key c.watch_keys) }

abbrev pub all_marked : Bytes → List Conn → List Conn
all_marked key [] = []
all_marked key (c ∷ cs) = marked key c ∷ all_marked key cs

touch_conn-marked :
    (key : Bytes) (used dirty : Bool) (keys : List Bytes)
    → touch_conn key (record { in_use = used; watch_keys = keys; watch_dirty = dirty })
      ≡ marked key (record { in_use = used; watch_keys = keys; watch_dirty = dirty })
unfolding touch_conn watches
touch_conn-marked key false false keys = refl
touch_conn-marked key false true keys = refl
touch_conn-marked key true dirty [] = ground arith
touch_conn-marked key true true (k ∷ ks) = refl
touch_conn-marked key true false (k ∷ ks) = ground arith

pub touch_conns-all_marked : (key : Bytes) (cs : List Conn) → touch_conns key cs ≡ all_marked key cs
unfolding touch_conns
touch_conns-all_marked key [] = refl
touch_conns-all_marked key (c ∷ cs) = ground (
  arith,
  touch_conn-marked key c.in_use c.watch_dirty c.watch_keys,
  touch_conns-all_marked key cs,
)
