-- ===== src/Core/Set/Retype.antt =====
-- About the type counters of SET over a value of another type, in `ar_entry_set_ex`.
use aura_redis.Prelude.{ℕ, suc, ◌+◌, ◌^◌, ◌≤◌, ◌<◌, ◌≡◌, arith, if◌then◌else◌, add64, sat_sub, dec}
use aura_redis.Entry.{ArType, string, type_eq}
use aura_redis.Core.Counters.{put}

module _ (f s s' : ArType → ℕ) (same : (u : ArType) → f u ≡ s u) where
  -- One key leaves the type `ty` and one joins the strings.
  pub moved_keys :
      (ty t : ArType)
      → 1 ≤ s ty
      → s' t + (if type_eq ty t then 1 else 0) ≡ s t + (if type_eq string t then 1 else 0)
      → put string (suc (put ty (dec (f ty)) f string)) (put ty (dec (f ty)) f) t ≡ s' t
  moved_keys ty t h d = ground (arith, same string, same ty, same t)

  -- `a` bytes leave the type `ty` and `b` join the strings.
  pub moved_bytes :
      (a b : ℕ) (ty t : ArType)
      → a ≤ s ty
      → s string + b < 2 ^ 64
      → s' t + (if type_eq ty t then a else 0) ≡ s t + (if type_eq string t then b else 0)
      → put string (add64 (put ty (sat_sub (f ty) a) f string) b) (put ty (sat_sub (f ty) a) f) t
        ≡ s' t
  moved_bytes a b ty t h fits d = ground (arith, same string, same ty, same t)
