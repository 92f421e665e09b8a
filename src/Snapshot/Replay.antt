-- ===== src/Snapshot/Replay.antt =====
-- What a load does with the entries of a snapshot, without the bytes.
use aura_redis.Prelude.{ℕ, Bool, true, false, List, [], ◌∷◌, if◌then◌else◌}
use aura_redis.Bytes.{Bytes}
use aura_redis.Entry.{Value, str, hash_obj, list_obj, zset_obj, Entry}
use aura_redis.Core.{Core}
use aura_redis.Snapshot.Write.{chained}
use aura_redis.Snapshot.Read.{
  Loading, apply_expire_abs, expired_on_load, skip_one, with_core, loaded_one, set_loaded,
  hset_loaded, push_loaded, zadd_loaded,
}

module _ {A : Type 0} (put : A → Core → Core × Bool) where
  -- Each element into the data plane, up to one that is refused.
  unfoldable pub put_all : List A → Core → Core × Bool
  put_all [] c = (c, true)
  put_all (a ∷ more) c =
      let (c1, ok) = put a c in elim ok [ true ↦ put_all more c1 | false ↦ (c1, false) ]

abbrev pub counted_as : Loading → Core × Bool → Loading × Bool
counted_as l (c, true) = (loaded_one c l, true)
counted_as l (c, false) = (with_core c l, false)

module _ (rand : ℕ → ℕ) (now : ℕ) where
  abbrev pub expiring : Bytes → ℕ → Loading → Core × Bool → Loading × Bool
  expiring key exp l (c, true) = counted_as l (apply_expire_abs key exp now c)
  expiring key exp l (c, false) = (with_core c l, false)

  -- The value under the key, then its deadline.
  unfoldable pub restore_value : Bytes → ℕ → Value → Loading → Loading × Bool
  unfolding put_all
  restore_value key exp (str v) l = (set_loaded rand now key v exp l, true)
  restore_value key exp (hash_obj h) l =
      expiring key exp l (put_all (hset_loaded rand now key) (chained h.buckets) l.core)
  restore_value key exp (list_obj vs) l =
      expiring key exp l (put_all (push_loaded rand now key) vs l.core)
  restore_value key exp (zset_obj z) l =
      expiring key exp l (put_all (zadd_loaded rand now key) z.arr l.core)

  unfoldable pub restore_entry : Entry → Loading → Loading × Bool
  unfolding restore_value
  restore_entry e l =
      if expired_on_load now e.expire_at
      then (skip_one l, true)
      else restore_value e.key e.expire_at e.value l

  -- The entries one after the other, up to one that fails.
  unfoldable pub restore_all : List Entry → Loading → Loading × Bool
  unfolding restore_entry
  restore_all [] l = (l, true)
  restore_all (e ∷ es) l =
      let (l1, ok) = restore_entry e l in elim ok [ true ↦ restore_all es l1 | false ↦ (l1, false) ]
