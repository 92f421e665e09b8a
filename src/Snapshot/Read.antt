-- ===== src/Snapshot/Read.antt =====
-- The load of a snapshot: `ar_rdb_load` of native/src/ar_rdb.c and the two versions of an entry.
-- What is left of the file is `none` once the load has failed; the keys up to there stay. `now` is
-- one reading of the clock for the whole load, where its commands read it again.
use aura_redis.Prelude.{
  ℕ, zero, suc, ◌+◌, ◌-◌, ◌/◌, ◌%◌, ◌^◌, Bool, true, false, not, ◌&&◌, ◌||◌, Option, none, some, [],
  ◌∷◌, leb, ltb, ◌==◌, if◌then◌else◌, pos,
}
use aura_redis.Bytes.{Bytes, bytes_eq}
use aura_redis.Entry.{string, hash, list, zset, HashField, ZNode}
use aura_redis.Core.{Core}
use aura_redis.Core.Set.{ar_entry_set_ex}
use aura_redis.Core.Expire.{ar_expire}
use aura_redis.Core.Typed.{Wrote, counted}
use aura_redis.Core.Hashes.{ar_hash_hset}
use aura_redis.Core.Lists.Writes.{ar_list_push}
use aura_redis.Core.ZSets.{ZAdded, added, ar_zset_zadd}
use aura_redis.Snapshot.Format.{
  max_elems, Reading, ◌>>=◌, fread, rd_u8, rd_u32, rd_u64, rd_f64, rd_blob,
}
use aura_redis.Snapshot.Write.{type_code, magic}

unfoldable pub rd_field : Bytes → Reading HashField
unfolding rd_blob
rd_field s = rd_blob s >>= λ f s1. rd_blob s1 >>= λ v s2. some (record { field = f; val = v }, s2)

unfoldable pub rd_node : Bytes → Reading ZNode
unfolding rd_blob rd_f64
rd_node s = rd_f64 s >>= λ d s1. rd_blob s1 >>= λ m s2. some (record { member = m; score = d }, s2)

-- The number of elements, at most AURA_RDB_MAX_ELEMS.
unfoldable pub rd_count : Bytes → Reading ℕ
unfolding rd_u32
rd_count s = rd_u32 s >>= λ n rest. if ltb max_elems n then none else some (n, rest)

module _ {A : Type 0} (rd : Bytes → Reading A) where
  -- The loops that read elements and drop them.
  unfoldable pub drain_each : ℕ → Bytes → Option Bytes
  drain_each zero s = some s
  drain_each (suc n) s = elim (rd s) [ none ↦ none | some (a, rest) ↦ drain_each n rest ]

  unfoldable pub drain_payload : Bytes → Option Bytes
  unfolding drain_each rd_count
  drain_payload s = elim (rd_count s) [ none ↦ none | some (n, rest) ↦ drain_each n rest ]

  module _ (put : A → Core → Core × Bool) where
    -- The loops that read elements and put each into the data plane.
    unfoldable pub put_each : ℕ → Core → Bytes → Core × Option Bytes
    put_each zero c s = (c, some s)
    put_each (suc n) c s = elim (rd s) [
      | none ↦ (c, none)
      | some (a, rest) ↦
          let (c1, ok) = put a c in elim ok [ true ↦ put_each n c1 rest | false ↦ (c1, none) ]
    ]

    unfoldable pub put_payload : Core → Bytes → Core × Option Bytes
    unfolding put_each rd_count
    put_payload c s = elim (rd_count s) [ none ↦ (c, none) | some (n, rest) ↦ put_each n c rest ]

-- `(int64_t)((exp - now + 999ull) / 1000ull)`, at least 1.
abbrev pub seconds_left : ℕ → ℕ → ℕ
seconds_left now exp = let sec = ((exp - now + 999) % 2 ^ 64) / 1000 in if sec == 0 then 1 else sec

unfoldable pub apply_expire_abs : Bytes → ℕ → ℕ → Core → Core × Bool
apply_expire_abs key exp now c =
    if exp == 0
    then (c, true)
    else if leb exp now
    then (c, true)
    else ar_expire now key (pos (seconds_left now exp)) c

-- The data plane with the numbers of keys loaded and skipped.
pub record Loading : Type 0 where
  pub core : Core
  pub loaded : ℕ
  pub skipped_expired : ℕ

abbrev pub expired_on_load : ℕ → ℕ → Bool
expired_on_load now exp = not (exp == 0) && leb exp now

abbrev pub skip_one : Loading → Loading
skip_one l = record l { skipped_expired = suc l.skipped_expired }

abbrev pub with_core : Core → Loading → Loading
with_core c l = record l { core = c }

abbrev pub loaded_one : Core → Loading → Loading
loaded_one c l = record l { core = c; loaded = suc l.loaded }

-- The deadline, and the key counts as loaded.
abbrev pub finish_object : Loading → Option Bytes → Core × Bool → Loading × Option Bytes
finish_object l rest (c, true) = (loaded_one c l, rest)
finish_object l rest (c, false) = (with_core c l, none)

-- A key, a value and a deadline.
unfoldable pub rd_entry_v1 : Bytes → Reading (Bytes × Bytes × ℕ)
unfolding rd_blob rd_u64
rd_entry_v1 s =
    rd_blob s >>= λ k s1. rd_blob s1 >>= λ v s2. rd_u64 s2 >>= λ x s3. some ((k, v, x), s3)

-- A type, a key and a deadline.
unfoldable pub rd_entry_v2 : Bytes → Reading (ℕ × Bytes × ℕ)
unfolding rd_u8 rd_blob rd_u64
rd_entry_v2 s =
    rd_u8 s >>= λ t s1. rd_blob s1 >>= λ k s2. rd_u64 s2 >>= λ x s3. some ((t, k, x), s3)

abbrev pub is_done : Wrote → Bool
is_done (counted n) = true
is_done _ = false

abbrev pub was_added : ZAdded → Bool
was_added (added n) = true
was_added _ = false

abbrev pub is_version : ℕ → Bool
is_version ver = ver == 2 || ver == 1

-- The magic, the version and the number of entries.
unfoldable pub rd_header : Bytes → Reading (ℕ × ℕ)
unfolding fread rd_u32 rd_u64 bytes_eq
rd_header s = fread 8 s >>= λ m s1.
    if bytes_eq m magic
    then (rd_u32 s1 >>= λ ver s2.
        if is_version ver
        then (rd_u64 s2 >>= λ n s3. if ltb 10000000 n then none else some ((ver, n), s3))
        else none)
    else none

module _ (rand : ℕ → ℕ) (now : ℕ) where
  abbrev pub set_loaded : Bytes → Bytes → ℕ → Loading → Loading
  set_loaded key val exp l = loaded_one (ar_entry_set_ex rand now key val exp l.core) l

  unfoldable pub load_one_v1 : Loading → Bytes → Loading × Option Bytes
  unfolding rd_entry_v1
  load_one_v1 l s = elim (rd_entry_v1 s) [
    | none ↦ (l, none)
    | some ((key, val, exp), rest) ↦
        (if expired_on_load now exp then skip_one l else set_loaded key val exp l, some rest)
  ]

  -- The commands for one element, and whether their result is not negative.
  unfoldable pub hset_loaded : Bytes → HashField → Core → Core × Bool
  hset_loaded key f c = let (c1, r) = ar_hash_hset rand now key (f ∷ []) c in (c1, is_done r)

  unfoldable pub push_loaded : Bytes → Bytes → Core → Core × Bool
  push_loaded key val c =
      let (c1, r) = ar_list_push rand now key false (val ∷ []) c in (c1, is_done r)

  unfoldable pub zadd_loaded : Bytes → ZNode → Core → Core × Bool
  zadd_loaded key n c = let (c1, r) = ar_zset_zadd rand now key (n ∷ []) c in (c1, was_added r)

  unfoldable pub load_string : Bytes → ℕ → Bool → Loading → Bytes → Loading × Option Bytes
  load_string key exp expired l s = elim (rd_blob s) [
    | none ↦ (l, none)
    | some (val, rest) ↦ (if expired then l else set_loaded key val exp l, some rest)
  ]

  -- A payload that is put into the data plane, then the deadline.
  abbrev pub with_expiry : Bytes → ℕ → Loading → Core × Option Bytes → Loading × Option Bytes
  with_expiry key exp l (c, none) = (with_core c l, none)
  with_expiry key exp l (c, some rest) =
      finish_object l (some rest) (apply_expire_abs key exp now c)

  -- The cases of AR_TYPE_HASH, AR_TYPE_LIST and AR_TYPE_ZSET.
  unfoldable pub load_object :
      {A : Type 0}
      → (Bytes → Reading A)
      → (A → Core → Core × Bool)
      → Bytes
      → ℕ
      → Bool
      → Loading
      → Bytes
      → Loading × Option Bytes
  unfolding drain_payload put_payload apply_expire_abs
  load_object rd put key exp true l s = (l, drain_payload rd s)
  load_object rd put key exp false l s = with_expiry key exp l (put_payload rd put l.core s)

  -- The switch over the type.
  unfoldable pub load_typed : ℕ → Bytes → ℕ → Bool → Loading → Bytes → Loading × Option Bytes
  unfolding load_string load_object hset_loaded push_loaded zadd_loaded rd_field rd_node
  load_typed type key exp expired l s =
      if type == type_code string
      then load_string key exp expired l s
      else if type == type_code hash
      then load_object rd_field (hset_loaded key) key exp expired l s
      else if type == type_code list
      then load_object rd_blob (push_loaded key) key exp expired l s
      else if type == type_code zset
      then load_object rd_node (zadd_loaded key) key exp expired l s
      else (l, none)

  unfoldable pub load_one_v2 : Loading → Bytes → Loading × Option Bytes
  unfolding rd_entry_v2 load_typed
  load_one_v2 l s = elim (rd_entry_v2 s) [
    | none ↦ (l, none)
    | some ((type, key, exp), rest) ↦
        let expired = expired_on_load now exp in
        load_typed type key exp expired (if expired then skip_one l else l) rest
  ]

  unfoldable pub load_one : ℕ → Loading → Bytes → Loading × Option Bytes
  unfolding load_one_v1 load_one_v2
  load_one ver l s = if ver == 1 then load_one_v1 l s else load_one_v2 l s

  -- `for (i = 0; ok && i < nentries; ++i)`
  unfoldable pub load_entries : ℕ → ℕ → Loading → Bytes → Loading × Option Bytes
  unfolding load_one
  load_entries ver zero l s = (l, some s)
  load_entries ver (suc n) l s =
      let (l1, o) = load_one ver l s in
      elim o [ none ↦ (l1, none) | some rest ↦ load_entries ver n l1 rest ]

  unfoldable pub load_bytes : Core → Bytes → Loading × Option Bytes
  unfolding rd_header load_entries
  load_bytes c s =
      let l : Loading = record { core = c; loaded = 0; skipped_expired = 0 } in
      elim (rd_header s) [ none ↦ (l, none) | some ((ver, n), rest) ↦ load_entries ver n l rest ]
