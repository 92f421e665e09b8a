-- ===== src/Snapshot/Reads.antt =====
-- The load of what a save has written does with each entry what `restore_entry` does.
use mathlib.Core.List.{append_assoc}
use aura_redis.Prelude.{
  ℕ, ◌%◌, ◌^◌, ◌≤◌, ◌<◌, ◌≡◌, refl, sym, ap, subst, ◌∙◌, Bool, true, false, Bool-cases, inl, inr,
  Option, none, some, List, ◌++◌, ◌⊎◌, length, ◌==◌, if◌then◌else◌, arith, ==_iff,
}
use aura_redis.Bytes.{Bytes}
use aura_redis.Entry.{
  ArType, string, hash, list, zset, HashObj, Value, str, hash_obj, list_obj, zset_obj, type_of,
  Entry,
}
use aura_redis.Core.{Core}
use aura_redis.Snapshot.Format.{
  max_elems, Reading, ◌>>=◌, ◌>>◌, wr_u8, wr_u32, wr_u64, wr_blob, rd_u64, rd_blob,
}
use aura_redis.Snapshot.Write.{
  chained, write_each, write_pair, write_node, write_hash, write_list, write_zset, type_code,
  write_value, write_entry_v2,
}
use aura_redis.Snapshot.Read.{
  skip_one, set_loaded, expired_on_load, rd_entry_v2, Loading, load_object, load_typed, load_one_v2,
  hset_loaded, push_loaded, zadd_loaded, load_string, rd_field, rd_node, with_expiry,
  apply_expire_abs, finish_object,
}
use aura_redis.Snapshot.Replay.{put_all, restore_value, restore_entry, counted_as, expiring}
use aura_redis.Snapshot.Elements.{Each, landed, drain_payload-write_each, put_payload-write_each}
use aura_redis.Snapshot.Numbers.{
  IsCodec, IsBlob, IsField, IsNode, >>-parts, some_inj, rd_u8-wr_u8, rd_u64-wr_u64, rd_blob-IsCodec,
  rd_field-IsCodec, rd_node-IsCodec,
}

module _ (rand : ℕ → ℕ) (now : ℕ) (key : Bytes) (exp : ℕ) (l : Loading) where
  with_expiry-landed :
      (rest : Bytes) (p : Core × Bool)
      → with_expiry rand now key exp l (landed rest p) ≡ landed rest (expiring rand now key exp l p)
  with_expiry-landed rest (c, true) = by_result (apply_expire_abs key exp now c)
    where
      by_result : (q : Core × Bool) → finish_object l (some rest) q ≡ landed rest (counted_as l q)
      by_result (c1, true) = refl
      by_result (c1, false) = refl
  with_expiry-landed rest (c, false) = refl

-- A value whose elements and sizes the load accepts.
abbrev pub IsLoadable : Value → Type 0
IsLoadable (str v) = IsBlob v
IsLoadable (hash_obj h) =
    Each IsField (chained h.buckets)
    × (h.nfields < 2 ^ 32)
    × (length (chained h.buckets) ≤ max_elems)
IsLoadable (list_obj vs) = Each IsBlob vs × (length vs ≤ max_elems)
IsLoadable (zset_obj z) = Each IsNode z.arr × (length z.arr ≤ max_elems)

pub record IsSaved (e : Entry) : Type 0 where
  pub key_size : IsBlob e.key
  pub deadline_size : e.expire_at < 2 ^ 64
  pub value_size : IsLoadable e.value

write_hash-parts :
    (h : HashObj) (b : Bytes)
    → IsLoadable (hash_obj h)
    → write_hash h ≡ some b
    → (h.nfields ≡ length (chained h.buckets))
      × ((some (wr_u32 h.nfields) >> write_each write_pair (chained h.buckets)) ≡ some b)
unfolding write_hash
write_hash-parts h b (each, word, few) e =
    by_check (Bool-cases (length (chained h.buckets) % 2 ^ 32 == h.nfields % 2 ^ 32))
  where
    written : Bool → Option Bytes
    written ok =
        if ok then some (wr_u32 h.nfields) >> write_each write_pair (chained h.buckets) else none

    by_check :
        ((length (chained h.buckets) % 2 ^ 32 == h.nfields % 2 ^ 32) ≡ true)
          ⊎ ((length (chained h.buckets) % 2 ^ 32 == h.nfields % 2 ^ 32) ≡ false)
        → (h.nfields ≡ length (chained h.buckets))
          × ((some (wr_u32 h.nfields) >> write_each write_pair (chained h.buckets)) ≡ some b)
    by_check (inl q) =
        (omega (arith, (==_iff _ _).0 q, word, few), subst (λ t. written t ≡ some b) q e)
    by_check (inr q) = absurd (refused (subst (λ t. written t ≡ some b) q e))
      where
        refused : written false ≡ some b → ⊥
        refused r = cc

module _ (rand : ℕ → ℕ) (now : ℕ) (key : Bytes) (exp : ℕ) (l : Loading) where
  -- An object is put into the data plane, or read over where its key has expired.
  abbrev taken : Bool → Bytes → Loading × Bool → Loading × Option Bytes
  taken expired rest r = if expired then (l, some rest) else landed rest r

  module _ {A : Type 0} (wr : A → Option Bytes) (rd : Bytes → Reading A) (Fits : A → Type 0)
      (k : IsCodec wr rd Fits) (put : A → Core → Core × Bool) where
    load_object-write_each :
        (n : ℕ) (xs : List A) (b rest : Bytes) (expired : Bool)
        → Each Fits xs
        → n ≡ length xs
        → n ≤ max_elems
        → (some (wr_u32 n) >> write_each wr xs) ≡ some b
        → load_object rand now rd put key exp expired l (b ++ rest)
          ≡ taken expired rest (expiring rand now key exp l (put_all put xs l.core))
    unfolding load_object
    load_object-write_each n xs b rest true h same few e =
        ap (λ r. (l, r)) (drain_payload-write_each wr rd Fits k n xs b rest h same few e)
    load_object-write_each n xs b rest false h same few e =
        ap (with_expiry rand now key exp l)
          (put_payload-write_each wr rd Fits k put n xs l.core b rest h same few e)
        ∙ with_expiry-landed rand now key exp l rest (put_all put xs l.core)

  load_string-wr_blob :
      (v b rest : Bytes) (expired : Bool)
      → IsBlob v
      → wr_blob v ≡ some b
      → load_string rand now key exp expired l (b ++ rest)
        ≡ (if expired then l else set_loaded rand now key v exp l, some rest)
  unfolding load_string
  load_string-wr_blob v b rest expired h e =
      ap
        (λ r. elim r [
          | none ↦ (l, none)
          | some (val, s) ↦ (if expired then l else set_loaded rand now key val exp l, some s)
        ])
        (rd_blob-IsCodec.reads v b rest h e)

  load_typed-write_value :
      (v : Value) (b rest : Bytes) (expired : Bool)
      → IsLoadable v
      → write_value v ≡ some b
      → load_typed rand now (type_code (type_of v)) key exp expired l (b ++ rest)
        ≡ taken expired rest (restore_value rand now key exp v l)
  unfolding load_typed restore_value write_value write_list write_zset
  load_typed-write_value (str v) b rest true h e = load_string-wr_blob v b rest true h e
  load_typed-write_value (str v) b rest false h e = load_string-wr_blob v b rest false h e
  load_typed-write_value (hash_obj h) b rest expired (each, word, few) e =
      let (n, w) = write_hash-parts h b (each, word, few) e in
      load_object-write_each write_pair rd_field IsField rd_field-IsCodec (hset_loaded rand now key)
        h.nfields (chained h.buckets) b rest expired each n (omega (arith, n, few)) w
  load_typed-write_value (list_obj vs) b rest expired (each, few) e =
      load_object-write_each wr_blob rd_blob IsBlob rd_blob-IsCodec (push_loaded rand now key)
        (length vs) vs b rest expired each refl few e
  load_typed-write_value (zset_obj z) b rest expired (each, few) e =
      load_object-write_each write_node rd_node IsNode rd_node-IsCodec (zadd_loaded rand now key)
        (length z.arr) z.arr b rest expired each refl few e

code-lt : (t : ArType) → type_code t < 256
code-lt string = omega arith
code-lt hash = omega arith
code-lt list = omega arith
code-lt zset = omega arith

head_read :
    (t exp : ℕ) (key x z : Bytes)
    → t < 256
    → IsBlob key
    → exp < 2 ^ 64
    → wr_blob key ≡ some x
    → rd_entry_v2 (wr_u8 t ++ (x ++ (wr_u64 exp ++ z))) ≡ some ((t, key, exp), z)
unfolding rd_entry_v2
head_read t exp key x z ht hk hx e =
    ap (λ r. r >>= λ t s1. rd_blob s1 >>= λ k s2. rd_u64 s2 >>= λ x s3. some ((t, k, x), s3))
      (rd_u8-wr_u8 t (x ++ (wr_u64 exp ++ z)) ht)
    ∙ ap (λ r. r >>= λ k s2. rd_u64 s2 >>= λ x s3. some ((t, k, x), s3))
        (rd_blob-IsCodec.reads key x (wr_u64 exp ++ z) hk e)
    ∙ ap (λ r. r >>= λ x s3. some ((t, key, x), s3)) (rd_u64-wr_u64 exp z hx)

-- The four parts of an entry, in front of any bytes.
pub apart :
    (a x u y y1 y2 b rest : Bytes)
    → b ≡ a ++ y1
    → y1 ≡ x ++ y2
    → y2 ≡ u ++ y
    → b ++ rest ≡ a ++ (x ++ (u ++ (y ++ rest)))
apart a x u y y1 y2 b rest e1 e2 e3 =
    ap (λ w. w ++ rest) e1
    ∙ append_assoc a y1 rest
    ∙ ap (λ w. a ++ w)
        (ap (λ w. w ++ rest) e2
          ∙ append_assoc x y2 rest
          ∙ ap (λ w. x ++ w) (ap (λ w. w ++ rest) e3 ∙ append_assoc u y rest))

entry_read :
    (e : Entry) (b rest : Bytes)
    → IsSaved e
    → write_entry_v2 e ≡ some b
    → (y : Bytes) × (write_value e.value ≡ some y)
      × (rd_entry_v2 (b ++ rest)
          ≡ some ((type_code (type_of e.value), e.key, e.expire_at), y ++ rest))
unfolding write_entry_v2
entry_read e b rest s w =
    let t : ℕ = type_code (type_of e.value) in
    let (x1, y1, p1, q1, r1) =
      >>-parts (some (wr_u8 t))
        (wr_blob e.key >> (some (wr_u64 e.expire_at) >> write_value e.value)) b w in
    let (x2, y2, p2, q2, r2) =
      >>-parts (wr_blob e.key) (some (wr_u64 e.expire_at) >> write_value e.value) y1 q1 in
    let (x3, y3, p3, q3, r3) = >>-parts (some (wr_u64 e.expire_at)) (write_value e.value) y2 q2 in
    (
      y3,
      q3,
      ap rd_entry_v2 (
            apart (wr_u8 t) x2 (wr_u64 e.expire_at) y3 y1 y2 b rest
              (r1 ∙ ap (λ v. v ++ y1) (sym (some_inj p1))) r2
              (r3 ∙ ap (λ v. v ++ y3) (sym (some_inj p3))))
          ∙ head_read t e.expire_at e.key x2 (y3 ++ rest) (code-lt (type_of e.value)) s.key_size
              s.deadline_size p2,
    )

module _ (rand : ℕ → ℕ) (now : ℕ) where
  typed_or_skipped :
      (e : Entry) (l : Loading) (y rest : Bytes) (expired : Bool)
      → IsSaved e
      → write_value e.value ≡ some y
      → load_typed rand now
          (type_code (type_of e.value))
          e.key
          e.expire_at
          expired
          (if expired then skip_one l else l)
          (y ++ rest)
        ≡ landed rest (
            if expired
            then (skip_one l, true)
            else restore_value rand now e.key e.expire_at e.value l)
  typed_or_skipped e l y rest true s w =
      load_typed-write_value rand now e.key e.expire_at (skip_one l) e.value y rest true
        s.value_size w
  typed_or_skipped e l y rest false s w =
      load_typed-write_value rand now e.key e.expire_at l e.value y rest false s.value_size w

  pub load_one_v2-write_entry_v2 :
      (e : Entry) (l : Loading) (b rest : Bytes)
      → IsSaved e
      → write_entry_v2 e ≡ some b
      → load_one_v2 rand now l (b ++ rest) ≡ landed rest (restore_entry rand now e l)
  unfolding load_one_v2 restore_entry
  load_one_v2-write_entry_v2 e l b rest s w =
      let (y, wy, r) = entry_read e b rest s w in
      rw (load_one_v2, r) (typed_or_skipped e l y rest (expired_on_load now e.expire_at) s wy)
