-- ===== src/Snapshot/RoundTrip.antt =====
-- The load of a whole snapshot.
use mathlib.Core.List.{append_assoc}
use aura_redis.Prelude.{
  ℕ, ◌≤◌, ◌≡◌, refl, sym, ap, ◌∙◌, Bool, true, false, Option, none, some, List, [], ◌∷◌, ◌++◌,
  length, length-append, ltb, if◌then◌else◌, arith,
}
use aura_redis.Bytes.{Bytes, bytes_eq, bytes_eq_refl}
use aura_redis.Entry.{Entry}
use aura_redis.Core.{Core}
use aura_redis.Snapshot.Format.{◌>>=◌, ◌>>◌, wr_u32, wr_u64, rd_u32, rd_u64}
use aura_redis.Snapshot.Write.{
  chained, write_each, write_entry_v2, live_entries, write_table_v2, count_live_entries, magic,
  write_core,
}
use aura_redis.Snapshot.Read.{
  Loading, load_one, load_one_v2, load_entries, is_version, rd_header, load_bytes,
}
use aura_redis.Snapshot.Replay.{restore_entry, restore_all}
use aura_redis.Snapshot.Elements.{Each, landed}
use aura_redis.Snapshot.Numbers.{fread-append, >>-parts, some_inj, rd_u32-wr_u32, rd_u64-wr_u64}
use aura_redis.Snapshot.Reads.{IsSaved, apart, load_one_v2-write_entry_v2}

-- The entries of a save, in its order.
abbrev pub saved_entries : ℕ → Core → List Entry
saved_entries now c =
    live_entries now (chained c.buckets) ++ live_entries now (chained c.cold_buckets)

-- A data plane that a load can read again.
pub record IsSavable (now : ℕ) (c : Core) : Type 0 where
  pub entries : Each IsSaved (saved_entries now c)
  pub few : length (saved_entries now c) ≤ 10000000

>>-assoc : (a b c : Option Bytes) → ((a >> b) >> c) ≡ (a >> (b >> c))
>>-assoc none b c = refl
>>-assoc (some x) none c = refl
>>-assoc (some x) (some y) none = refl
>>-assoc (some x) (some y) (some z) = ap some (append_assoc x y z)

>>-nil : (a : Option Bytes) → (some [] >> a) ≡ a
>>-nil none = refl
>>-nil (some x) = refl

write_each-append :
    {A : Type 0} (wr : A → Option Bytes) (xs ys : List A)
    → write_each wr (xs ++ ys) ≡ (write_each wr xs >> write_each wr ys)
unfolding write_each
write_each-append wr [] ys = sym (>>-nil (write_each wr ys))
write_each-append wr (x ∷ xs) ys =
    ap (λ k. wr x >> k) (write_each-append wr xs ys)
    ∙ sym (>>-assoc (wr x) (write_each wr xs) (write_each wr ys))

module _ (rand : ℕ → ℕ) (now : ℕ) where
  after_entry :
      (es : List Entry) (s rest : Bytes)
      → ((l1 : Loading)
          → load_entries rand now 2 (length es) l1 s ≡ landed rest (restore_all rand now es l1))
      → (p : Loading × Bool)
      → (let (l1, o) = landed s p in
          elim o [ none ↦ (l1, none) | some rest ↦ load_entries rand now 2 (length es) l1 rest ])
        ≡ landed rest (
            let (l1, ok) = p in elim ok [ true ↦ restore_all rand now es l1 | false ↦ (l1, false) ])
  after_entry es s rest ih (l1, true) = ih l1
  after_entry es s rest ih (l1, false) = refl

  load_entries-write_each :
      (es : List Entry) (l : Loading) (b rest : Bytes)
      → Each IsSaved es
      → write_each write_entry_v2 es ≡ some b
      → load_entries rand now 2 (length es) l (b ++ rest) ≡ landed rest (restore_all rand now es l)
  unfolding load_entries restore_all write_each
  load_entries-write_each [] l b rest h e = ap (λ w. (l, some (w ++ rest))) (sym (some_inj e))
  load_entries-write_each (x ∷ es) l b rest (hx, h) e =
      let (y, z, ey, ez, eb) = >>-parts (write_entry_v2 x) (write_each write_entry_v2 es) b e in
      let first : load_one rand now 2 l (b ++ rest)
          ≡ landed (z ++ rest) (restore_entry rand now x l) =
        ap (λ w. load_one_v2 rand now l (w ++ rest)) eb
        ∙ ap (load_one_v2 rand now l) (append_assoc y z rest)
        ∙ load_one_v2-write_entry_v2 rand now x l y (z ++ rest) hx ey in
      ap
        (λ p.
          let (l1, o) = p in
          elim o [ none ↦ (l1, none) | some rest ↦ load_entries rand now 2 (length es) l1 rest ])
        first
      ∙ after_entry es (z ++ rest) rest (λ l1. load_entries-write_each es l1 z rest h ez)
          (restore_entry rand now x l)

head_read :
    (n : ℕ) (z : Bytes)
    → n ≤ 10000000
    → rd_header (magic ++ (wr_u32 2 ++ (wr_u64 n ++ z))) ≡ some ((2, n), z)
unfolding rd_header
head_read n z h =
    let small : ltb 10000000 n ≡ false = ground (arith, h) in
    ap
      (λ r. r >>= λ m s1.
        if bytes_eq m magic
        then (rd_u32 s1 >>= λ ver s2.
            if is_version ver
            then (rd_u64 s2 >>= λ k s3. if ltb 10000000 k then none else some ((ver, k), s3))
            else none)
        else none)
      (fread-append magic (wr_u32 2 ++ (wr_u64 n ++ z)))
    ∙ ap
        (λ b.
          if b
          then (rd_u32 (wr_u32 2 ++ (wr_u64 n ++ z)) >>= λ ver s2.
              if is_version ver
              then (rd_u64 s2 >>= λ k s3. if ltb 10000000 k then none else some ((ver, k), s3))
              else none)
          else none)
        (bytes_eq_refl magic)
    ∙ ap
        (λ r. r >>= λ ver s2.
          if is_version ver
          then (rd_u64 s2 >>= λ k s3. if ltb 10000000 k then none else some ((ver, k), s3))
          else none)
        (rd_u32-wr_u32 2 (wr_u64 n ++ z) (omega arith))
    ∙ ap (λ r. r >>= λ k s3. if ltb 10000000 k then none else some ((2, k), s3))
        (rd_u64-wr_u64 n z (omega (arith, h)))
    ∙ ap (λ b. if b then none else some ((2, n), z)) small

file_read :
    (now : ℕ) (c : Core) (b rest : Bytes)
    → IsSavable now c
    → write_core now c ≡ some b
    → (z : Bytes) × (write_each write_entry_v2 (saved_entries now c) ≡ some z)
      × (rd_header (b ++ rest) ≡ some ((2, length (saved_entries now c)), z ++ rest))
unfolding write_core write_table_v2 count_live_entries
file_read now c b rest s w =
    let n : ℕ = count_live_entries now c in
    let tables : Option Bytes = write_table_v2 now c.buckets >> write_table_v2 now c.cold_buckets in
    let (x1, y1, p1, q1, r1) =
      >>-parts (some magic) (some (wr_u32 2) >> (some (wr_u64 n) >> tables)) b w in
    let (x2, y2, p2, q2, r2) = >>-parts (some (wr_u32 2)) (some (wr_u64 n) >> tables) y1 q1 in
    let (x3, z, p3, q3, r3) = >>-parts (some (wr_u64 n)) tables y2 q2 in
    let same : n ≡ length (saved_entries now c) = sym (
      length-append (live_entries now (chained c.buckets))
        (live_entries now (chained c.cold_buckets))) in
    (
      z,
      write_each-append write_entry_v2 (live_entries now (chained c.buckets))
            (live_entries now (chained c.cold_buckets))
          ∙ q3,
      ap rd_header (
            apart magic (wr_u32 2) (wr_u64 n) z y1 y2 b rest
              (r1 ∙ ap (λ v. v ++ y1) (sym (some_inj p1)))
              (r2 ∙ ap (λ v. v ++ y2) (sym (some_inj p2)))
              (r3 ∙ ap (λ v. v ++ z) (sym (some_inj p3))))
          ∙ head_read n (z ++ rest) (omega (arith, same, s.few))
          ∙ ap (λ k. some ((2, k), z ++ rest)) same,
    )

-- What a load of the file of a save does.
pub load_bytes-write_core :
    (rand : ℕ → ℕ) (saved_at now : ℕ) (c c0 : Core) (b rest : Bytes)
    → IsSavable saved_at c
    → write_core saved_at c ≡ some b
    → load_bytes rand now c0 (b ++ rest)
      ≡ landed rest (
          restore_all rand now
            (saved_entries saved_at c)
            (record { core = c0; loaded = 0; skipped_expired = 0 }))
unfolding load_bytes
load_bytes-write_core rand saved_at now c c0 b rest s w =
    let (z, ez, r) = file_read saved_at c b rest s w in
    rw (load_bytes, r)
      (load_entries-write_each rand now (saved_entries saved_at c)
        (record { core = c0; loaded = 0; skipped_expired = 0 }) z rest s.entries ez)
