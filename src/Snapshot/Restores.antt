-- ===== src/Snapshot/Restores.antt =====
-- What the value of one entry becomes in a load.
use mathlib.Core.List.{append-nil, append_assoc}
use aura_redis.Prelude.{
  ℕ, ◌+◌, ◌*◌, ◌%◌, ◌^◌, ◌<◌, ◌≡◌, refl, sym, subst, ◌∙◌, Bool, true, false, Bool-cases, inl, inr,
  Option, none, some, List, [], ◌∷◌, ◌++◌, ◌==◌, leb, length, if◌then◌else◌, arith, add64,
}
use aura_redis.Bytes.{Bytes}
use aura_redis.Entry.{Value, str, hash_obj, list_obj, zset_obj, Entry, entry_bytes, sizeof_entry}
use aura_redis.Core.{Core}
use aura_redis.Core.Find.{is_due}
use aura_redis.Core.Find.Keeps.{live}
use aura_redis.Core.Set.Steps.{Content, content, view, Rewrites}
use aura_redis.Core.Set.Sets.{Rewrites-trans}
use aura_redis.Core.Set.Keeps.{set-Sets}
use aura_redis.Core.Typed.{Kind, hash_create, hash_kind, list_kind, zset_kind}
use aura_redis.Core.Typed.Writes.{IsKind}
use aura_redis.Core.Typed.Updates.{hash_kind-IsKind, list_kind-IsKind, zset_kind-IsKind}
use aura_redis.Core.Hashes.Stores.{with_fields}
use aura_redis.Core.Lists.Writes.{push_values}
use aura_redis.Core.ZSets.Stores.{with_nodes}
use aura_redis.Core.Invariant.{total, deadline, IsValid, lookup}
use aura_redis.Snapshot.Write.{chained}
use aura_redis.Snapshot.Read.{
  Loading, seconds_left, apply_expire_abs, expired_on_load, hset_loaded, push_loaded, zadd_loaded,
}
use aura_redis.Snapshot.Replay.{put_all, counted_as, expiring, restore_value}
use aura_redis.Snapshot.Puts.{IsPut, HasRoom, folded, put_all-Rewrites}
use aura_redis.Snapshot.Deadlines.{Rewrites-Sets, expire-Rewrites}
use aura_redis.Snapshot.Commands.{Any, FitsSet, hset-IsPut, push-IsPut, zadd-IsPut}

-- The deadline of an object after a load, with its seconds rounded up.
abbrev pub restored_deadline : ℕ → ℕ → ℕ
restored_deadline now exp = if exp == 0 then 0 else add64 now (seconds_left now exp * 1000 % 2 ^ 64)

-- The command succeeds, and changes its key only.
abbrev pub Does : Bytes → Option Content → Core → Core × Bool → Type 0
Does key o c r = (r.1 ≡ true) × Rewrites key o c r.0

abbrev pub Restored : Bytes → Option Content → Loading → Loading × Bool → Type 0
Restored key o l r = (r.1 ≡ true) × Rewrites key o l.core r.0.core

module _ (now : ℕ) (key : Bytes) (exp : ℕ) (fresh_now : expired_on_load now exp ≡ false) where
  entry-live :
      (x : Value) (o : Option Entry)
      → content o ≡ some (record { value = x; expire_at = 0 })
      → (e : Entry) × (live now o ≡ some e) × (e.value ≡ x)
  entry-live x none h = cc
  entry-live x (some e) h =
      let at : e.expire_at ≡ 0 = cc h in
      let stays : is_due now e ≡ false = ground (arith, at) in (e, rw stays refl, cc h)

  seconds-pos : 0 < seconds_left now exp
  seconds-pos = ground arith

  expire_abs-Does :
      (x : Value) (c c1 : Core)
      → total deadline c1.dict + restored_deadline now exp < 2 ^ 64
      → Rewrites key (some (record { value = x; expire_at = 0 })) c c1
      → Does key
          (some (record { value = x; expire_at = restored_deadline now exp }))
          c
          (apply_expire_abs key exp now c1)
  unfolding apply_expire_abs
  expire_abs-Does x c c1 h r = elim (Bool-cases (exp == 0)) [
    | inl never ↦ rw never (refl, r)
    | inr timed ↦
        let (e, l, same) = entry-live x (lookup key c1.dict) r.at_key in
        let at : ℕ = add64 now (seconds_left now exp * 1000 % 2 ^ 64) in
        let ahead : leb exp now ≡ false = ground (arith, fresh_now, timed) in
        let (done, w) =
          expire-Rewrites now key (seconds_left now exp) e c1 r.valid l seconds-pos
            (subst (λ b. total deadline c1.dict + (if b then 0 else at) < 2 ^ 64) timed h) in
        rw (timed, ahead, sym same) (done, Rewrites-trans r w)
  ]

  counted-Restored :
      (o : Option Content) (l : Loading) (r : Core × Bool)
      → Does key o l.core r
      → Restored key o l (counted_as l r)
  counted-Restored o l (c, true) d = d
  counted-Restored o l (c, false) (ok, d) = absurd cc

  expiring-Restored :
      (rand : ℕ → ℕ) (x : Value) (l : Loading) (p : Core × Bool)
      → Does key (some (record { value = x; expire_at = 0 })) l.core p
      → total deadline p.0.dict + restored_deadline now exp < 2 ^ 64
      → Restored key
          (some (record { value = x; expire_at = restored_deadline now exp }))
          l
          (expiring rand now key exp l p)
  expiring-Restored rand x l (c, false) (ok, r) h = absurd cc
  expiring-Restored rand x l (c, true) (ok, r) h =
      counted-Restored (some (record { value = x; expire_at = restored_deadline now exp })) l
        (apply_expire_abs key exp now c) (expire_abs-Does x l.core c h r)

module _ (rand : ℕ → ℕ) (now : ℕ) (key : Bytes) where
  -- An object has an element, and there is room for each and for the deadline.
  abbrev pub HasObjectRoom :
      {A E : Type 0} (k : Kind A)
      → IsKind k
      → (E → A → A)
      → (E → Core → Core × Bool)
      → (E → A → Type 0)
      → List E
      → ℕ
      → Core
      → Type 0
  HasObjectRoom k laws g put Allowed xs exp c =
      (0 < length xs)
      × HasRoom k laws rand now key g put Allowed xs c
      × (total deadline (put_all put xs c).0.dict + restored_deadline now exp < 2 ^ 64)

  -- The room that the commands of an entry need.
  abbrev pub HasValueRoom : ℕ → Value → Core → Type 0
  HasValueRoom exp (str v) c =
      (total entry_bytes c.dict + (length key + length v + sizeof_entry) < 2 ^ 64)
      × (total deadline c.dict + exp < 2 ^ 64)
  HasValueRoom exp (hash_obj h) c =
      HasObjectRoom hash_kind hash_kind-IsKind (λ f. with_fields (f ∷ []))
        (hset_loaded rand now key) Any (chained h.buckets) exp c
  HasValueRoom exp (list_obj vs) c =
      HasObjectRoom list_kind list_kind-IsKind (λ v. push_values false (v ∷ []))
        (push_loaded rand now key) Any vs exp c
  HasValueRoom exp (zset_obj z) c =
      HasObjectRoom zset_kind zset_kind-IsKind (λ n. with_nodes (n ∷ [])) (zadd_loaded rand now key)
        FitsSet z.arr exp c

  object-Restored :
      {A E : Type 0} (k : Kind A) (laws : IsKind k) (g : E → A → A) (put : E → Core → Core × Bool)
      (Allowed : E → A → Type 0) (xs : List E) (exp : ℕ) (l : Loading)
      → IsPut k laws rand now key g put Allowed
      → IsValid l.core
      → l.core.maxmemory ≡ 0
      → view key l.core ≡ none
      → expired_on_load now exp ≡ false
      → HasObjectRoom k laws g put Allowed xs exp l.core
      → Restored key
          (some (record {
            value = k.wrap (folded g xs k.fresh);
            expire_at = restored_deadline now exp;
          }))
          l
          (expiring rand now key exp l (put_all put xs l.core))
  object-Restored k laws g put Allowed [] exp l h v calm gone fresh (n, room, d) =
      absurd (omega (arith, n))
  object-Restored k laws g put Allowed (x ∷ xs) exp l h v calm gone fresh (n, room, d) =
      expiring-Restored now key exp fresh rand (k.wrap (folded g (x ∷ xs) k.fresh)) l
        (put_all put (x ∷ xs) l.core)
        (put_all-Rewrites k laws rand now key g put Allowed h x xs k.fresh l.core v calm
          (inl (gone, refl)) room)
        d

-- What a load makes of a value and a deadline.
abbrev pub restored_content : ℕ → ℕ → Value → Content
restored_content now exp (str v) = record { value = str v; expire_at = exp }
restored_content now exp (hash_obj h) = record {
  value = hash_obj (folded (λ f. with_fields (f ∷ [])) (chained h.buckets) hash_create);
  expire_at = restored_deadline now exp;
}
restored_content now exp (list_obj vs) = record {
  value = list_obj vs;
  expire_at = restored_deadline now exp;
}
restored_content now exp (zset_obj z) = record {
  value = zset_obj (folded (λ n. with_nodes (n ∷ [])) z.arr zset_kind.fresh);
  expire_at = restored_deadline now exp;
}

pushed_all : (vs l : List Bytes) → folded (λ v. push_values false (v ∷ [])) vs l ≡ l ++ vs
unfolding push_values
pushed_all [] l = sym (append-nil l)
pushed_all (v ∷ vs) l = pushed_all vs (l ++ v ∷ []) ∙ append_assoc l (v ∷ []) vs

pub restore_value-Restored :
    (rand : ℕ → ℕ) (now : ℕ) (key : Bytes) (exp : ℕ) (x : Value) (l : Loading)
    → IsValid l.core
    → l.core.maxmemory ≡ 0
    → view key l.core ≡ none
    → expired_on_load now exp ≡ false
    → HasValueRoom rand now key exp x l.core
    → Restored key (some (restored_content now exp x)) l (restore_value rand now key exp x l)
unfolding restore_value
restore_value-Restored rand now key exp (str s) l v calm gone fresh (h, d) =
    (refl, Rewrites-Sets calm (set-Sets rand now key s exp l.core v h d))
restore_value-Restored rand now key exp (hash_obj o) l v calm gone fresh room =
    object-Restored rand now key hash_kind hash_kind-IsKind (λ f. with_fields (f ∷ []))
      (hset_loaded rand now key) Any (chained o.buckets) exp l (hset-IsPut rand now key) v calm gone
      fresh room
restore_value-Restored rand now key exp (list_obj vs) l v calm gone fresh room =
    subst
      (λ (ws : List Bytes).
        Restored key (some (record { value = list_obj ws; expire_at = restored_deadline now exp }))
          l (restore_value rand now key exp (list_obj vs) l))
      (pushed_all vs [])
      (object-Restored rand now key list_kind list_kind-IsKind (λ v. push_values false (v ∷ []))
        (push_loaded rand now key) Any vs exp l (push-IsPut rand now key) v calm gone fresh room)
restore_value-Restored rand now key exp (zset_obj z) l v calm gone fresh room =
    object-Restored rand now key zset_kind zset_kind-IsKind (λ n. with_nodes (n ∷ []))
      (zadd_loaded rand now key) FitsSet z.arr exp l (zadd-IsPut rand now key) v calm gone fresh
      room
