-- ===== src/Core/Typed/Updates.antt =====
-- About the commands that add to an object, as updates of what their key holds.
use aura_redis.Prelude.{
  ℕ, ◌+◌, ◌^◌, ◌<◌, ◌≡◌, refl, subst, ap, ◌∙◌, ◌⊎◌, inl, inr, true, false, Option, some, List,
  arith,
}
use aura_redis.Bytes.{Bytes}
use aura_redis.Entry.{
  Value, HashObj, ZSet, str, hash_obj, list_obj, zset_obj, Entry, entry_bytes, payload_bytes,
}
use aura_redis.Core.{Core, Tier}
use aura_redis.Core.Find.Keeps.{live}
use aura_redis.Core.Evict.Drops.{lookup-stands}
use aura_redis.Core.Set.Steps.{Content, content, view}
use aura_redis.Core.Typed.{
  Kind, Typed, absent, wrong_type, typed, hash_kind, list_kind, zset_kind, store_object,
  ar_entry_get_or_create,
}
use aura_redis.Core.Typed.Writes.{IsKind}
use aura_redis.Core.Typed.Keeps.{Spares, Spares-trans}
use aura_redis.Core.Typed.Stores.{object_at, is_wrong, deadline_at, holds, store-Stores}
use aura_redis.Core.Typed.Obtains.{fresh_bytes, Obtains, get_or_create-Obtains}
use aura_redis.Core.Invariant.{total, IsValid, lookup}

pub hash_kind-IsKind : IsKind hash_kind
hash_kind-IsKind = record { tagged = λ a. refl; wrapped = reads; unwraps = λ a. refl }
  where
    reads : (x : Value) (a : HashObj) → hash_kind.unwrap x ≡ some a → x ≡ hash_obj a
    reads (str v) a h = cc
    reads (hash_obj o) a h = cc
    reads (list_obj o) a h = cc
    reads (zset_obj o) a h = cc

pub list_kind-IsKind : IsKind list_kind
list_kind-IsKind = record { tagged = λ a. refl; wrapped = reads; unwraps = λ a. refl }
  where
    reads : (x : Value) (a : List Bytes) → list_kind.unwrap x ≡ some a → x ≡ list_obj a
    reads (str v) a h = cc
    reads (hash_obj o) a h = cc
    reads (list_obj o) a h = cc
    reads (zset_obj o) a h = cc

pub zset_kind-IsKind : IsKind zset_kind
zset_kind-IsKind = record { tagged = λ a. refl; wrapped = reads; unwraps = λ a. refl }
  where
    reads : (x : Value) (a : ZSet) → zset_kind.unwrap x ≡ some a → x ≡ zset_obj a
    reads (str v) a h = cc
    reads (hash_obj o) a h = cc
    reads (list_obj o) a h = cc
    reads (zset_obj o) a h = cc

module _ {A : Type 0} (k : Kind A) (laws : IsKind k) (g : A → A) (rand : ℕ → ℕ) (now : ℕ)
    (key : Bytes) where
  -- What the key is to hold, where its live entry is `L`.
  abbrev pub wanted : Option Entry → Option Content
  wanted L = some (record { value = k.wrap (g (object_at k L)); expire_at = deadline_at L })

  -- The object of the key, or the empty one, has become `g` of it.
  pub record Updates (L : Option Entry) (c c' : Core) : Type 0 where
    pub spares : Spares key c c'
    pub at_key : c.maxmemory ≡ 0 → is_wrong k L ≡ false → view key c' ≡ wanted L

  -- A body that keeps the state where there is no object, and otherwise stores `g` of the object, or
  -- keeps the state where that is the object itself.
  pub record Applies (body : Core × Typed A → Core) : Type 0 where
    pub without : (c : Core) → body (c, absent) ≡ c
    pub refuses : (c : Core) → body (c, wrong_type) ≡ c
    pub applies :
        (c : Core) (tier : Tier) (e : Entry) (a : A)
        → (body (c, typed tier e a) ≡ store_object k rand now key tier e a (g a) c)
          ⊎ ((body (c, typed tier e a) ≡ c) × (g a ≡ a))

  -- Room for a new entry and for the changed object.
  abbrev pub Room : Option Entry → Core → Type 0
  Room L c =
      total entry_bytes c.dict
        + fresh_bytes k laws rand now key
        + payload_bytes (k.wrap (g (object_at k L)))
      < 2 ^ 64

  obtained-Updates :
      (body : Core × Typed A → Core)
      → Applies body
      → (L : Option Entry) (c : Core) (r : Core × Typed A) → Obtains k laws rand now key L c r
      → Room L c
      → Updates L c (body r)
  obtained-Updates body b L c (c1, absent) o h =
      rw (b.without c1)
        (record { spares = o.spares; at_key = λ calm right. absurd (o.result calm) })
  obtained-Updates body b L c (c1, wrong_type) o h =
      let wrong : is_wrong k L ≡ true = o.result in
      rw (b.refuses c1) (record { spares = o.spares; at_key = λ calm right. absurd (cc) })
  obtained-Updates body b L c (c1, typed tier e a) o h =
      let (own, f, held, start, at) = o.result in
      let same : holds k laws rand now key (g a) e.expire_at ≡ wanted L = rw (start, at) refl in
      let pay : payload_bytes (k.wrap (g a)) ≡ payload_bytes (k.wrap (g (object_at k L))) =
        ap (λ x. payload_bytes (k.wrap (g x))) start in
      let whole : g a ≡ a → content (some e) ≡ wanted L = λ u. rw (held, ← u) same in
      elim (b.applies c1 tier e a) [
        | inl stored ↦
            let st =
              store-Stores k laws rand now key tier e a (g a) c1 f own held
                (omega (arith, h, o.growth, pay)) o.spares.valid in
            rw stored (record {
              spares = Spares-trans o.spares st.spares;
              at_key =
                  λ calm right. st.at_key (ap (λ n. n.maxmemory) o.spares.same_knobs ∙ calm) ∙ same;
            })
        | inr (kept, unchanged) ↦ rw kept (record {
          spares = o.spares;
          at_key = λ calm right.
              (subst (λ j. view j c1 ≡ wanted L) own
                (ap content (lookup-stands tier e c1 f o.spares.valid.shape) ∙ whole unchanged));
        })
      ]

  pub get_or_create-Updates :
      (body : Core × Typed A → Core)
      → Applies body
      → (c : Core) → IsValid c
      → Room (live now (lookup key c.dict)) c
      → Updates (live now (lookup key c.dict)) c (body (ar_entry_get_or_create k rand now key c))
  get_or_create-Updates body b c v h =
      obtained-Updates body b (live now (lookup key c.dict)) c
        (ar_entry_get_or_create k rand now key c)
        (get_or_create-Obtains k laws rand now key c v (omega (arith, h))) h
