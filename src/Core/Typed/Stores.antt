-- ===== src/Core/Typed/Stores.antt =====
-- About the commands that add to an object: search or creation, then the write.
use aura_redis.Prelude.{
  ℕ, ◌+◌, ◌^◌, ◌<◌, ◌≡◌, refl, sym, subst, ap, ◌∙◌, Bool, true, false, Option, none, some,
}
use aura_redis.Bytes.{Bytes}
use aura_redis.Entry.{type_of, Entry, entry_bytes, payload_bytes}
use aura_redis.Table.{find_in_table}
use aura_redis.Core.{Core, Tier}
use aura_redis.Core.Watch.{ar_watch_touch}
use aura_redis.Core.Free.{table}
use aura_redis.Core.Store.{store_at}
use aura_redis.Core.Evict.{ar_maybe_evict_pub}
use aura_redis.Core.Set.Steps.{Content, content, view, Rewrites}
use aura_redis.Core.Typed.{
  Kind, Typed, absent, wrong_type, typed, resize, replace_object, store_object, unwrapped,
}
use aura_redis.Core.Typed.Writes.{IsKind, resize-Rewrites}
use aura_redis.Core.Typed.Keeps.{
  Spares, Spares-trans, Spares-Rewrites, Spares-evict, Spares-touch, calm-maybe_evict_pub,
}
use aura_redis.Core.Invariant.{total, IsValid}

module _ {A : Type 0} (k : Kind A) where
  -- The object of a live entry, or the empty one; its deadline; and whether it is of another type.
  abbrev pub object_or : Option A → A
  object_or none = k.fresh
  object_or (some a) = a

  abbrev pub object_at : Option Entry → A
  object_at none = k.fresh
  object_at (some e) = object_or (k.unwrap e.value)

  abbrev missing : Option A → Bool
  missing none = true
  missing (some a) = false

  abbrev pub is_wrong : Option Entry → Bool
  is_wrong none = false
  is_wrong (some e) = missing (k.unwrap e.value)

abbrev pub deadline_at : Option Entry → ℕ
deadline_at none = 0
deadline_at (some e) = e.expire_at

-- The key has `o`, unless eviction can have dropped it.
pub record Stores (key : Bytes) (o : Option Content) (c c' : Core) : Type 0 where
  pub spares : Spares key c c'
  pub at_key : c.maxmemory ≡ 0 → view key c' ≡ o

module _ {A : Type 0} (k : Kind A) (laws : IsKind k) (rand : ℕ → ℕ) (now : ℕ) (key : Bytes) where
  abbrev pub holds : A → ℕ → Option Content
  holds a at = some (record { value = k.wrap a; expire_at = at })

  replace-Rewrites :
      (tier : Tier) (e : Entry) (old new : A) (c : Core)
      → find_in_table e.key (table tier c.dict) ≡ some e
      → e.value ≡ k.wrap old
      → total entry_bytes c.dict + payload_bytes (k.wrap new) < 2 ^ 64
      → IsValid c
      → Rewrites e.key (holds new e.expire_at) c (replace_object k tier e old new c)
  unfolding replace_object
  replace-Rewrites tier e old new c f holding h v =
      let tag : type_of e.value ≡ k.tag = ap type_of holding ∙ laws.tagged old in
      let pay : payload_bytes e.value ≡ payload_bytes (k.wrap old) = ap payload_bytes holding in
      let r = resize-Rewrites tier e (k.wrap new) c f (laws.tagged new ∙ sym tag) h v in
      let new_pay = payload_bytes (k.wrap new) in
      let e1 = record e { value = k.wrap new; last_access = c.clock + 1 } in
      let same_sums : resize (type_of e.value) (payload_bytes e.value) new_pay c
          ≡ resize k.tag (payload_bytes (k.wrap old)) new_pay c =
        ap (λ t. resize t (payload_bytes e.value) new_pay c) tag
        ∙ ap (λ n. resize k.tag n new_pay c) pay in
      subst
        (λ d.
          Rewrites e.key (holds new e.expire_at) c
            (store_at tier e1 (record d { clock = c.clock + 1 })))
        same_sums r

  pub store-Stores :
      (tier : Tier) (e : Entry) (old new : A) (c : Core)
      → find_in_table e.key (table tier c.dict) ≡ some e
      → e.key ≡ key
      → e.value ≡ k.wrap old
      → total entry_bytes c.dict + payload_bytes (k.wrap new) < 2 ^ 64
      → IsValid c
      → Stores key (holds new e.expire_at) c (store_object k rand now key tier e old new c)
  unfolding store_object
  store-Stores tier e old new c f own holding h v =
      let d = replace_object k tier e old new c in
      let r : Rewrites key (holds new e.expire_at) c d =
        subst (λ j. Rewrites j (holds new e.expire_at) c d) own
          (replace-Rewrites tier e old new c f holding h v) in
      record {
        spares =
            Spares-touch rand now key c (ar_maybe_evict_pub rand now d)
              (Spares-trans (Spares-Rewrites r) (Spares-evict rand now key d r.valid));
        at_key = λ calm.
            unfold ar_watch_touch in
            (ap (view key)
                (calm-maybe_evict_pub rand now d (ap (λ n. n.maxmemory) r.same_knobs ∙ calm))
              ∙ r.at_key);
      }

  -- What `ar_entry_get_or_create` returns for a key whose live entry is `L`.
  abbrev pub Result : Option Entry → Core → Core × Typed A → Type 0
  Result L c (c', absent) = c.maxmemory ≡ 0 → ⊥
  Result L c (c', wrong_type) = is_wrong k L ≡ true
  Result L c (c', typed tier e a) =
      (e.key ≡ key)
      × (find_in_table e.key (table tier c'.dict) ≡ some e)
      × (e.value ≡ k.wrap a)
      × (a ≡ object_at k L)
      × (e.expire_at ≡ deadline_at L)

  pub unwrapped-Result :
      (tier : Tier) (e : Entry) (o : Option A) (c c' : Core)
      → k.unwrap e.value ≡ o
      → e.key ≡ key
      → find_in_table e.key (table tier c'.dict) ≡ some e
      → Result (some e) c (c', unwrapped k tier e o)
  unwrapped-Result tier e none c c' u own f = rw u refl
  unwrapped-Result tier e (some a) c c' u own f =
      (own, f, laws.wrapped e.value a u, rw u refl, refl)

  pub fresh-Result :
      (tier : Tier) (e : Entry) (c c' : Core)
      → content (some e) ≡ holds k.fresh 0
      → e.key ≡ key
      → find_in_table e.key (table tier c'.dict) ≡ some e
      → Result none c (c', unwrapped k tier e (k.unwrap e.value))
  fresh-Result tier e c c' same own f =
      let held : e.value ≡ k.wrap k.fresh = cc same in
      let at : e.expire_at ≡ 0 = cc same in
      let u : k.unwrap e.value ≡ some k.fresh = ap k.unwrap held ∙ laws.unwraps k.fresh in
      rw u (own, f, held, refl, at)
