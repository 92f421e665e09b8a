-- ===== src/Core/Typed/Obtains.antt =====
-- About `ar_entry_get_or_create` of native/src/ar_types.c.
use aura_redis.Prelude.{
  ℕ, ◌+◌, ◌^◌, ◌≤◌, ◌<◌, ◌≡◌, refl, sym, ap, ◌∙◌, ◌⊎◌, inl, inr, Option, none, some, length, arith,
}
use aura_redis.Bytes.{Bytes}
use aura_redis.Entry.{Value, Entry, entry_bytes, payload_bytes, sizeof_entry}
use aura_redis.Core.{Core, Tier, EvictOps, noop, lru, lfu, ttl_aware, slru, tinylfu}
use aura_redis.Core.Free.Keeps.{lookup-key}
use aura_redis.Core.Find.{ar_find_entry_ex}
use aura_redis.Core.Find.Keeps.{live, Finds, find-Finds}
use aura_redis.Core.Store.{store_at}
use aura_redis.Core.Tiers.{ar_rehash_if_needed}
use aura_redis.Core.Tiers.Keeps.{Transparent-rehash}
use aura_redis.Core.Evict.{on_set, ar_maybe_evict_pub}
use aura_redis.Core.Evict.Keeps.{Drops-maybe_evict_pub}
use aura_redis.Core.Set.{locate, run_on_set, call_on_set}
use aura_redis.Core.Set.Steps.{content, view, Rewrites}
use aura_redis.Core.Set.Sets.{Rewrites-Same}
use aura_redis.Core.Set.Touches.{Same-Transparent, call_on_set-Same}
use aura_redis.Core.Typed.{
  Kind, Typed, absent, wrong_type, typed, unwrapped, typed_of, ar_entry_get_typed, link_object,
  create_object, created, ar_entry_get_or_create,
}
use aura_redis.Core.Typed.Writes.{IsKind}
use aura_redis.Core.Typed.Creates.{total-link_object, bytes-new, link_object-Rewrites}
use aura_redis.Core.Typed.Keeps.{
  Spares, Spares-trans, Spares-Rewrites, Spares-Finds, Spares-evict, calm-maybe_evict_pub,
}
use aura_redis.Core.Typed.Stores.{Result, holds, unwrapped-Result, fresh-Result}
use aura_redis.Core.Invariant.{total, IsValid, lookup}

on_set-memory :
    (ops : EvictOps) (c : Core) (e : Entry) → (on_set ops c e).0.used_memory ≡ c.used_memory
unfolding on_set
on_set-memory noop c e = refl
on_set-memory lru c e = refl
on_set-memory lfu c e = refl
on_set-memory ttl_aware c e = refl
on_set-memory slru c e = refl
on_set-memory tinylfu c e = refl

call_on_set-memory : (key : Bytes) (c : Core) → (call_on_set key c).used_memory ≡ c.used_memory
unfolding call_on_set
call_on_set-memory key c = by_place (locate key c)
  where
    by_place : (o : Option (Tier × Entry)) → (run_on_set c o).used_memory ≡ c.used_memory
    by_place none = unfold run_on_set in refl
    by_place (some (tier, e)) = unfold run_on_set store_at in on_set-memory c.evict c e

-- A live entry is the stored one.
live-some : (now : ℕ) (o : Option Entry) (e : Entry) → live now o ≡ some e → o ≡ some e
live-some now none e h = cc
live-some now (some x) e h = ground (arith, h)

-- An entry without a deadline is live.
live-none :
    (now : ℕ) (o : Option Entry) (x : Value)
    → content o ≡ some (record { value = x; expire_at = 0 })
    → live now o ≡ none
    → ⊥
live-none now none x h l = cc
live-none now (some e) x h l = let at : e.expire_at ≡ 0 = cc h in ground (arith, l, at)

module _ {A : Type 0} (k : Kind A) (laws : IsKind k) (rand : ℕ → ℕ) (now : ℕ) (key : Bytes) where
  abbrev pub fresh_bytes : ℕ
  fresh_bytes = length key + sizeof_entry + payload_bytes (k.wrap k.fresh)

  -- What the search with creation promises, where the key has the live entry `L` in `c`.
  pub record Obtains (L : Option Entry) (c : Core) (r : Core × Typed A) : Type 0 where
    pub spares : Spares key c r.0
    pub growth : total entry_bytes r.0.dict ≤ total entry_bytes c.dict + fresh_bytes
    pub result : Result k laws rand now key L c r

  abbrev linked : Core → Core
  linked c = ar_rehash_if_needed (call_on_set key (link_object k key c))

  linked-Rewrites :
      (c : Core)
      → IsValid c
      → lookup key c.dict ≡ none
      → total entry_bytes c.dict + fresh_bytes < 2 ^ 64
      → Rewrites key (holds k laws rand now key k.fresh 0) c (linked c)
        × (total entry_bytes (linked c).dict ≡ total entry_bytes c.dict + fresh_bytes)
  linked-Rewrites c v gone h =
      let l = link_object-Rewrites k laws key c v gone h in
      let s = call_on_set-Same key (link_object k key c) l.valid in
      let t = Transparent-rehash (call_on_set key (link_object k key c)) s.valid in
      (
        Rewrites-Same (Rewrites-Same l s) (Same-Transparent t),
        omega (
          arith,
          t.totals entry_bytes,
          s.valid.accounts.memory,
          call_on_set-memory key (link_object k key c),
          l.valid.accounts.memory,
          total-link_object k laws key c v gone entry_bytes,
          bytes-new k laws key c v gone,
        ),
      )

  -- The second search after a creation.
  found_fresh :
      (c c4 : Core) (q : Core × Option (Tier × Entry))
      → (view key c4 ≡ holds k laws rand now key k.fresh 0) ⊎ (view key c4 ≡ none)
      → (c.maxmemory ≡ 0 → view key c4 ≡ holds k laws rand now key k.fresh 0)
      → Finds now key c4 q
      → Result k laws rand now key none c (q.0, typed_of k q.1)
  found_fresh c c4 (c5, none) at_key calm s =
      λ no_limit. live-none now (lookup key c4.dict) (k.wrap k.fresh) (calm no_limit) (sym s.result)
  found_fresh c c4 (c5, some (tier, e)) at_key calm s =
      let there : lookup key c4.dict ≡ some e =
        live-some now (lookup key c4.dict) e (sym s.result) in
      let own : e.key ≡ key = lookup-key key c5.dict e (s.stored ∙ sym s.result) in
      elim at_key [
        | inl same ↦
            fresh-Result k laws rand now key tier e c c5 (sym (ap content there) ∙ same) own
              s.located
        | inr gone ↦ absurd (let f : content (some e) ≡ none = sym (ap content there) ∙ gone in cc)
      ]

  created-Obtains :
      (c : Core)
      → IsValid c
      → lookup key c.dict ≡ none
      → total entry_bytes c.dict + fresh_bytes < 2 ^ 64
      → Obtains none c (ar_entry_get_typed k now key (create_object k rand now key c))
  unfolding ar_entry_get_typed create_object
  created-Obtains c v gone h =
      let (r, tot) = linked-Rewrites c v gone h in
      let d = linked c in
      let c4 = ar_maybe_evict_pub rand now d in
      let p = Drops-maybe_evict_pub rand now d r.valid in
      let s = find-Finds now key c4 p.valid in
      record {
        spares =
            Spares-trans (Spares-Rewrites r)
              (Spares-trans (Spares-evict rand now key d r.valid) (Spares-Finds s));
        growth = omega (arith, s.shrinks entry_bytes, p.shrinks entry_bytes, tot);
        result =
            found_fresh c c4 (ar_find_entry_ex now key c4)
              (elim (p.lookups key) [
                | inl same ↦ inl (ap content same ∙ r.at_key)
                | inr lost ↦ inr (ap content lost)
              ])
              (λ calm.
                ap (view key)
                  (calm-maybe_evict_pub rand now d (ap (λ n. n.maxmemory) r.same_knobs ∙ calm))
                ∙ r.at_key)
              s;
      }

  Result-knobs :
      (L : Option Entry) (b c c' : Core) (t : Typed A)
      → b.knobs ≡ c.knobs
      → Result k laws rand now key L b (c', t)
      → Result k laws rand now key L c (c', t)
  Result-knobs L b c c' absent e f = λ calm. f (ap (λ n. n.maxmemory) e ∙ calm)
  Result-knobs L b c c' wrong_type e r = r
  Result-knobs L b c c' (typed tier x a) e r = r

  created-unwrapped :
      (b : Core) (tier : Tier) (e : Entry) (o : Option A)
      → created k rand now key (b, unwrapped k tier e o) ≡ (b, unwrapped k tier e o)
  unfolding created
  created-unwrapped b tier e none = refl
  created-unwrapped b tier e (some a) = refl

  found-Obtains :
      (c : Core) (q : Core × Option (Tier × Entry))
      → Finds now key c q
      → total entry_bytes c.dict + fresh_bytes < 2 ^ 64
      → Obtains (live now (lookup key c.dict)) c (created k rand now key (q.0, typed_of k q.1))
  unfolding created
  found-Obtains c (b, none) s h =
      let o =
        created-Obtains b s.valid (s.stored ∙ sym s.result)
          (omega (arith, s.shrinks entry_bytes, h)) in
      let r = ar_entry_get_typed k now key (create_object k rand now key b) in
      rw (← s.result) (record {
        spares = Spares-trans (Spares-Finds s) o.spares;
        growth = omega (arith, o.growth, s.shrinks entry_bytes);
        result = Result-knobs none b c r.0 r.1 s.same_knobs o.result;
      })
  found-Obtains c (b, some (tier, e)) s h =
      rw (← s.result, created-unwrapped b tier e (k.unwrap e.value))
        (record {
          spares = Spares-Finds s;
          growth = omega (arith, s.shrinks entry_bytes);
          result =
              unwrapped-Result k laws rand now key tier e (k.unwrap e.value) c b refl
                (lookup-key key b.dict e (s.stored ∙ sym s.result)) s.located;
        })

  pub get_or_create-Obtains :
      (c : Core)
      → IsValid c
      → total entry_bytes c.dict + fresh_bytes < 2 ^ 64
      → Obtains (live now (lookup key c.dict)) c (ar_entry_get_or_create k rand now key c)
  unfolding ar_entry_get_or_create ar_entry_get_typed
  get_or_create-Obtains c v h =
      found-Obtains c (ar_find_entry_ex now key c) (find-Finds now key c v) h
