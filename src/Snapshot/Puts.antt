-- ===== src/Snapshot/Puts.antt =====
-- The elements of an object, put under their key one after the other.
use aura_redis.Prelude.{
  ℕ, ◌≡◌, refl, sym, ap, ◌∙◌, ◌⊎◌, inl, inr, Bool, true, false, Option, none, some, List, [], ◌∷◌,
  arith,
}
use aura_redis.Bytes.{Bytes}
use aura_redis.Entry.{Entry}
use aura_redis.Core.{Core}
use aura_redis.Core.Find.{is_due}
use aura_redis.Core.Find.Keeps.{live}
use aura_redis.Core.Set.Steps.{Content, content, view, Rewrites}
use aura_redis.Core.Set.Sets.{Rewrites-trans}
use aura_redis.Core.Typed.{Kind}
use aura_redis.Core.Typed.Writes.{IsKind}
use aura_redis.Core.Typed.Stores.{object_at, is_wrong, deadline_at}
use aura_redis.Core.Typed.Updates.{Updates, Room}
use aura_redis.Core.Invariant.{IsValid, lookup}
use aura_redis.Snapshot.Replay.{put_all}

-- The elements one after the other.
abbrev pub folded : {A E : Type 0} → (E → A → A) → List E → A → A
folded g [] a = a
folded g (x ∷ xs) a = folded g xs (g x a)

module _ {A : Type 0} (k : Kind A) (laws : IsKind k) where
  -- What a key holds between two elements: nothing before the first, an object without a deadline
  -- afterwards.
  abbrev pub Begins : Option Content → A → Type 0
  Begins o a =
      ((o ≡ none) × (a ≡ k.fresh)) ⊎ (o ≡ some (record { value = k.wrap a; expire_at = 0 }))

  -- Then the search of the key finds the object, or creates the empty one.
  record Starts (a : A) (L : Option Entry) : Type 0 where
    object : object_at k L ≡ a
    right : is_wrong k L ≡ false
    endless : deadline_at L ≡ 0

  starts : (now : ℕ) (a : A) (o : Option Entry) → Begins (content o) a → Starts a (live now o)
  starts now a none (inl (n, f)) = record { object = sym f; right = refl; endless = refl }
  starts now a none (inr h) = cc
  starts now a (some e) (inl (n, f)) = cc
  starts now a (some e) (inr h) =
      let at : e.expire_at ≡ 0 = cc h in
      let holds : e.value ≡ k.wrap a = cc h in
      let stays : is_due now e ≡ false = ground (arith, at) in
      rw stays (record {
        object = rw (holds, laws.unwraps a) refl;
        right = rw (holds, laws.unwraps a) refl;
        endless = at;
      })

  module _ (rand : ℕ → ℕ) (now : ℕ) (key : Bytes) {E : Type 0} (g : E → A → A)
      (put : E → Core → Core × Bool) (Allowed : E → A → Type 0) where
    abbrev pub found : Core → Option Entry
    found c = live now (lookup key c.dict)

    -- A command that puts one element into an object of the right type.
    pub record IsPut : Type 0 where
      pub puts :
          (x : E) (c : Core)
          → IsValid c
          → c.maxmemory ≡ 0
          → is_wrong k (found c) ≡ false
          → Allowed x (object_at k (found c))
          → Room k laws (g x) rand now key (found c) c
          → ((put x c).1 ≡ true) × Updates k laws (g x) rand now key (found c) c (put x c).0

    -- Room for each element, at the state that it meets.
    abbrev pub HasRoom : List E → Core → Type 0
    HasRoom [] c = Unit
    HasRoom (x ∷ xs) c =
        Allowed x (object_at k (found c))
        × Room k laws (g x) rand now key (found c) c
        × HasRoom xs (put x c).0

    module _ (h : IsPut) where
      put-Rewrites :
          (x : E) (a : A) (c : Core)
          → IsValid c
          → c.maxmemory ≡ 0
          → Begins (view key c) a
          → Allowed x (object_at k (found c))
          → Room k laws (g x) rand now key (found c) c
          → ((put x c).1 ≡ true)
            × Rewrites key (some (record { value = k.wrap (g x a); expire_at = 0 })) c (put x c).0
      put-Rewrites x a c v calm b ok room =
          let s = starts now a (lookup key c.dict) b in
          let (done, u) = h.puts x c v calm s.right ok room in
          (
            done,
            record {
              valid = u.spares.valid;
              at_key = u.at_key calm s.right ∙ rw (s.object, s.endless) refl;
              others = u.spares.calm calm;
              same_knobs = u.spares.same_knobs;
            },
          )

      put_more :
          (xs : List E) (a : A) (c c1 : Core)
          → c.maxmemory ≡ 0
          → HasRoom xs c1
          → Rewrites key (some (record { value = k.wrap a; expire_at = 0 })) c c1
          → ((put_all put xs c1).1 ≡ true)
            × Rewrites key
                (some (record { value = k.wrap (folded g xs a); expire_at = 0 }))
                c
                (put_all put xs c1).0
      unfolding put_all
      put_more [] a c c1 calm room r = (refl, r)
      put_more (x ∷ xs) a c c1 calm (ok, room, rest) r =
          let calm1 = ap (λ n. n.maxmemory) r.same_knobs ∙ calm in
          let (done, r1) = put-Rewrites x a c1 r.valid calm1 (inr r.at_key) ok room in
          rw (put_all, done) (put_more xs (g x a) c (put x c1).0 calm rest (Rewrites-trans r r1))

      pub put_all-Rewrites :
          (x : E) (xs : List E) (a : A) (c : Core)
          → IsValid c
          → c.maxmemory ≡ 0
          → Begins (view key c) a
          → HasRoom (x ∷ xs) c
          → ((put_all put (x ∷ xs) c).1 ≡ true)
            × Rewrites key
                (some (record { value = k.wrap (folded g (x ∷ xs) a); expire_at = 0 }))
                c
                (put_all put (x ∷ xs) c).0
      unfolding put_all
      put_all-Rewrites x xs a c v calm b (ok, room, rest) =
          let (done, r) = put-Rewrites x a c v calm b ok room in
          rw (put_all, done) (put_more xs (g x a) c (put x c).0 calm rest r)
