-- ===== src/Snapshot/Elements.antt =====
-- The loops of a load over the elements that a save has written.
use mathlib.Core.List.{append_assoc}
use aura_redis.Prelude.{
  ℕ, ◌≤◌, ◌≡◌, refl, sym, ap, ◌∙◌, Bool, true, false, Option, none, some, List, [], ◌∷◌, ◌++◌,
  length, ltb, if◌then◌else◌, arith,
}
use aura_redis.Bytes.{Bytes}
use aura_redis.Core.{Core}
use aura_redis.Snapshot.Format.{max_elems, Reading, ◌>>=◌, ◌>>◌, wr_u32, rd_u32}
use aura_redis.Snapshot.Write.{write_each}
use aura_redis.Snapshot.Read.{rd_count, drain_each, drain_payload, put_each, put_payload}
use aura_redis.Snapshot.Replay.{put_all}
use aura_redis.Snapshot.Numbers.{IsCodec, >>-parts, some_inj, rd_u32-wr_u32}

abbrev pub Each : {A : Type 0} → (A → Type 0) → List A → Type 0
Each P [] = Unit
Each P (a ∷ more) = P a × Each P more

-- A load's state with what is left of the file.
abbrev pub landed : {A : Type 0} → Bytes → A × Bool → A × Option Bytes
landed rest (x, true) = (x, some rest)
landed rest (x, false) = (x, none)

module _ {A : Type 0} (wr : A → Option Bytes) (rd : Bytes → Reading A) (Fits : A → Type 0)
    (k : IsCodec wr rd Fits) where
  first_read :
      (a : A) (more : List A) (b rest : Bytes)
      → Fits a
      → write_each wr (a ∷ more) ≡ some b
      → (y : Bytes) × (write_each wr more ≡ some y) × (rd (b ++ rest) ≡ some (a, y ++ rest))
  unfolding write_each
  first_read a more b rest h e =
      let (x, y, ex, ey, eb) = >>-parts (wr a) (write_each wr more) b e in
      (
        y,
        ey,
        ap (λ w. rd (w ++ rest)) eb ∙ ap rd (append_assoc x y rest) ∙ k.reads a x (y ++ rest) h ex,
      )

  nothing_written : (b : Bytes) → write_each wr [] ≡ some b → b ≡ []
  unfolding write_each
  nothing_written b e = sym (some_inj e)

  drain_each-write_each :
      (l : List A) (b rest : Bytes)
      → Each Fits l
      → write_each wr l ≡ some b
      → drain_each rd (length l) (b ++ rest) ≡ some rest
  unfolding drain_each
  drain_each-write_each [] b rest h e = ap (λ w. some (w ++ rest)) (nothing_written b e)
  drain_each-write_each (a ∷ more) b rest (ha, hs) e =
      let (y, ey, r) = first_read a more b rest ha e in
      rw r (drain_each-write_each more y rest hs ey)

  counted_read :
      (n : ℕ) (l : List A) (b rest : Bytes)
      → n ≤ max_elems
      → (some (wr_u32 n) >> write_each wr l) ≡ some b
      → (y : Bytes) × (write_each wr l ≡ some y) × (rd_count (b ++ rest) ≡ some (n, y ++ rest))
  unfolding rd_count
  counted_read n l b rest few e =
      let (x, y, ex, ey, eb) = >>-parts (some (wr_u32 n)) (write_each wr l) b e in
      let read : rd_u32 (b ++ rest) ≡ some (n, y ++ rest) =
        ap (λ w. rd_u32 (w ++ rest)) (eb ∙ ap (λ w. w ++ y) (sym (some_inj ex)))
        ∙ ap rd_u32 (append_assoc (wr_u32 n) y rest)
        ∙ rd_u32-wr_u32 n (y ++ rest) (omega (arith, few)) in
      let small : ltb max_elems n ≡ false = ground (arith, few) in
      (
        y,
        ey,
        ap (λ r. r >>= λ k rest. if ltb max_elems k then none else some (k, rest)) read
            ∙ ap (λ t. if t then none else some (n, y ++ rest)) small,
      )

  pub drain_payload-write_each :
      (n : ℕ) (l : List A) (b rest : Bytes)
      → Each Fits l
      → n ≡ length l
      → n ≤ max_elems
      → (some (wr_u32 n) >> write_each wr l) ≡ some b
      → drain_payload rd (b ++ rest) ≡ some rest
  unfolding drain_payload
  drain_payload-write_each n l b rest h same few e =
      let (y, ey, r) = counted_read n l b rest few e in
      rw (drain_payload, r)
        (ap (λ k. drain_each rd k (y ++ rest)) same ∙ drain_each-write_each l y rest h ey)

  module _ (put : A → Core → Core × Bool) where
    after_put :
        (l : List A) (s rest : Bytes)
        → ((c1 : Core) → put_each rd put (length l) c1 s ≡ landed rest (put_all put l c1))
        → (p : Core × Bool)
        → (let (c1, ok) = p in
            elim ok [ true ↦ put_each rd put (length l) c1 s | false ↦ (c1, none) ])
          ≡ landed rest
              (let (c1, ok) = p in elim ok [ true ↦ put_all put l c1 | false ↦ (c1, false) ])
    after_put l s rest ih (c1, true) = ih c1
    after_put l s rest ih (c1, false) = refl

    put_each-write_each :
        (l : List A) (c : Core) (b rest : Bytes)
        → Each Fits l
        → write_each wr l ≡ some b
        → put_each rd put (length l) c (b ++ rest) ≡ landed rest (put_all put l c)
    unfolding put_each put_all
    put_each-write_each [] c b rest h e = ap (λ w. (c, some (w ++ rest))) (nothing_written b e)
    put_each-write_each (a ∷ more) c b rest (ha, hs) e =
        let (y, ey, r) = first_read a more b rest ha e in
        rw r (
          after_put more (y ++ rest) rest (λ c1. put_each-write_each more c1 y rest hs ey)
            (put a c))

    pub put_payload-write_each :
        (n : ℕ) (l : List A) (c : Core) (b rest : Bytes)
        → Each Fits l
        → n ≡ length l
        → n ≤ max_elems
        → (some (wr_u32 n) >> write_each wr l) ≡ some b
        → put_payload rd put c (b ++ rest) ≡ landed rest (put_all put l c)
    unfolding put_payload
    put_payload-write_each n l c b rest h same few e =
        let (y, ey, r) = counted_read n l b rest few e in
        rw (put_payload, r)
          (ap (λ k. put_each rd put k c (y ++ rest)) same ∙ put_each-write_each l c y rest h ey)
