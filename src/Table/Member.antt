-- ===== src/Table/Member.antt =====
-- About entries met by a walk of a chain of native/src/ar_core.c.
use aura_redis.Prelude.{
  ℕ, zero, suc, ◌≤◌, ◌≡◌, refl, sym, ◌⊎◌, inl, inr, some, List, [], ◌∷◌, arith, get_or, ◌∙◌,
}
use aura_redis.Bytes.{bytes_eq_refl}
use aura_redis.Entry.{Entry}
use aura_redis.Table.{Table, find_in_bucket, find_in_table}
use aura_redis.Table.Weight.{weigh_bucket, weigh}
use aura_redis.Table.Search.{tally, find_in_bucket-none, weigh_bucket-le}
use aura_redis.Table.Placed.{IsPlaced}
use aura_redis.Table.Rehash.{find_any, find_any-find}

abbrev pub Member : Entry → List Entry → Type 0
Member e [] = ⊥
Member e (x ∷ xs) = (e ≡ x) ⊎ Member e xs

pub tally-Member : (e : Entry) (es : List Entry) → Member e es → 1 ≤ weigh_bucket (tally e.key) es
unfolding weigh_bucket
tally-Member e [] h = absurd h
tally-Member e (x ∷ es) (inl p) = rw (← p) (ground (arith, bytes_eq_refl e.key))
tally-Member e (x ∷ es) (inr h) = omega (arith, tally-Member e es h)

find_in_bucket-Member :
    (e : Entry) (es : List Entry)
    → Member e es
    → weigh_bucket (tally e.key) es ≤ 1
    → find_in_bucket e.key es ≡ some e
unfolding weigh_bucket find_in_bucket
find_in_bucket-Member e [] h once = absurd h
find_in_bucket-Member e (x ∷ es) (inl p) once = rw (← p) (ground (arith, bytes_eq_refl e.key))
find_in_bucket-Member e (x ∷ es) (inr h) once =
    ground (arith, find_in_bucket-Member e es h, tally-Member e es h)

find_any-Member :
    (e : Entry) (t : Table) (i : ℕ)
    → Member e (get_or t i [])
    → weigh (tally e.key) t ≤ 1
    → find_any e.key t ≡ some e
unfolding find_any weigh
find_any-Member e [] i h once = absurd h
find_any-Member e (b ∷ t) zero h once = rw (find_in_bucket-Member e b h (omega arith)) refl
find_any-Member e (b ∷ t) (suc i) h once =
    rw
      (find_in_bucket-none e.key b
        (omega (arith, tally-Member e (get_or t i []) h, weigh_bucket-le (tally e.key) t i)))
      (find_any-Member e t i h (omega arith))

-- An entry of any chain is what a search of its key finds.
pub find-Member :
    (e : Entry) (t : Table) (i : ℕ)
    → Member e (get_or t i [])
    → weigh (tally e.key) t ≤ 1
    → IsPlaced t
    → find_in_table e.key t ≡ some e
find-Member e t i h once p = sym (find_any-find e.key t p) ∙ find_any-Member e t i h once
