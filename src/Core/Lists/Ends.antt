-- ===== src/Core/Lists/Ends.antt =====
-- About LTRIM of native/src/ar_types.c, by the indices of the values.
use aura_redis.Prelude.{
  ℕ, ◌+◌, ◌≤◌, ◌<◌, ◌≡◌, Bool, ◌&&◌, List, [], ◌∷◌, if◌then◌else◌, ltb, leb, ℤ, pos, negsuc,
}
use aura_redis.Bytes.{Bytes}

-- Whether the value at `j` is at or behind an index; `negsuc n`, which is -(n + 1), counts from the
-- end.
abbrev pub from : ℤ → ℕ → ℕ → Bool
from (pos n) len j = leb n j
from (negsuc n) len j = leb len (j + n + 1)

-- Whether it is at or before an index.
abbrev pub up_to : ℤ → ℕ → ℕ → Bool
up_to (pos n) len j = leb j n
up_to (negsuc n) len j = leb (j + n + 1) len

-- The values whose index passes a test, where the first one's is `j`.
abbrev pub select : (ℕ → Bool) → ℕ → List Bytes → List Bytes
select p j [] = []
select p j (x ∷ xs) = if p j then x ∷ select p (j + 1) xs else select p (j + 1) xs

-- A test for the indices of a window of `t` values after `d`.
IsWindow : (ℕ → Bool) → ℕ → ℕ → ℕ → ℕ → Type 0
IsWindow p j d t n = (i : ℕ) → j ≤ i → i < j + n → p i ≡ (leb (j + d) i && ltb i (j + d + t))

-- Whether the value at an index is to stay.
abbrev pub stays : ℤ → ℤ → ℕ → ℕ → Bool
stays start stop len j = from start len j && up_to stop len j
