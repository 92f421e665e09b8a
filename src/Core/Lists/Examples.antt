-- ===== src/Core/Lists/Examples.antt =====
-- The list theorems at small lists.
use aura_redis.Prelude.{
  ◌≡◌, refl, false, not, ◌&&◌, none, some, List, [], ◌∷◌, leb, ◌==◌, if◌then◌else◌, negsuc, arith,
}
use aura_redis.Bytes.{Bytes}
use aura_redis.Entry.{entry_bytes, payload_bytes, list_obj_bytes}
use aura_redis.Core.{ar_core_create}
use aura_redis.Core.Examples.{zero_rand, key, create-IsValid, create-total, create-missing}
use aura_redis.Core.Find.Keeps.{live}
use aura_redis.Core.Invariant.{lookup}
use aura_redis.Core.Typed.{list_kind}
use aura_redis.Core.Typed.Stores.{is_wrong, deadline_at}
use aura_redis.Core.Typed.Updates.{list_kind-IsKind, Room}
use aura_redis.Core.Lists.{lrem_values, ar_list_pop}
use aura_redis.Core.Lists.Writes.{push_values, ar_list_push}
use aura_redis.Core.Lists.Counts.{Removes, lrem_values-Removes}
use aura_redis.Core.Lists.Pops.{last_of, pop-push}

abbrev a : Bytes
a = 97 ∷ []

abbrev b : Bytes
b = 98 ∷ []

abbrev aba : List Bytes
aba = a ∷ b ∷ a ∷ []

lrem_values-Removes_example : Removes (negsuc 0) a aba (lrem_values (negsuc 0) a aba)
lrem_values-Removes_example = lrem_values-Removes (negsuc 0) a aba (omega arith)

create-Room :
    Room list_kind list_kind-IsKind
      (push_values false (a ∷ b ∷ []))
      zero_rand
      1000
      key
      (live 1000 (lookup key ar_core_create.dict))
      ar_core_create
unfolding payload_bytes list_obj_bytes push_values
create-Room = rw create-missing (omega (arith, create-total entry_bytes))

create-right : is_wrong list_kind (live 1000 (lookup key ar_core_create.dict)) ≡ false
create-right = rw create-missing refl

create-calm : ar_core_create.maxmemory ≡ 0
unfolding ar_core_create
create-calm = refl

pop-push_example :
    (ar_list_pop 2000 key false
      (ar_list_push zero_rand 1000 key false (a ∷ b ∷ []) ar_core_create).0).1
    ≡ (let at = deadline_at (live 1000 (lookup key ar_core_create.dict)) in
        if not (at == 0) && leb at 2000 then none else some (last_of a (b ∷ [])))
pop-push_example =
    pop-push zero_rand 1000 2000 key false a (b ∷ []) ar_core_create create-IsValid create-calm
      create-right create-Room
