-- ===== src/Core/Typed/Examples.antt =====
-- The theorems on commands that add to an object, at a data plane without keys.
use aura_redis.Prelude.{◌≡◌, ap, none, List, [], ◌∷◌, arith, Option}
use aura_redis.Bytes.{Bytes, bucket_index}
use aura_redis.Entry.{
  ZNode, HashField, Entry, entry_bytes, payload_bytes, hash_obj_bytes, zset_obj_bytes,
}
use aura_redis.Core.{ar_core_create}
use aura_redis.Core.Examples.{zero_rand, key, create-IsValid, create-total, create-missing}
use aura_redis.Core.Find.Keeps.{live}
use aura_redis.Core.Typed.{hash_kind, zset_kind}
use aura_redis.Core.Typed.Updates.{hash_kind-IsKind, zset_kind-IsKind, Updates, Room}
use aura_redis.Core.ZSets.{zadd_all, new_members, ar_zset_zadd}
use aura_redis.Core.ZSets.Stores.{with_nodes, zadd-Updates}
use aura_redis.Core.Hashes.{hset_all, ar_hash_hset}
use aura_redis.Core.Hashes.Stores.{with_fields, hset-Updates}
use aura_redis.Core.Invariant.{lookup}

abbrev L : Option Entry
L = live 1000 (lookup key ar_core_create.dict)

L-none : L ≡ none
L-none = ap (live 1000) create-missing

abbrev values : List Bytes
values = (97 ∷ []) ∷ (98 ∷ []) ∷ []

abbrev node : ZNode
node = record { member = 97 ∷ []; score = 4607182418800017408 }

abbrev field : HashField
field = record { field = 97 ∷ []; val = 98 ∷ [] }

zadd-Room :
    Room zset_kind zset_kind-IsKind (with_nodes (node ∷ [])) zero_rand 1000 key L ar_core_create
unfolding payload_bytes zset_obj_bytes zadd_all new_members
zadd-Room = rw L-none (omega (arith, create-total entry_bytes))

zadd-Updates_example :
    Updates zset_kind zset_kind-IsKind
      (with_nodes (node ∷ []))
      zero_rand
      1000
      key
      L
      ar_core_create
      (ar_zset_zadd zero_rand 1000 key (node ∷ []) ar_core_create).0
zadd-Updates_example =
    zadd-Updates zero_rand 1000 key node [] ar_core_create create-IsValid zadd-Room

hset-Room :
    Room hash_kind hash_kind-IsKind (with_fields (field ∷ [])) zero_rand 1000 key L ar_core_create
unfolding payload_bytes hash_obj_bytes hset_all bucket_index
hset-Room = rw L-none (omega (arith, create-total entry_bytes))

hset-Updates_example :
    Updates hash_kind hash_kind-IsKind
      (with_fields (field ∷ []))
      zero_rand
      1000
      key
      L
      ar_core_create
      (ar_hash_hset zero_rand 1000 key (field ∷ []) ar_core_create).0
hset-Updates_example =
    hset-Updates zero_rand 1000 key field [] ar_core_create create-IsValid hset-Room
