-- ===== src/Core/Hashes/Examples.antt =====
-- The theorems on hashes at the hash of a new key, and runs of the commands.
use aura_redis.Prelude.{◌≡◌, refl, sym, subst, some, List, [], ◌∷◌, replicate, arith}
use aura_redis.Bytes.{Bytes, bytes_eq, bucket_index}
use aura_redis.Entry.{HashField}
use aura_redis.Table.Weight.{weigh-empty}
use aura_redis.Table.Search.{tally}
use aura_redis.Table.Rehash.{empty-IsPlaced}
use aura_redis.Core.Typed.{hash_create}
use aura_redis.Core.Hashes.{hset_all, hdel_all, value_of}
use aura_redis.Core.Hashes.Model.{table_of-empty}
use aura_redis.Core.Hashes.Tables.{IsMap}
use aura_redis.Core.Hashes.Keeps.{IsHash, Sets, hset_all-Sets}
use aura_redis.Core.Hashes.Removes.{Removes, hdel_all-Removes}

-- The buckets of `hash_create` hold nothing.
empty-IsMap : IsMap (replicate 16 []) 0
empty-IsMap = record {
  chains = omega arith;
  placed = empty-IsPlaced 16;
  once = λ k. omega (arith, weigh-empty (tally k) 16);
  count = omega (arith, weigh-empty (λ e. 1) 16);
}

hash_create-IsHash : IsHash hash_create
hash_create-IsHash = subst (λ t. IsMap t 0) (sym (table_of-empty 16)) empty-IsMap

abbrev a : Bytes
a = 97 ∷ []

abbrev b : Bytes
b = 98 ∷ []

abbrev fields : List HashField
fields =
    record { field = a; val = b }
    ∷ record { field = b; val = b }
    ∷ record { field = a; val = a }
    ∷ []

hset_all-Sets_example :
    Sets fields hash_create (hset_all fields hash_create).0 (hset_all fields hash_create).1
hset_all-Sets_example = hset_all-Sets fields hash_create hash_create-IsHash

-- Two fields, the second value of `a`.
hset_run :
    (value_of (hset_all fields hash_create).0.buckets a ≡ some a)
    × ((hset_all fields hash_create).0.nfields ≡ 2)
unfolding hset_all value_of bytes_eq bucket_index
hset_run = (refl, refl)

hdel_all-Removes_example :
    Removes
      (b ∷ a ∷ b ∷ [])
      (hset_all fields hash_create).0
      (hdel_all (b ∷ a ∷ b ∷ []) (hset_all fields hash_create).0).0
      (hdel_all (b ∷ a ∷ b ∷ []) (hset_all fields hash_create).0).1
hdel_all-Removes_example =
    hdel_all-Removes (b ∷ a ∷ b ∷ []) (hset_all fields hash_create).0
      (hset_all-Sets fields hash_create hash_create-IsHash).valid
