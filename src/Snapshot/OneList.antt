-- ===== src/Snapshot/OneList.antt =====
-- Data planes of one bucket: with one list that has a deadline, and without keys.
use aura_redis.Prelude.{ℕ, ◌≡◌, refl, ◌∙◌, ap, Bool, true, false, none, List, [], ◌∷◌, arith}
use aura_redis.Bytes.{Bytes, bytes_eq, bucket_index, bucket_index-lt}
use aura_redis.Entry.{
  ArType, string, hash, list, zset, Entry, list_obj, entry_bytes, payload_bytes, list_obj_bytes,
}
use aura_redis.Table.{slot, link_entry, store_entry, find_in_bucket, find_in_table}
use aura_redis.Table.Weight.{weigh_bucket, weigh}
use aura_redis.Table.Placed.{IsPlaced}
use aura_redis.Core.{Core, ar_core_create, hot}
use aura_redis.Core.Typed.{
  absent, typed, list_kind, new_object, link_object, ar_entry_get_typed, ar_entry_get_or_create,
  create_object, created, replace_object, store_object, resize,
}
use aura_redis.Core.Counters.{
  ar_type_stats_note_bigkey, ar_type_stats_add_key, ar_mem_add, type_bytes_add,
}
use aura_redis.Core.Store.{store_at}
use aura_redis.Core.Evict.{on_set}
use aura_redis.Core.Watch.{ar_watch_touch}
use aura_redis.Core.Lists.Writes.{push_values, push_typed, ar_list_push}
use aura_redis.Snapshot.Read.{is_done, push_loaded}
use aura_redis.Snapshot.Replay.{put_all}
use aura_redis.Core.Typed.Keeps.{calm-maybe_evict_pub}
use aura_redis.Core.Tiers.{ar_rehash_if_needed}
use aura_redis.Core.Set.{call_on_set, locate}
use aura_redis.Core.Find.{ar_find_entry_ex}
use aura_redis.Core.Invariant.{total, deadline, of_type, bytes_of_type, IsValid, lookup}

abbrev pub item : Entry
item = record {
  key = 107 ∷ [];
  value = list_obj ((97 ∷ []) ∷ []);
  last_access = 2;
  lfu_freq = 5;
  pinned = false;
  expire_at = 6000;
}

abbrev only_list : ArType → ℕ → ℕ
only_list list n = n
only_list _ n = 0

abbrev pub one_list : Core
one_list = record ar_core_create {
  dict = record ar_core_create.dict { buckets = (item ∷ []) ∷ []; nkeys = 1 };
  usage = record ar_core_create.usage {
    used_memory = entry_bytes item;
    type_nkeys = λ t. only_list t 1;
    type_bytes = λ t. only_list t (entry_bytes item);
    keys_with_ttl = 1;
    expire_at_sum = 6000;
  };
}

abbrev pub no_keys : Core
no_keys = record ar_core_create { dict = record ar_core_create.dict { buckets = [] ∷ [] } }

first_slot : (k : Bytes) (b : List Entry) → slot k (b ∷ []) ≡ 0
first_slot k b = omega (arith, bucket_index-lt k 1 (omega arith))

one_bucket-IsPlaced : (b : List Entry) → IsPlaced (b ∷ [])
unfolding weigh
one_bucket-IsPlaced b = record { at = λ k. rw (first_slot k b) (omega arith) }

no_bucket-IsPlaced : IsPlaced []
unfolding weigh weigh_bucket
no_bucket-IsPlaced = record { at = λ k. refl }

pub one_list-IsValid : IsValid one_list
unfolding ar_core_create weigh weigh_bucket entry_bytes payload_bytes list_obj_bytes
one_list-IsValid = record {
  shape = record {
    hot_pos = omega arith;
    cold_pos = omega arith;
    cold_null = refl;
    placed_hot = one_bucket-IsPlaced (item ∷ []);
    placed_cold = no_bucket-IsPlaced;
    once = λ k. ground arith;
  };
  counts = record { keys = refl; hot_keys = refl; cold_keys = refl };
  accounts = record {
    memory = refl;
    ttl_keys = refl;
    ttl_sum = refl;
    pins = refl;
    type_keys = keys_of;
    type_memory = bytes_of;
  };
}
  where
    keys_of : (t : ArType) → one_list.usage.type_nkeys t ≡ total (of_type t) one_list.dict
    keys_of string = refl
    keys_of hash = refl
    keys_of list = refl
    keys_of zset = refl

    bytes_of : (t : ArType) → one_list.usage.type_bytes t ≡ total (bytes_of_type t) one_list.dict
    bytes_of string = refl
    bytes_of hash = refl
    bytes_of list = refl
    bytes_of zset = refl

pub no_keys-IsValid : IsValid no_keys
unfolding ar_core_create weigh weigh_bucket
no_keys-IsValid = record {
  shape = record {
    hot_pos = omega arith;
    cold_pos = omega arith;
    cold_null = refl;
    placed_hot = one_bucket-IsPlaced [];
    placed_cold = no_bucket-IsPlaced;
    once = λ k. omega arith;
  };
  counts = record { keys = refl; hot_keys = refl; cold_keys = refl };
  accounts = record {
    memory = refl;
    ttl_keys = refl;
    ttl_sum = refl;
    pins = refl;
    type_keys = λ t. refl;
    type_memory = λ t. refl;
  };
}

pub no_keys-empty : (k : Bytes) → lookup k no_keys.dict ≡ none
unfolding ar_core_create lookup find_in_table find_in_bucket
no_keys-empty k = rw (first_slot k []) refl

-- The push of the list's value into the data plane without keys, step by step; nothing is evicted.
module _ (rand : ℕ → ℕ) (now : ℕ) where
  abbrev linked : Core
  linked = ar_rehash_if_needed (call_on_set item.key (link_object list_kind item.key no_keys))

  linked-calm : linked.maxmemory ≡ 0
  unfolding ar_core_create ar_rehash_if_needed call_on_set link_object locate find_in_table
      ar_type_stats_note_bigkey ar_type_stats_add_key ar_mem_add link_entry bucket_index
      find_in_bucket bytes_eq store_at on_set store_entry
  linked-calm = refl

  not_there : ar_entry_get_typed list_kind now item.key no_keys ≡ (no_keys, absent)
  unfolding ar_core_create ar_entry_get_typed ar_find_entry_ex find_in_table find_in_bucket
      bucket_index
  not_there = refl

  abbrev fresh : Entry
  fresh = new_object list_kind item.key no_keys

  there : ar_entry_get_typed list_kind now item.key linked ≡ (linked, typed hot fresh [])
  unfolding ar_core_create ar_entry_get_typed ar_find_entry_ex ar_rehash_if_needed call_on_set
      link_object locate find_in_table ar_type_stats_note_bigkey ar_type_stats_add_key ar_mem_add
      link_entry bucket_index find_in_bucket bytes_eq store_at on_set store_entry
  there = refl

  obtained :
      ar_entry_get_or_create list_kind rand now item.key no_keys ≡ (linked, typed hot fresh [])
  unfolding ar_entry_get_or_create created create_object
  obtained =
      ap (created list_kind rand now item.key) not_there
      ∙ ap (ar_entry_get_typed list_kind now item.key)
          (calm-maybe_evict_pub rand now linked linked-calm)
      ∙ there

  abbrev replaced : Core
  replaced = replace_object list_kind hot fresh [] ((97 ∷ []) ∷ []) linked

  replaced-calm : replaced.maxmemory ≡ 0
  unfolding ar_core_create replace_object ar_rehash_if_needed call_on_set link_object locate
      find_in_table ar_type_stats_note_bigkey ar_type_stats_add_key ar_mem_add link_entry
      bucket_index find_in_bucket bytes_eq store_at on_set store_entry resize payload_bytes
      list_obj_bytes type_bytes_add
  replaced-calm = refl

  replaced-deadline : total deadline (ar_watch_touch item.key replaced).dict ≡ 0
  unfolding ar_core_create replace_object ar_rehash_if_needed call_on_set link_object ar_watch_touch
      weigh weigh_bucket locate find_in_table ar_type_stats_note_bigkey ar_type_stats_add_key
      ar_mem_add link_entry bucket_index find_in_bucket bytes_eq store_at on_set store_entry resize
      payload_bytes list_obj_bytes type_bytes_add
  replaced-deadline = refl

  pushed :
      push_loaded rand now item.key (97 ∷ []) no_keys ≡ (ar_watch_touch item.key replaced, true)
  unfolding push_loaded ar_list_push push_typed push_values store_object
  pushed =
      ap
        (λ r.
          let (c1, n) = push_typed rand now item.key false ((97 ∷ []) ∷ []) r in (c1, is_done n))
        obtained
      ∙ ap (λ c. (ar_watch_touch item.key c, true))
          (calm-maybe_evict_pub rand now replaced replaced-calm)

  abbrev then_none : Core × Bool → Core × Bool
  then_none r =
      let (c1, ok) = r in
      elim ok [ true ↦ put_all (push_loaded rand now item.key) [] c1 | false ↦ (c1, false) ]

  pub list_pushed :
      total deadline (put_all (push_loaded rand now item.key) ((97 ∷ []) ∷ []) no_keys).0.dict ≡ 0
  unfolding put_all
  list_pushed = ap (λ r. total deadline (then_none r).0.dict) pushed ∙ replaced-deadline
