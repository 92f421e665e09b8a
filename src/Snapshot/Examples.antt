-- ===== src/Snapshot/Examples.antt =====
-- A save and a load of a string, a list and a key that expires in between.
use aura_redis.Prelude.{ℕ, true, false, none, [], ◌∷◌}
use aura_redis.Entry.{Entry, str, list_obj}
use aura_redis.Core.{Core, ar_core_create}
use aura_redis.Snapshot.Restarted.{Restarts}
use aura_redis.Snapshot.Save.{Disk, Calls}
use aura_redis.Snapshot.Restarts.{Attempts}

abbrev entry : Entry
entry = record {
  key = 97 ∷ [];
  value = str (98 ∷ []);
  last_access = 0;
  lfu_freq = 5;
  pinned = false;
  expire_at = 2000;
}

abbrev values : Entry
values = record entry {
  key = 98 ∷ [];
  value = list_obj ((97 ∷ []) ∷ (98 ∷ []) ∷ []);
  expire_at = 0;
}

abbrev three : Core
three = record ar_core_create {
  dict = record ar_core_create.dict {
    buckets = (entry ∷ values ∷ []) ∷ (record entry { key = 99 ∷ []; expire_at = 10 } ∷ []) ∷ [];
  };
}

abbrev no_rand : ℕ → ℕ
no_rand n = 0

abbrev all_well : Calls
all_well = record {
  path_fits = true;
  opens = true;
  writes = true;
  flushes = true;
  closes = true;
  renames = true;
  unlinks = true;
  partial = [];
}

abbrev empty_disk : Disk
empty_disk = record { file = none; tmp = none }

abbrev attempts : Attempts
attempts =
    (all_well, 20, three)
    ∷ (record all_well { renames = false; unlinks = false }, 30, ar_core_create)
    ∷ []
