-- ===== src/Core/Keys/Keeps.antt =====
-- About DEL, EXISTS, the pins and FLUSHDB of native/src/ar_core.c.
use aura_redis.Prelude.{
  ℕ, suc, ◌≡◌, refl, sym, ◌∙◌, Bool, true, false, Option, none, some, List, [], length,
  length-replicate, arith, if◌then◌else◌,
}
use aura_redis.Bytes.{Bytes, bytes_eq, bytes_eq_refl}
use aura_redis.Entry.{Entry, entry_bytes}
use aura_redis.Table.Weight.{weigh-empty}
use aura_redis.Table.Rehash.{find-empty, empty-IsPlaced}
use aura_redis.Core.{Core, Tier}
use aura_redis.Core.Counters.{ar_type_stats_reset}
use aura_redis.Core.Watch.{ar_watch_touch_all}
use aura_redis.Core.Free.Keeps.{free-IsValid, lookup-free, lookup-key}
use aura_redis.Core.Find.{ar_find_entry_ex}
use aura_redis.Core.Find.Keeps.{Finds, find-Finds, live, entry_of}
use aura_redis.Core.Store.{store_at}
use aura_redis.Core.Store.Keeps.{total-store, store-IsShaped, store-IsCounted, lookup-store}
use aura_redis.Core.Keys.{
  del_found, ar_del_bin, is_found, ar_exists_bin, pin_found, ar_core_pin, ar_flushdb,
}
use aura_redis.Core.Invariant.{
  one, has_ttl, deadline, is_pinned, of_type, bytes_of_type, IsValid, lookup,
}

abbrev pub is_some : Option Entry → Bool
is_some none = false
is_some (some e) = true

abbrev pub pinned_as : Bool → Option Entry → Option Entry
pinned_as b none = none
pinned_as b (some e) = some (record e { pinned = b })

-- After `r` the key has `o`, where it had what `live` shows, and other keys are as they were.
pub record Changes (key : Bytes) (o : Option Entry) (reply : Bool) (c : Core) (r : Core × Bool)
    : Type 0 where
  pub valid : IsValid r.0
  pub replies : r.1 ≡ reply
  pub at_key : lookup key r.0.dict ≡ o
  pub others : (k : Bytes) → bytes_eq key k ≡ false → lookup k r.0.dict ≡ lookup k c.dict

module _ (now : ℕ) (key : Bytes) where
  -- A found entry has the key that was asked for.
  found-key :
      (c d : Core) (tier : Tier) (e : Entry) → Finds now key c (d, some (tier, e)) → e.key ≡ key
  found-key c d tier e s = lookup-key key d.dict e (s.stored ∙ sym s.result)

  del_found-Changes :
      (c : Core) (r : Core × Option (Tier × Entry))
      → Finds now key c r
      → Changes key none (is_some (live now (lookup key c.dict))) c (del_found r)
  unfolding del_found
  del_found-Changes c (d, none) s = record {
    valid = s.valid;
    replies = ground (arith, s.result);
    at_key = s.stored ∙ sym s.result;
    others = s.others;
  }
  del_found-Changes c (d, some (tier, e)) s =
      let own = found-key c d tier e s in
      let v = free-IsValid tier e d s.located s.valid in
      record {
        valid = record { shape = v.shape; counts = v.counts; accounts = v.accounts };
        replies = ground (arith, s.result);
        at_key =
            rw (lookup-free tier e d key s.located s.valid.shape)
              (rw (own, bytes_eq_refl key) refl);
        others = λ k ne.
            rw (lookup-free tier e d k s.located s.valid.shape) (rw (own, ne) (s.others k ne));
      }

  -- Where the invariant holds, DEL keeps it and replies whether the key had a live entry; afterwards
  -- it has none, and the other keys have what they had.
  pub del-Changes :
      (c : Core)
      → IsValid c
      → Changes key none (is_some (live now (lookup key c.dict))) c (ar_del_bin now key c)
  unfolding ar_del_bin
  del-Changes c v = del_found-Changes c (ar_find_entry_ex now key c) (find-Finds now key c v)

  pin_found-Changes :
      (c : Core) (r : Core × Option (Tier × Entry))
      → Finds now key c r
      → Changes key
          (pinned_as true (live now (lookup key c.dict)))
          (is_some (live now (lookup key c.dict)))
          c
          (pin_found r)
  unfolding pin_found
  pin_found-Changes c (d, none) s = record {
    valid = s.valid;
    replies = ground (arith, s.result);
    at_key = ground (arith, s.stored, s.result);
    others = s.others;
  }
  pin_found-Changes c (d, some (tier, e)) s =
      let own = found-key c d tier e s in
      let e' = record e { pinned = true } in
      let d' = record d {
        usage = record d.usage {
          pinned_keys = if e.pinned then d.pinned_keys else suc d.pinned_keys;
        };
      } in
      let sum = λ (m : Entry → ℕ). total-store tier e e' d' s.located refl m in
      record {
        valid = record {
          shape = store-IsShaped tier e e' d' s.located refl s.valid.shape;
          counts = store-IsCounted tier e e' d' s.located refl s.valid.counts;
          accounts =
              unfold store_at entry_bytes in
              record {
                memory = ground (arith, sum entry_bytes, s.valid.accounts.memory);
                ttl_keys = ground (arith, sum has_ttl, s.valid.accounts.ttl_keys);
                ttl_sum = ground (arith, sum deadline, s.valid.accounts.ttl_sum);
                pins = ground (arith, sum is_pinned, s.valid.accounts.pins);
                type_keys = λ t. ground (arith, sum (of_type t), s.valid.accounts.type_keys t);
                type_memory =
                    λ t. ground (arith, sum (bytes_of_type t), s.valid.accounts.type_memory t);
              };
        };
        replies = ground (arith, s.result);
        at_key =
            rw (lookup-store tier e e' d' key s.located s.valid.shape)
              (ground (arith, own, bytes_eq_refl key, s.result));
        others = λ k ne.
            rw (lookup-store tier e e' d' k s.located s.valid.shape) (rw (own, ne) (s.others k ne));
      }

  -- Where the invariant holds, PIN keeps it, the count of pins included, and replies whether the key
  -- has a live entry, which then is pinned; the other keys have what they had.
  pub pin-Changes :
      (c : Core)
      → IsValid c
      → Changes key
          (pinned_as true (live now (lookup key c.dict)))
          (is_some (live now (lookup key c.dict)))
          c
          (ar_core_pin now key c)
  unfolding ar_core_pin
  pin-Changes c v = pin_found-Changes c (ar_find_entry_ex now key c) (find-Finds now key c v)

  found-is_some :
      (r : Option (Tier × Entry)) (o : Option Entry) → entry_of r ≡ o → is_found r ≡ is_some o
  found-is_some none none h = refl
  found-is_some none (some e) h = ground arith
  found-is_some (some p) none h = ground arith
  found-is_some (some p) (some e) h = refl

  -- Where the invariant holds, EXISTS keeps it, replies whether the key has a live entry, drops one that is due, and keeps the rest.
  pub exists-Changes :
      (c : Core)
      → IsValid c
      → Changes key
          (live now (lookup key c.dict))
          (is_some (live now (lookup key c.dict)))
          c
          (ar_exists_bin now key c)
  unfolding ar_exists_bin
  exists-Changes c v =
      let s = find-Finds now key c v in
      record {
        valid = s.valid;
        replies =
            found-is_some (ar_find_entry_ex now key c).1 (live now (lookup key c.dict)) s.result;
        at_key = s.stored;
        others = s.others;
      }

-- No key is stored, and the invariant holds where no entry was pinned.
pub record Flushed (c c' : Core) : Type 0 where
  pub nothing : (k : Bytes) → lookup k c'.dict ≡ none
  pub valid : c.pinned_keys ≡ 0 → IsValid c'

-- Where the invariant holds, FLUSHDB leaves no key, and keeps the invariant where no entry was pinned.
pub flushdb-Flushed : (c : Core) → IsValid c → Flushed c (ar_flushdb c)
unfolding ar_flushdb ar_type_stats_reset ar_watch_touch_all lookup
flushdb-Flushed c v =
    let n = length c.buckets in
    let m = length c.cold_buckets in
    let z = λ (f : Entry → ℕ). weigh-empty f n in
    let w = λ (f : Entry → ℕ). weigh-empty f m in
    record {
      valid = λ none_pinned. record {
        shape = record {
          hot_pos = rw (length-replicate {A = List Entry} n []) v.shape.hot_pos;
          cold_pos = rw (length-replicate {A = List Entry} m []) v.shape.cold_pos;
          cold_null = rw (length-replicate {A = List Entry} m []) v.shape.cold_null;
          placed_hot = empty-IsPlaced n;
          placed_cold = empty-IsPlaced m;
          once = λ k. omega (arith, z _, w _);
        };
        counts = record {
          keys = omega (arith, z _, w _);
          hot_keys = ground (arith, z one);
          cold_keys = ground (arith, w one, v.shape.cold_pos);
        };
        accounts = record {
          memory = omega (arith, z entry_bytes, w entry_bytes);
          ttl_keys = omega (arith, z has_ttl, w has_ttl);
          ttl_sum = omega (arith, z deadline, w deadline);
          pins = omega (arith, z is_pinned, w is_pinned, none_pinned);
          type_keys = λ t. omega (arith, z (of_type t), w (of_type t));
          type_memory = λ t. omega (arith, z (bytes_of_type t), w (bytes_of_type t));
        };
      };
      nothing = λ k. rw (find-empty k n, find-empty k m) refl;
    }
