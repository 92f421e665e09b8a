-- ===== src/Core/Set/Keeps.antt =====
-- About SET as a whole, `ar_entry_set_ex` of native/src/ar_core.c.
use aura_redis.Prelude.{
  ℕ, ◌+◌, ◌^◌, ◌≤◌, ◌<◌, ◌≡◌, sym, subst, ◌∙◌, ◌&&◌, if_elim, Option, none, some, length, [], arith,
  if◌then◌else◌,
}
use aura_redis.Bytes.{Bytes}
use aura_redis.Entry.{Value, str, hash_obj, list_obj, zset_obj, Entry, entry_bytes, sizeof_entry}
use aura_redis.Table.{find_in_table}
use aura_redis.Core.{Core, Tier, hot}
use aura_redis.Core.Free.{table}
use aura_redis.Core.Free.Keeps.{lookup-key}
use aura_redis.Core.Find.{ar_find_entry_ex}
use aura_redis.Core.Find.Keeps.{Finds, find-Finds}
use aura_redis.Core.Tiers.{is_tiered, is_cold, ar_touch_get, maybe_demote_hot, ar_rehash_if_needed}
use aura_redis.Core.Tiers.Keeps.{Transparent-maybe_demote_hot, Transparent-rehash}
use aura_redis.Core.Expire.Keeps.{with_deadline}
use aura_redis.Core.Set.{
  blank, as_str, drop_obj, retype, set_value, put_deadline, call_on_set, new_entry, link_new,
  string_len, set_old, set_new, set_found, ar_entry_set_ex,
}
use aura_redis.Core.Set.Steps.{Content, content, Rewrites, blank_le}
use aura_redis.Core.Set.Sets.{Rewrites-trans, Rewrites-Same, Sets, evicted-Sets, after_find}
use aura_redis.Core.Set.Rewrites.{drop_obj-Writes, set_value-Writes, put_deadline-Writes}
use aura_redis.Core.Set.Touches.{
  Same, Same-trans, Same-Transparent, Same-refl, call_on_set-Same, touch_get-Same,
}
use aura_redis.Core.Set.Links.{total-link_new, link_new-Rewrites, link_new-stands}
use aura_redis.Core.Invariant.{total, deadline, IsValid, lookup}

-- `n` has come to stand in a table.
record Lands (tier : Tier) (n : Entry) (c c' : Core) : Type 0 where
  rewrites : Rewrites n.key (content (some n)) c c'
  stands : find_in_table n.key (table tier c'.dict) ≡ some n
  deadlines : total deadline c'.dict ≤ total deadline c.dict

module _ (tier : Tier) (val : Bytes) (e : Entry) (c : Core) where
  abbrev holding : Value → Entry
  holding x = record e { value = x }

  abbrev renewed : Value → Entry
  renewed x = record e { value = str val; last_access = (retype x tier (holding x) c).clock + 1 }

  -- A value of another type is given up first.
  replaced-Lands :
      (x : Value)
      → find_in_table e.key (table tier c.dict) ≡ some (holding x)
      → total entry_bytes c.dict + (length e.key + length val + sizeof_entry) < 2 ^ 64
      → IsValid c
      → Lands tier
          (record e { value = str val; last_access = (drop_obj tier (holding x) c).clock + 1 })
          c
          (set_value val 0 tier (blank (holding x)) (drop_obj tier (holding x) c))
  replaced-Lands x f h v =
      let d = drop_obj-Writes tier c (holding x) f (omega arith) v in
      let smaller : total entry_bytes (drop_obj tier (holding x) c).dict
          ≤ total entry_bytes c.dict =
        omega (arith, d.totals entry_bytes, blank_le tier (holding x) c f) in
      let w =
        set_value-Writes tier (drop_obj tier (holding x) c) [] val e d.stands
          (omega (arith, h, smaller)) d.rewrites.valid in
      record {
        rewrites = Rewrites-trans d.rewrites w.rewrites;
        stands = w.stands;
        deadlines = omega (arith, d.totals deadline, w.totals deadline);
      }

  -- The value is written, whatever type it had.
  value-Lands :
      (x : Value)
      → find_in_table e.key (table tier c.dict) ≡ some (holding x)
      → total entry_bytes c.dict + (length e.key + length val + sizeof_entry) < 2 ^ 64
      → IsValid c
      → Lands tier
          (renewed x)
          c
          (set_value val (string_len x) tier (as_str (holding x)) (retype x tier (holding x) c))
  unfolding retype
  value-Lands (str old) f h v =
      let w = set_value-Writes tier c old val e f h v in
      record {
        rewrites = w.rewrites;
        stands = w.stands;
        deadlines = omega (arith, w.totals deadline);
      }
  value-Lands (hash_obj o) f h v = replaced-Lands (hash_obj o) f h v
  value-Lands (list_obj o) f h v = replaced-Lands (list_obj o) f h v
  value-Lands (zset_obj o) f h v = replaced-Lands (zset_obj o) f h v

module _ (rand : ℕ → ℕ) (now : ℕ) (key val : Bytes) (at : ℕ) where
  abbrev pub wanted : Option Content
  wanted = some (record { value = str val; expire_at = at })

  -- The deadline and the access hooks, after the value was written.
  set_old-Sets :
      (tier : Tier) (e : Entry) (c : Core)
      → e.key ≡ key
      → find_in_table e.key (table tier c.dict) ≡ some e
      → total entry_bytes c.dict + (length key + length val + sizeof_entry) < 2 ^ 64
      → total deadline c.dict + at < 2 ^ 64
      → IsValid c
      → Sets key wanted c (set_old rand now key val at tier e c)
  unfolding set_old
  set_old-Sets tier e c own f h d v =
      let w = value-Lands tier val e c e.value f (rw own h) v in
      let e1 = renewed tier val e c e.value in
      let c2 = set_value val (string_len e.value) tier (as_str e) (retype e.value tier e c) in
      let p =
        put_deadline-Writes tier c2 at e1 w.stands (omega (arith, w.deadlines, d))
          w.rewrites.valid in
      let e2 = with_deadline at e1 in
      let written : Rewrites e.key wanted c (put_deadline at tier e1 c2) =
        Rewrites-trans w.rewrites p.rewrites in
      let landed : Rewrites key wanted c (put_deadline at tier e1 c2) =
        subst (λ k. Rewrites k wanted c (put_deadline at tier e1 c2)) own written in
      let c3 = put_deadline at tier e1 c2 in
      let touched : Same c3
          (if is_tiered c && is_cold tier then ar_touch_get rand tier e2 c3 else c3) =
        if_elim (Same c3) (is_tiered c && is_cold tier) _ _
          (λ _. touch_get-Same rand tier e2 c3 p.stands p.rewrites.valid)
          (λ _. Same-refl p.rewrites.valid) in
      let c4 = if is_tiered c && is_cold tier then ar_touch_get rand tier e2 c3 else c3 in
      evicted-Sets rand now key wanted c (call_on_set key c4)
        (Rewrites-Same (Rewrites-Same landed touched) (call_on_set-Same key c4 touched.valid))

  -- A new key: the deadline, the demotion of others, a rehash.
  set_new-Sets :
      (c : Core)
      → lookup key c.dict ≡ none
      → total entry_bytes c.dict + (length key + length val + sizeof_entry) < 2 ^ 64
      → total deadline c.dict + at < 2 ^ 64
      → IsValid c
      → Sets key wanted c (set_new rand now key val at c)
  unfolding set_new
  set_new-Sets c gone h d v =
      let n = new_entry key val c in
      let c0 = link_new key val c in
      let w = link_new-Rewrites key val c v gone h in
      let p =
        put_deadline-Writes hot c0 at n (link_new-stands key val c v gone)
          (omega (arith, total-link_new key val c v gone deadline, d)) w.valid in
      let c1 = put_deadline at hot n c0 in
      let s = call_on_set-Same key c1 p.rewrites.valid in
      let t = Transparent-maybe_demote_hot rand (call_on_set key c1) s.valid in
      let u = Transparent-rehash (maybe_demote_hot rand (call_on_set key c1)) t.valid in
      evicted-Sets rand now key wanted c
        (ar_rehash_if_needed (maybe_demote_hot rand (call_on_set key c1)))
        (Rewrites-Same (Rewrites-trans w p.rewrites)
          (Same-trans s (Same-trans (Same-Transparent t) (Same-Transparent u))))

  -- A search that drops a due entry comes first.
  found-Sets :
      (c : Core) (r : Core × Option (Tier × Entry))
      → Finds now key c r
      → total entry_bytes c.dict + (length key + length val + sizeof_entry) < 2 ^ 64
      → total deadline c.dict + at < 2 ^ 64
      → Sets key wanted c (set_found rand now key val at r)
  unfolding set_found
  found-Sets c (b, none) s h d =
      after_find c (b, none) s
        (set_new-Sets b (s.stored ∙ sym s.result) (omega (arith, s.shrinks entry_bytes, h))
          (omega (arith, s.shrinks deadline, d)) s.valid)
  found-Sets c (b, some (tier, e)) s h d =
      after_find c (b, some (tier, e)) s
        (set_old-Sets tier e b (lookup-key key b.dict e (s.stored ∙ sym s.result)) s.located
          (omega (arith, s.shrinks entry_bytes, h)) (omega (arith, s.shrinks deadline, d)) s.valid)

  -- Where the invariant holds and the sums of bytes and of deadlines stay below 2^64, SET over a key of
  -- any type or none keeps the invariant and leaves the key with the value and the deadline asked for
  -- and the other keys with theirs; eviction may drop keys, and drops none where `maxmemory` is 0.
  pub set-Sets :
      (c : Core)
      → IsValid c
      → total entry_bytes c.dict + (length key + length val + sizeof_entry) < 2 ^ 64
      → total deadline c.dict + at < 2 ^ 64
      → Sets key wanted c (ar_entry_set_ex rand now key val at c)
  unfolding ar_entry_set_ex
  set-Sets c v h d = found-Sets c (ar_find_entry_ex now key c) (find-Finds now key c v) h d
