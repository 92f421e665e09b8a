-- ===== src/Core/Set/Touches.antt =====
-- About the access hooks and `ar_touch_get` of native/src/ar_core.c.
use aura_redis.Prelude.{
  ℕ, ◌+◌, ◌≡◌, refl, ◌∙◌, true, ◌&&◌, if_elim, inl, inr, Option-cases, Bool-cases, Option, none,
  some, arith, if◌then◌else◌, ◌==◌,
}
use aura_redis.Bytes.{Bytes, bytes_eq, eq_of_bytes_eq}
use aura_redis.Entry.{Entry, entry_bytes}
use aura_redis.Table.{find_in_table}
use aura_redis.Table.Weight.{find-pos}
use aura_redis.Table.Search.{find-own}
use aura_redis.Core.{
  Core, Tier, hot, cold, hot_cold, EvictOps, noop, lru, lfu, ttl_aware, slru, tinylfu,
}
use aura_redis.Core.Free.{table}
use aura_redis.Core.Find.Keeps.{Located}
use aura_redis.Core.Store.{store_at}
use aura_redis.Core.Store.Keeps.{
  total-store, store-IsShaped, store-IsCounted, lookup-store, store-stands,
}
use aura_redis.Core.Tiers.{
  is_tiered, is_cold, has_cold, maybe_demote_hot, move_to_hot, ar_touch_get,
}
use aura_redis.Core.Tiers.Moves.{Transparent, Transparent-trans, Transparent-move_to_hot}
use aura_redis.Core.Tiers.Keeps.{Transparent-maybe_demote_hot, tiered-layout}
use aura_redis.Core.Evict.{on_set, on_get, lfu_incr}
use aura_redis.Core.Evict.Drops.{lookup-stands}
use aura_redis.Core.Set.{locate, run_on_set, call_on_set}
use aura_redis.Core.Set.Steps.{view}
use aura_redis.Core.Invariant.{has_ttl, deadline, is_pinned, of_type, bytes_of_type, IsValid}

-- From `c` to `c'` every key keeps its value and deadline.
pub record Same (c c' : Core) : Type 0 where
  pub valid : IsValid c'
  pub views : (k : Bytes) → view k c' ≡ view k c
  pub same_knobs : c'.knobs ≡ c.knobs

pub Same-refl : {c : Core} → IsValid c → Same c c
Same-refl v = record { valid = v; views = λ k. refl; same_knobs = refl }

pub Same-trans : {a b c : Core} → Same a b → Same b c → Same a c
Same-trans p q = record {
  valid = q.valid;
  views = λ k. q.views k ∙ p.views k;
  same_knobs = q.same_knobs ∙ p.same_knobs;
}

pub Same-Transparent : {a b : Core} → Transparent a b → Same a b
Same-Transparent p = record {
  valid = p.valid;
  views = λ k. rw (p.lookups k) refl;
  same_knobs = p.same_knobs;
}

module _ (tier : Tier) (e : Entry) (c : Core) (f : find_in_table e.key (table tier c.dict) ≡ some e)
    (v : IsValid c) where
  -- An entry's access time and frequency, and the clock, are no part of what a key has.
  pub Same-touched :
      (time freq now : ℕ)
      → Same c (
          store_at tier
            (record e { last_access = time; lfu_freq = freq })
            (record c { clock = now }))
  Same-touched time freq now =
      let e' = record e { last_access = time; lfu_freq = freq } in
      let d = record c { clock = now } in
      let sum = λ (m : Entry → ℕ). total-store tier e e' d f refl m in
      let a = v.accounts in
      record {
        valid = record {
          shape = store-IsShaped tier e e' d f refl v.shape;
          counts = store-IsCounted tier e e' d f refl v.counts;
          accounts =
              unfold store_at entry_bytes in
              record {
                memory = omega (arith, sum entry_bytes, a.memory);
                ttl_keys = omega (arith, sum has_ttl, a.ttl_keys);
                ttl_sum = omega (arith, sum deadline, a.ttl_sum);
                pins = omega (arith, sum is_pinned, a.pins);
                type_keys = λ t. omega (arith, sum (of_type t), a.type_keys t);
                type_memory = λ t. omega (arith, sum (bytes_of_type t), a.type_memory t);
              };
        };
        views = λ k.
            rw (lookup-store tier e e' d k f v.shape) (elim (Bool-cases (bytes_eq e.key k)) [
              | inr other ↦ rw other refl
              | inl same ↦
                  rw (same, ← eq_of_bytes_eq e.key k same, lookup-stands tier e c f v.shape) refl
            ]);
        same_knobs = unfold store_at in refl;
      }

  Same-on_set : (ops : EvictOps) → Same c (store_at tier (on_set ops c e).1 (on_set ops c e).0)
  unfolding on_set
  Same-on_set noop = Same-touched e.last_access e.lfu_freq c.clock
  Same-on_set lru = Same-touched (c.clock + 1) e.lfu_freq (c.clock + 1)
  Same-on_set lfu =
      Same-touched (c.clock + 1) (if e.lfu_freq == 0 then 5 else e.lfu_freq) (c.clock + 1)
  Same-on_set ttl_aware = Same-touched (c.clock + 1) e.lfu_freq (c.clock + 1)
  Same-on_set slru = Same-touched (c.clock + 1) 0 (c.clock + 1)
  Same-on_set tinylfu = Same-touched (c.clock + 1) 0 (c.clock + 1)

  pub Same-on_get : (ops : EvictOps) → Same c (store_at tier (on_get ops c e).1 (on_get ops c e).0)
  unfolding on_get lfu_incr
  Same-on_get noop = Same-touched e.last_access e.lfu_freq c.clock
  Same-on_get lru = Same-touched (c.clock + 1) e.lfu_freq (c.clock + 1)
  Same-on_get lfu = Same-touched e.last_access _ c.clock
  Same-on_get ttl_aware = Same-touched (c.clock + 1) e.lfu_freq (c.clock + 1)
  Same-on_get slru = Same-touched (c.clock + 1) _ (c.clock + 1)
  Same-on_get tinylfu = Same-touched (c.clock + 1) _ (c.clock + 1)

module _ (key : Bytes) (c : Core) where
  locate-hot : (x : Entry) → find_in_table key c.buckets ≡ some x → locate key c ≡ some (hot, x)
  unfolding locate
  locate-hot x f = ground (arith, f)

  locate-cold :
      (x : Entry)
      → find_in_table key c.buckets ≡ none
      → find_in_table key c.cold_buckets ≡ some x
      → locate key c ≡ some (cold, x)
  unfolding locate
  locate-cold x n f = ground (arith, n, f)

  locate-none :
      find_in_table key c.buckets ≡ none
      → find_in_table key c.cold_buckets ≡ none
      → locate key c ≡ none
  unfolding locate
  locate-none n f = ground (arith, n, f)

  pub locate-Located : Located c (locate key c)
  locate-Located = elim (Option-cases (find_in_table key c.buckets)) [
    | inl n ↦ elim (Option-cases (find_in_table key c.cold_buckets)) [
      | inl n' ↦ rw (locate-none n n') tt
      | inr (x, f) ↦ rw (locate-cold x n f) (find-own key c.cold_buckets x f)
    ]
    | inr (x, f) ↦ rw (locate-hot x f) (find-own key c.buckets x f)
  ]

run_on_set-Same :
    (c : Core) (o : Option (Tier × Entry)) → Located c o → IsValid c → Same c (run_on_set c o)
unfolding run_on_set
run_on_set-Same c none h v = Same-refl v
run_on_set-Same c (some (tier, e)) h v = Same-on_set tier e c h v c.evict

pub call_on_set-Same : (key : Bytes) (c : Core) → IsValid c → Same c (call_on_set key c)
unfolding call_on_set
call_on_set-Same key c v = run_on_set-Same c (locate key c) (locate-Located key c) v

promote-Same :
    (rand : ℕ → ℕ) (tier : Tier) (e : Entry) (c : Core)
    → find_in_table e.key (table tier c.dict) ≡ some e
    → IsValid c
    → c.layout ≡ hot_cold
    → is_cold tier ≡ true
    → Same c (maybe_demote_hot rand (move_to_hot rand e c))
promote-Same rand hot e c f v l h = absurd (ground arith)
promote-Same rand cold e c f v l h =
    let up = Transparent-move_to_hot rand e c v f (find-pos e.key c.cold_buckets e f) l in
    Same-Transparent
      (Transparent-trans up (Transparent-maybe_demote_hot rand (move_to_hot rand e c) up.valid))

-- A promotion moves the entry in hand, and may demote others.
pub touch_get-Same :
    (rand : ℕ → ℕ) (tier : Tier) (e : Entry) (c : Core)
    → find_in_table e.key (table tier c.dict) ≡ some e
    → IsValid c
    → Same c (ar_touch_get rand tier e c)
unfolding ar_touch_get
touch_get-Same rand tier e c f v =
    let e1 = record e { last_access = c.clock + 1 } in
    let d = store_at tier e1 (record c { clock = c.clock + 1 }) in
    let s = Same-touched tier e c f v (c.clock + 1) e.lfu_freq (c.clock + 1) in
    if_elim (Same c) (is_tiered c && is_cold tier && has_cold c && c.hot_promote_on_get) _ _
      (λ h. Same-trans s (
        promote-Same rand tier e1 d (store-stands tier e e1 (record c { clock = c.clock + 1 }) f)
          s.valid (unfold store_at in tiered-layout c (ground (arith, h))) (ground (arith, h))))
      (λ _. s)
