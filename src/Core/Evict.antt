-- ===== src/Core/Evict.antt =====
-- The eviction kernels of native/src/ar_core.c: access hooks, sampling, and the loops that evict
-- while memory is over its limit. `rand` gives the value of each call of `rand()`; `now` is
-- `ar_now_ms()`, one reading for the whole of an operation, where the code reads the clock again for
-- every entry that it samples. Plugins loaded with `dlopen` are not modelled.
pub mod Drops
pub mod Walk
pub mod Keeps
use aura_redis.Prelude.{
  ℕ, zero, suc, ◌+◌, ◌-◌, ◌%◌, ◌^◌, Bool, true, false, not, ◌&&◌, ◌||◌, Option, none, some, List,
  [], ◌∷◌, length, get_or, ltb, leb, ◌==◌, if◌then◌else◌,
}
use aura_redis.Entry.{Entry}
use aura_redis.Core.{Core, EvictOps, noop, lru, lfu, ttl_aware, slru, tinylfu, Tier, hot, cold}
use aura_redis.Core.Free.{ar_entry_free_ex, table}
use aura_redis.Core.Find.{is_due, bump_expired}
use aura_redis.Core.Tiers.{is_tiered, has_cold}

-- The locals of `evict_*_one` while it samples.
pub record Pick : Type 0 where
  pub best : Option (Tier × Entry)
  pub best_t : ℕ
  pub best_f : ℕ
  pub best_exp : ℕ
  pub best_prot : ℕ
  pub found_ttl : Bool
  pub samples : ℕ

-- `best_t = UINT64_MAX; best_f = 255; best_prot = 2; found_ttl = 0;`
abbrev pub no_pick : Pick
no_pick = record {
  best = none;
  best_t = 2 ^ 64 - 1;
  best_f = 255;
  best_exp = 2 ^ 64 - 1;
  best_prot = 2;
  found_ttl = false;
  samples = 0;
}

-- Whether the kernel prefers `e` to what it has.
abbrev lru_better : Entry → Pick → Bool
lru_better e p = ltb e.last_access p.best_t

abbrev lfu_better : Entry → Pick → Bool
lfu_better e p = ltb e.lfu_freq p.best_f || (e.lfu_freq == p.best_f && ltb e.last_access p.best_t)

-- With a deadline: the soonest, then the oldest. Without one: the oldest, until a deadline is seen.
abbrev ttl_better : Entry → Pick → Bool
ttl_better e p =
    if not (e.expire_at == 0)
    then (not p.found_ttl
        || ltb e.expire_at p.best_exp
        || (e.expire_at == p.best_exp && ltb e.last_access p.best_t))
    else not p.found_ttl && ltb e.last_access p.best_t

abbrev prot : Entry → ℕ
prot e = if leb 1 e.lfu_freq then 1 else 0

abbrev slru_better : Entry → Pick → Bool
slru_better e p = ltb (prot e) p.best_prot || (prot e == p.best_prot && ltb e.last_access p.best_t)

unfoldable pub better : EvictOps → Entry → Pick → Bool
better noop e p = false
better lru e p = lru_better e p
better lfu e p = lfu_better e p
better ttl_aware e p = ttl_better e p
better slru e p = slru_better e p
better tinylfu e p = slru_better e p

-- One entry that is neither due nor pinned is sampled.
unfoldable pub consider : EvictOps → Tier → Entry → Pick → Pick
consider ops tier e p =
    let take = better ops e p in
    record {
      best = if take then some (tier, e) else p.best;
      best_t = if take then e.last_access else p.best_t;
      best_f = if take then e.lfu_freq else p.best_f;
      best_exp =
          if take then (if e.expire_at == 0 then 2 ^ 64 - 1 else e.expire_at) else p.best_exp;
      best_prot = if take then prot e else p.best_prot;
      found_ttl = p.found_ttl || (take && not (e.expire_at == 0));
      samples = p.samples + 1;
    }

-- One entry of the chain: a due one is freed, a pinned one skipped.
unfoldable pub visit : EvictOps → ℕ → Tier → Entry → Core × Pick → Core × Pick
visit ops now tier e (c, p) =
    if is_due now e
    then (bump_expired (ar_entry_free_ex tier e c), p)
    else if e.pinned
    then (c, p)
    else (c, consider ops tier e p)

-- The walk of a chain, whose `next` is read before the entry is freed.
unfoldable pub walk : EvictOps → ℕ → ℕ → Tier → List Entry → Core × Pick → Core × Pick
walk ops now max tier [] s = s
walk ops now max tier (e ∷ es) s =
    if ltb s.1.samples max then walk ops now max tier es (visit ops now tier e s) else s

unfoldable pub max_samples : Core → ℕ
max_samples c = if ltb 0 c.evict_samples then c.evict_samples else 16

abbrev pub use_cold : Bool → Core → Tier
use_cold odd c = if is_tiered c && has_cold c && ltb 0 c.cold_nkeys && odd then cold else hot

abbrev pub with_rolls : ℕ → Core → Core
with_rolls n c = record c { rolls = n }

module _ (rand : ℕ → ℕ) where
  -- `i = rand() % nb`, and the walk of that chain; an empty table is passed over.
  unfoldable pub sample_bucket : EvictOps → ℕ → ℕ → Tier → Core × Pick → Core × Pick
  sample_bucket ops now max tier (c, p) =
      let t = table tier c.dict in
      if length t == 0
      then (c, p)
      else walk ops now max tier (get_or t (rand c.rolls % length t) [])
          (with_rolls (c.rolls + 1) c, p)

  -- The attempts that are left, and the parity of the attempt.
  unfoldable pub sample_pick : EvictOps → ℕ → ℕ → ℕ → Bool → Core × Pick → Core × Pick
  sample_pick ops now max zero odd s = s
  sample_pick ops now max (suc n) odd s =
      let rest =
        sample_pick ops now max n (not odd) (sample_bucket ops now max (use_cold odd s.0) s) in
      if ltb s.1.samples max then rest else s

  unfoldable pub evict_picked : Core → Option (Tier × Entry) → Core × Bool
  evict_picked c none = (c, false)
  evict_picked c (some (tier, e)) =
      let c1 = ar_entry_free_ex tier e c in
      (record c1 { metrics = record c1.metrics { evicted = suc c1.evicted } }, true)

  abbrev sampled : ℕ → Core → Core × Pick
  sampled now c = sample_pick c.evict now (max_samples c) 128 false (c, no_pick)

  abbrev is_noop : EvictOps → Bool
  is_noop noop = true
  is_noop _ = false

  unfoldable pub evict_one : ℕ → Core → Core × Bool
  unfolding evict_picked
  evict_one now c =
      if is_noop c.evict || c.nkeys == 0
      then (c, false)
      else evict_picked (sampled now c).0 (sampled now c).1.best

  unfoldable pub should_evict : Core → Bool
  should_evict c = not (is_noop c.evict) && ltb 0 c.maxmemory && ltb c.maxmemory c.used_memory

  -- `while (should_evict(core) && guard++ < limit)`, with the rounds that are left.
  unfoldable pub evict_rounds : ℕ → ℕ → Core → Core
  evict_rounds now zero c = c
  evict_rounds now (suc n) c =
      let (c', done) = evict_one now c in
      let rest = evict_rounds now n c' in if should_evict c then (if done then rest else c') else c

  abbrev clamp : ℕ → ℕ → ℕ → ℕ
  clamp lo hi n = let m = if ltb n lo then lo else n in if ltb hi m then hi else m

  unfoldable pub maybe_evict : ℕ → Core → Core
  maybe_evict now c = evict_rounds now (clamp 64 1000000 (c.nkeys + 8)) c

  unfoldable pub ar_maybe_evict_pub : ℕ → Core → Core
  ar_maybe_evict_pub now c = evict_rounds now (clamp 64 4096 (c.nkeys + 16)) c

-- The access hooks, on the entry and the clock.
unfoldable pub lfu_incr : Entry → Entry
lfu_incr e = record e { lfu_freq = if ltb e.lfu_freq 255 then e.lfu_freq + 1 else e.lfu_freq }

abbrev tick : Core → Core
tick c = record c { clock = c.clock + 1 }

abbrev stamp : Core → Entry → Entry
stamp c e = record e { last_access = c.clock + 1 }

unfoldable pub on_get : EvictOps → Core → Entry → Core × Entry
unfolding lfu_incr
on_get noop c e = (c, e)
on_get lru c e = (tick c, stamp c e)
on_get lfu c e = (c, lfu_incr e)
on_get ttl_aware c e = (tick c, stamp c e)
on_get slru c e =
    (tick c, record (stamp c e) { lfu_freq = if e.lfu_freq == 0 then 1 else (lfu_incr e).lfu_freq })
on_get tinylfu c e =
    (tick c, record (stamp c e) { lfu_freq = if e.lfu_freq == 0 then 1 else (lfu_incr e).lfu_freq })

unfoldable pub on_set : EvictOps → Core → Entry → Core × Entry
on_set noop c e = (c, e)
on_set lru c e = (tick c, stamp c e)
on_set lfu c e =
    (tick c, record (stamp c e) { lfu_freq = if e.lfu_freq == 0 then 5 else e.lfu_freq })
on_set ttl_aware c e = (tick c, stamp c e)
on_set slru c e = (tick c, record (stamp c e) { lfu_freq = 0 })
on_set tinylfu c e = (tick c, record (stamp c e) { lfu_freq = 0 })
