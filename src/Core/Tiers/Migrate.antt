-- ===== src/Core/Tiers/Migrate.antt =====
-- About the migrations between the layouts, `ar_core_set_layout` of native/src/ar_core.c.
use aura_redis.Prelude.{
  if_elim, ℕ, ◌+◌, ◌≡◌, refl, sym, ◌∙◌, Bool, not, Option, none, some, inl, inr, Option-cases, List,
  [], ◌∷◌, length, replicate, length-replicate, ltb, if◌then◌else◌, arith,
}
use aura_redis.Bytes.{Bytes}
use aura_redis.Entry.{Entry}
use aura_redis.Table.{Table, find_in_table, link_all}
use aura_redis.Table.Weight.{weigh, weigh-empty, weigh-link_all, length-link_all}
use aura_redis.Table.Search.{tally, find_in_table-none}
use aura_redis.Table.Rehash.{
  find-empty, empty-IsPlaced, find-link_all, link_all-IsPlaced, find_any-find,
}
use aura_redis.Core.{Core, Layout, flat, hot_cold}
use aura_redis.Core.Free.Keeps.{tally-find}
use aura_redis.Core.Tiers.{
  is_tiered, migrate_to_hot_cold, migrate_to_flat, migrate, same_layout, ar_core_set_layout,
}
use aura_redis.Core.Tiers.Moves.{same-Accounted}
use aura_redis.Core.Tiers.Keeps.{Transparent-rehash, flat-layout}
use aura_redis.Core.Invariant.{total, one, IsValid, lookup}

-- From `c` to `c'` nothing that is stored has changed, in whatever layout, and the invariant holds.
pub record Migrates (c c' : Core) : Type 0 where
  pub valid : IsValid c'
  pub lookups : (k : Bytes) → lookup k c'.dict ≡ lookup k c.dict
  pub totals : (m : Entry → ℕ) → total m c'.dict ≡ total m c.dict
  pub same_usage : c'.usage ≡ c.usage

Migrates-refl : (c : Core) → IsValid c → Migrates c c
Migrates-refl c v = record { valid = v; lookups = λ k. refl; totals = λ m. refl; same_usage = refl }

cold-nil : (t : Table) → length t ≡ 0 → t ≡ []
cold-nil [] h = refl
cold-nil (b ∷ t) h = absurd (omega arith)

abbrev fresh_size : Core → ℕ
fresh_size c = if ltb (length c.buckets) 256 then 256 else length c.buckets

-- The empty cold table of a new hot_cold layout.
abbrev with_cold : Core → Core
with_cold c = record c {
  dict = record c.dict {
    cold_buckets = replicate (fresh_size c) [];
    cold_nkeys = 0;
    hot_nkeys = c.nkeys;
    layout = hot_cold;
  };
  metrics = record c.metrics { layout_gen = c.layout_gen + 1; migrates = c.migrates + 1 };
}

module _ (c : Core) (v : IsValid c) (was : c.layout ≡ flat) where
  nil : c.cold_buckets ≡ []
  nil = cold-nil c.cold_buckets (ground (arith, was, v.shape.cold_null))

  totals-with_cold : (m : Entry → ℕ) → total m (with_cold c).dict ≡ total m c.dict
  totals-with_cold m = rw nil (unfold weigh in rw (weigh-empty m (fresh_size c)) (omega arith))

  fresh-length : length (replicate {A = List Entry} (fresh_size c) []) ≡ fresh_size c
  fresh-length = length-replicate (fresh_size c) []

  hot_all : weigh one c.buckets ≡ c.nkeys
  hot_all = nil_total (sym v.counts.keys)
    where
      nil_total : total one c.dict ≡ c.nkeys → weigh one c.buckets ≡ c.nkeys
      nil_total h =
          let w : weigh one c.cold_buckets ≡ 0 = rw nil (unfold weigh in refl) in
          omega (arith, h, w)

  Migrates-with_cold : Migrates c (with_cold c)
  unfolding lookup
  Migrates-with_cold = record {
    valid = record {
      shape = record {
        hot_pos = v.shape.hot_pos;
        cold_pos = rw fresh-length (ground arith);
        cold_null = refl;
        placed_hot = v.shape.placed_hot;
        placed_cold = empty-IsPlaced (fresh_size c);
        once = λ k. rw (totals-with_cold (tally k)) (v.shape.once k);
      };
      counts = record {
        keys = v.counts.keys ∙ sym (totals-with_cold one);
        hot_keys = hot_all;
        cold_keys = weigh-empty one (fresh_size c);
      };
      accounts = same-Accounted c (with_cold c) totals-with_cold refl v.accounts;
    };
    lookups = λ k. rw (find-empty k (fresh_size c), nil) (unfold find_in_table in refl);
    totals = totals-with_cold;
    same_usage = refl;
  }

Migrates-to_hot_cold : (c : Core) → IsValid c → Migrates c (migrate_to_hot_cold c)
unfolding migrate_to_hot_cold
Migrates-to_hot_cold c v =
    if_elim (Migrates c) (is_tiered c) _ _ (λ _. Migrates-refl c v)
      (λ one_tier. Migrates-with_cold c v (flat-layout c one_tier))

-- The cold chains folded into the hot table.
abbrev folded : Core → Core
folded c = record c {
  dict = record c.dict {
    buckets = link_all c.cold_buckets c.buckets;
    cold_buckets = [];
    cold_nkeys = 0;
    hot_nkeys = 0;
    layout = flat;
  };
  metrics = record c.metrics { layout_gen = c.layout_gen + 1; migrates = c.migrates + 1 };
}

module _ (c : Core) (v : IsValid c) where
  totals-folded : (m : Entry → ℕ) → total m (folded c).dict ≡ total m c.dict
  unfolding weigh
  totals-folded m = omega (arith, weigh-link_all m c.cold_buckets c.buckets v.shape.hot_pos)

  swap_tiers : (k : Bytes) → lookup k (folded c).dict ≡ lookup k c.dict
  unfolding lookup
  swap_tiers k =
      let once = v.shape.once k in
      let nothing : find_in_table k [] ≡ none = unfold find_in_table in refl in
      let found = find-link_all k c.cold_buckets c.buckets v.shape.hot_pos (omega (arith, once)) in
      let all = find_any-find k c.cold_buckets v.shape.placed_cold in
      elim (Option-cases (find_in_table k c.cold_buckets)) [
        | inl n ↦ ground (arith, nothing, found, all, n)
        | inr (e, f) ↦
            let gone =
              find_in_table-none k c.buckets
                (omega (arith, once, tally-find k c.cold_buckets e f)) in
            ground (arith, nothing, found, all, f, gone)
      ]

  Migrates-folded : Migrates c (folded c)
  Migrates-folded = record {
    valid = record {
      shape = record {
        hot_pos = omega (arith, length-link_all c.cold_buckets c.buckets, v.shape.hot_pos);
        cold_pos = omega arith;
        cold_null = refl;
        placed_hot = link_all-IsPlaced c.cold_buckets c.buckets v.shape.hot_pos v.shape.placed_hot;
        placed_cold = empty-IsPlaced 0;
        once = λ k. rw (totals-folded (tally k)) (v.shape.once k);
      };
      counts = record {
        keys = v.counts.keys ∙ sym (totals-folded one);
        hot_keys = refl;
        cold_keys = refl;
      };
      accounts = same-Accounted c (folded c) totals-folded refl v.accounts;
    };
    lookups = swap_tiers;
    totals = totals-folded;
    same_usage = refl;
  }

  Migrates-to_flat : Migrates c (migrate_to_flat c)
  unfolding migrate_to_flat
  Migrates-to_flat =
      let step = Migrates-folded in
      let again = Transparent-rehash (folded c) step.valid in
      if_elim (Migrates c) (not (is_tiered c)) _ _ (λ _. Migrates-refl c v)
        (λ _. record {
          valid = again.valid;
          lookups = λ k. again.lookups k ∙ step.lookups k;
          totals = λ m. again.totals m ∙ step.totals m;
          same_usage = again.same_usage ∙ step.same_usage;
        })

Migrates-migrate : (want : Layout) (c : Core) → IsValid c → Migrates c (migrate want c)
Migrates-migrate flat c v = Migrates-to_flat c v
Migrates-migrate hot_cold c v = Migrates-to_hot_cold c v

-- Where the invariant holds, a change of layout, to either layout or to a name that is not known,
-- keeps the invariant, what every key has stored, every sum over the entries and `usage`.
pub Migrates-set_layout :
    (want : Option Layout) (c : Core) → IsValid c → Migrates c (ar_core_set_layout want c).0
unfolding ar_core_set_layout
Migrates-set_layout none c v = Migrates-refl c v
Migrates-set_layout (some want) c v =
    let m = Migrates-migrate want c v in
    if_elim (λ (r : Core × Bool). Migrates c r.0) c.layout_busy _ _ (λ _. Migrates-refl c v)
      (λ _.
        if_elim (λ (r : Core × Bool). Migrates c r.0) (same_layout c.layout want) _ _
          (λ _. Migrates-refl c v)
          (λ _. record {
            valid = record {
              shape = m.valid.shape;
              counts = m.valid.counts;
              accounts = m.valid.accounts;
            };
            lookups = m.lookups;
            totals = m.totals;
            same_usage = m.same_usage;
          }))
