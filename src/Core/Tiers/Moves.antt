-- ===== src/Core/Tiers/Moves.antt =====
-- About moves of an entry between the tiers, in native/src/ar_core.c.
use aura_redis.Prelude.{ℕ, ◌<◌, ◌≡◌, refl, sym, ◌∙◌, some, inl, inr, Bool-cases, length, arith}
use aura_redis.Bytes.{Bytes, bytes_eq, bytes_eq_refl, eq_of_bytes_eq}
use aura_redis.Entry.{Entry, entry_bytes}
use aura_redis.Table.{find_in_table}
use aura_redis.Table.Weight.{weigh-unlink_entry, weigh-link_entry, length-link_entry}
use aura_redis.Table.Search.{
  tally, find-unlink_ne, find-unlink_self, find-link_entry, find_in_table-none,
}
use aura_redis.Table.Placed.{unlink-IsPlaced, link-IsPlaced}
use aura_redis.Core.{Core, hot_cold}
use aura_redis.Core.Free.Keeps.{tally-find, unlink-length}
use aura_redis.Core.Tiers.{move_to_cold, move_to_hot}
use aura_redis.Core.Invariant.{
  total, one, has_ttl, deadline, is_pinned, of_type, bytes_of_type, Accounted, IsShaped, IsCounted,
  IsValid, lookup,
}

-- From `c` to `c'` nothing that is stored has changed, and the invariant holds.
pub record Transparent (c c' : Core) : Type 0 where
  pub valid : IsValid c'
  pub lookups : (k : Bytes) → lookup k c'.dict ≡ lookup k c.dict
  pub totals : (m : Entry → ℕ) → total m c'.dict ≡ total m c.dict
  pub same_usage : c'.usage ≡ c.usage
  pub same_knobs : c'.knobs ≡ c.knobs
  pub same_layout : c'.layout ≡ c.layout

pub Transparent-refl : {c : Core} → IsValid c → Transparent c c
Transparent-refl v = record {
  valid = v;
  lookups = λ k. refl;
  totals = λ m. refl;
  same_usage = refl;
  same_knobs = refl;
  same_layout = refl;
}

pub Transparent-trans : {c d e : Core} → Transparent c d → Transparent d e → Transparent c e
Transparent-trans p q = record {
  valid = q.valid;
  lookups = λ k. q.lookups k ∙ p.lookups k;
  totals = λ m. q.totals m ∙ p.totals m;
  same_usage = q.same_usage ∙ p.same_usage;
  same_knobs = q.same_knobs ∙ p.same_knobs;
  same_layout = q.same_layout ∙ p.same_layout;
}

-- Equal sums leave the accounts as they are.
pub same-Accounted :
    (c c' : Core)
    → ((m : Entry → ℕ) → total m c'.dict ≡ total m c.dict)
    → c'.usage ≡ c.usage
    → Accounted c.dict c.usage
    → Accounted c'.dict c'.usage
same-Accounted c c' t u a = rw u (record {
  memory = a.memory ∙ sym (t entry_bytes);
  ttl_keys = a.ttl_keys ∙ sym (t has_ttl);
  ttl_sum = a.ttl_sum ∙ sym (t deadline);
  pins = a.pins ∙ sym (t is_pinned);
  type_keys = λ y. a.type_keys y ∙ sym (t (of_type y));
  type_memory = λ y. a.type_memory y ∙ sym (t (bytes_of_type y));
})

module _ (rand : ℕ → ℕ) (e : Entry) (c : Core) (v : IsValid c) where
  open v use {shape, counts, accounts}

  module _ (f : find_in_table e.key c.buckets ≡ some e) (pos : 0 < length c.cold_buckets) where
    totals-move_to_cold : (m : Entry → ℕ) → total m (move_to_cold rand e c).dict ≡ total m c.dict
    unfolding move_to_cold
    totals-move_to_cold m =
        omega
          (arith, weigh-unlink_entry m e.key c.buckets e f, weigh-link_entry m e c.cold_buckets pos)

    lookups-move_to_cold : (k : Bytes) → lookup k (move_to_cold rand e c).dict ≡ lookup k c.dict
    unfolding move_to_cold lookup
    lookups-move_to_cold k = elim (Bool-cases (bytes_eq e.key k)) [
      | inl same ↦
          let p : e.key ≡ k = eq_of_bytes_eq e.key k same in
          ground (
            arith,
            p,
            f,
            find-link_entry e c.cold_buckets k pos,
            find-unlink_self e.key c.buckets shape.hot_pos (omega (arith, shape.once e.key)),
          )
      | inr other ↦ ground (
        arith,
        other,
        find-link_entry e c.cold_buckets k pos,
        find-unlink_ne e.key k c.buckets shape.hot_pos other,
      )
    ]

    IsShaped-move_to_cold : c.layout ≡ hot_cold → IsShaped (move_to_cold rand e c).dict
    unfolding move_to_cold
    IsShaped-move_to_cold l = record {
      hot_pos = omega (arith, unlink-length e c e.key c.buckets, shape.hot_pos);
      cold_pos = omega (arith, length-link_entry e c.cold_buckets, shape.cold_pos);
      cold_null = rw l refl;
      placed_hot = unlink-IsPlaced e.key c.buckets e f (bytes_eq_refl e.key) shape.placed_hot;
      placed_cold = link-IsPlaced e c.cold_buckets pos shape.placed_cold;
      once = λ k. omega (arith, totals-move_to_cold (tally k), shape.once k);
    }

    IsCounted-move_to_cold : IsCounted (move_to_cold rand e c).dict
    unfolding move_to_cold
    IsCounted-move_to_cold = record {
      keys = omega (arith, totals-move_to_cold one, counts.keys);
      hot_keys = ground (arith, counts.hot_keys, weigh-unlink_entry one e.key c.buckets e f);
      cold_keys = ground (arith, counts.cold_keys, weigh-link_entry one e c.cold_buckets pos);
    }

    pub Transparent-move_to_cold : c.layout ≡ hot_cold → Transparent c (move_to_cold rand e c)
    Transparent-move_to_cold l = record {
      valid = record {
        shape = IsShaped-move_to_cold l;
        counts = IsCounted-move_to_cold;
        accounts =
            same-Accounted c (move_to_cold rand e c) totals-move_to_cold
              (unfold move_to_cold in refl) accounts;
      };
      lookups = lookups-move_to_cold;
      totals = totals-move_to_cold;
      same_usage = unfold move_to_cold in refl;
      same_knobs = unfold move_to_cold in refl;
      same_layout = unfold move_to_cold in refl;
    }

  module _ (f : find_in_table e.key c.cold_buckets ≡ some e) (pos : 0 < length c.cold_buckets) where
    totals-move_to_hot : (m : Entry → ℕ) → total m (move_to_hot rand e c).dict ≡ total m c.dict
    unfolding move_to_hot
    totals-move_to_hot m = omega (
      arith,
      weigh-unlink_entry m e.key c.cold_buckets e f,
      weigh-link_entry m e c.buckets shape.hot_pos,
    )

    lookups-move_to_hot : (k : Bytes) → lookup k (move_to_hot rand e c).dict ≡ lookup k c.dict
    unfolding move_to_hot lookup
    lookups-move_to_hot k = elim (Bool-cases (bytes_eq e.key k)) [
      | inl same ↦
          let p : e.key ≡ k = eq_of_bytes_eq e.key k same in
          ground (
            arith,
            p,
            f,
            find-link_entry e c.buckets k shape.hot_pos,
            find_in_table-none e.key c.buckets
                (omega (arith, shape.once e.key, tally-find e.key c.cold_buckets e f)),
          )
      | inr other ↦ ground (
        arith,
        other,
        find-link_entry e c.buckets k shape.hot_pos,
        find-unlink_ne e.key k c.cold_buckets pos other,
      )
    ]

    IsShaped-move_to_hot : c.layout ≡ hot_cold → IsShaped (move_to_hot rand e c).dict
    unfolding move_to_hot
    IsShaped-move_to_hot l = record {
      hot_pos = omega (arith, length-link_entry e c.buckets, shape.hot_pos);
      cold_pos = omega (arith, unlink-length e c e.key c.cold_buckets, shape.cold_pos);
      cold_null = rw l refl;
      placed_hot = link-IsPlaced e c.buckets shape.hot_pos shape.placed_hot;
      placed_cold =
          unlink-IsPlaced e.key c.cold_buckets e f (bytes_eq_refl e.key) shape.placed_cold;
      once = λ k. omega (arith, totals-move_to_hot (tally k), shape.once k);
    }

    IsCounted-move_to_hot : IsCounted (move_to_hot rand e c).dict
    unfolding move_to_hot
    IsCounted-move_to_hot = record {
      keys = omega (arith, totals-move_to_hot one, counts.keys);
      hot_keys = ground (arith, counts.hot_keys, weigh-link_entry one e c.buckets shape.hot_pos);
      cold_keys = ground (arith, counts.cold_keys, weigh-unlink_entry one e.key c.cold_buckets e f);
    }

    pub Transparent-move_to_hot : c.layout ≡ hot_cold → Transparent c (move_to_hot rand e c)
    Transparent-move_to_hot l = record {
      valid = record {
        shape = IsShaped-move_to_hot l;
        counts = IsCounted-move_to_hot;
        accounts =
            same-Accounted c (move_to_hot rand e c) totals-move_to_hot (unfold move_to_hot in refl)
              accounts;
      };
      lookups = lookups-move_to_hot;
      totals = totals-move_to_hot;
      same_usage = unfold move_to_hot in refl;
      same_knobs = unfold move_to_hot in refl;
      same_layout = unfold move_to_hot in refl;
    }
