-- ===== src/Core/Scan/Counts.antt =====
-- DBSIZE: what it counts and what it leaves.
use aura_redis.Prelude.{
  ℕ, zero, suc, ◌+◌, ◌≡◌, refl, sym, subst, ap, ◌∙◌, Option, none, some, List, [], ◌∷◌, ◌++◌,
  length, length-append, if◌then◌else◌, arith,
}
use aura_redis.Entry.{Entry}
use aura_redis.Table.Weight.{weigh_bucket}
use aura_redis.Core.{Core, Tier}
use aura_redis.Core.Find.{is_due}
use aura_redis.Core.Keys.{count_op}
use aura_redis.Core.Keys.Purge.{Purges}
use aura_redis.Core.Invariant.{total, one, IsValid}
use aura_redis.Core.Scan.{scan_bucket_at, scan_total_buckets, count_chain, count_buckets, ar_dbsize}
use aura_redis.Core.Scan.Sweeps.{alive, due_part, sweep, count_chain-sweep}
use aura_redis.Core.Scan.Places.{
  bucket_at, chain_of, scan_bucket_at-bucket_at, scan_total_buckets_sum,
}
use aura_redis.Core.Scan.Buckets.{gathered}
use aura_redis.Core.Scan.Walks.{
  Walked, alive-append, Walked-none, Walked-visit, ahead, no_bucket, a_bucket,
}
use aura_redis.Core.Scan.Sums.{weigh-all}

module _ (now : ℕ) where
  -- The count is that of the entries that are not due.
  record Counts (n idx : ℕ) (c : Core) (r : Core × ℕ) : Type 0 where
    walked : Walked now n idx c r.0
    counted : r.1 ≡ length (alive now (gathered n idx c))

  abbrev after_chain : ℕ → ℕ → Core × ℕ → Core × ℕ
  after_chain n idx (c1, k) = let (c2, more) = count_buckets now n (suc idx) c1 in (c2, k + more)

  count_step :
      (n idx : ℕ) (c : Core)
      → IsValid c
      → ((c1 : Core) → IsValid c1 → Counts n (suc idx) c1 (count_buckets now n (suc idx) c1))
      → (o : Option (Tier × List Entry)) → bucket_at c idx ≡ o
      → Counts (suc n) idx c (elim o [
        | none ↦ count_buckets now n (suc idx) c
        | some (tier, chain) ↦ after_chain n idx (count_chain now tier chain c)
      ])
  unfolding gathered alive
  count_step n idx c v ih none h =
      let w = no_bucket now idx c v h in
      let r = ih c v in
      record {
        walked = Walked-visit now n idx c c (count_buckets now n (suc idx) c).0 w r.walked;
        counted =
            r.counted ∙ ap (λ o. length (alive now (chain_of o ++ gathered n (suc idx) c))) (sym h);
      }
  count_step n idx c v ih (some (tier, es)) h =
      let w = a_bucket now idx tier es c v h in
      let c1 = sweep now tier es c in
      let r = ih c1 w.purges.valid in
      subst (λ x. Counts (suc n) idx c (after_chain n idx x))
        (sym (count_chain-sweep now tier es c))
        (record {
          walked = Walked-visit now n idx c c1 (count_buckets now n (suc idx) c1).0 w r.walked;
          counted =
              ap (λ k. length (alive now es) + k)
                (r.counted ∙ ap (λ g. length (alive now g)) (ahead now n idx c c1 w))
              ∙ sym (length-append (alive now es) (alive now (gathered n (suc idx) c)))
              ∙ ap length (sym (alive-append now es (gathered n (suc idx) c)))
              ∙ ap (λ o. length (alive now (chain_of o ++ gathered n (suc idx) c))) (sym h);
        })

  count_buckets-Counts :
      (n idx : ℕ) (c : Core) → IsValid c → Counts n idx c (count_buckets now n idx c)
  unfolding count_buckets gathered alive
  count_buckets-Counts zero idx c v = record { walked = Walked-none now idx c v; counted = refl }
  count_buckets-Counts (suc n) idx c v =
      count_step n idx c v (λ c1 v1. count_buckets-Counts n (suc idx) c1 v1) (scan_bucket_at c idx)
        (sym (scan_bucket_at-bucket_at c idx v))

  abbrev pub live_part : (Entry → ℕ) → Entry → ℕ
  live_part m e = if is_due now e then 0 else m e

  -- DBSIZE of `c`: the entries that are not due stay, and are counted.
  pub record Counted (c : Core) (r : Core × ℕ) : Type 0 where
    pub purges : Purges now c r.0
    pub counted : r.1 ≡ total (live_part one) c.dict
    pub left : (m : Entry → ℕ) → total m r.0.dict ≡ total (live_part m) c.dict
    pub remaining : r.0.nkeys ≡ r.1

  pub alive-length : (es : List Entry) → length (alive now es) ≡ weigh_bucket (live_part one) es
  unfolding alive weigh_bucket
  alive-length [] = refl
  alive-length (e ∷ es) = ground (arith, alive-length es)

  parts :
      (m : Entry → ℕ) (es : List Entry)
      → weigh_bucket (live_part m) es + weigh_bucket (due_part now m) es ≡ weigh_bucket m es
  unfolding weigh_bucket
  parts m [] = omega arith
  parts m (e ∷ es) = ground (arith, parts m es)

  -- Where the invariant holds, DBSIZE frees exactly the entries that are due, replies the number of
  -- the others, which is then the number of keys, and keeps the invariant.
  pub dbsize-Counted : (c : Core) → IsValid c → Counted c (ar_dbsize now c)
  unfolding ar_dbsize
  dbsize-Counted c v =
      let c0 = count_op c in
      let v0 : IsValid c0 = record { shape = v.shape; counts = v.counts; accounts = v.accounts } in
      let n = length c.buckets + length c.cold_buckets in
      let all : scan_total_buckets c0 ≡ n = scan_total_buckets_sum c0 v0 in
      let r = count_buckets-Counts n 0 c0 v0 in
      let gone : (m : Entry → ℕ)
          → total m (count_buckets now n 0 c0).0.dict ≡ total (live_part m) c.dict =
        λ m. omega (
          arith,
          parts m (gathered n 0 c0),
          weigh-all (live_part m) c0,
          weigh-all m c0,
          r.walked.sums m,
        ) in
      let counted = r.counted ∙ alive-length (gathered n 0 c0) ∙ weigh-all (live_part one) c0 in
      rw all (record {
        purges = record { valid = r.walked.purges.valid; lives = r.walked.purges.lives };
        counted = counted;
        left = gone;
        remaining = r.walked.purges.valid.counts.keys ∙ gone one ∙ sym counted;
      })
