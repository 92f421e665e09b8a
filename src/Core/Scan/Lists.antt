-- ===== src/Core/Scan/Lists.antt =====
-- KEYS as all pages of SCAN.
use mathlib.Core.List.{append_assoc}
use aura_redis.Prelude.{
  ℕ, zero, suc, ◌+◌, ◌-◌, ◌≤◌, ◌<◌, ◌≡◌, ◌≢◌, refl, sym, ap, ◌∙◌, false, ◌||◌, if_elim, none, List,
  [], ◌∷◌, ◌++◌, length, leb, ltb, ◌==◌, if◌then◌else◌, arith, ℤ, pos,
}
use aura_redis.Bytes.{Bytes}
use aura_redis.Entry.{Entry}
use aura_redis.Table.Weight.{weigh_bucket}
use aura_redis.Core.{Core, hot, cold}
use aura_redis.Core.Keys.Purge.{Purges, Purges-refl, Purges-trans}
use aura_redis.Core.Invariant.{one, IsValid}
use aura_redis.Core.Scan.{Page, scan_slots, max_slots, ar_scan, scan_pages, ar_keys}
use aura_redis.Core.Scan.Sweeps.{alive, matching}
use aura_redis.Core.Scan.Places.{chain_of, bucket_at, scan_total_buckets_sum}
use aura_redis.Core.Scan.Buckets.{gathered, gathered-same}
use aura_redis.Core.Scan.Walks.{Walked, alive-append}
use aura_redis.Core.Scan.Sums.{weigh-gathered, skip-le}
use aura_redis.Core.Scan.Pages.{Scans, reach, found_keys, matching-append, scan_slots-Scans}

abbrev pub size : Core → ℕ
size c = length c.buckets + length c.cold_buckets

bucket_there : (c : Core) (j : ℕ) → j < size c → bucket_at c j ≢ none
unfolding bucket_at
bucket_there c j h = λ q. ground (arith, h, q)

gathered_split :
    (a b idx : ℕ) (c : Core) → gathered (a + b) idx c ≡ gathered a idx c ++ gathered b (idx + a) c
unfolding gathered
gathered_split zero b idx c =
    let none_before : 0 + b ≡ b = omega arith in
    let here : idx ≡ idx + 0 = omega arith in
    ap (λ n. gathered n idx c) none_before ∙ ap (λ i. gathered b i c) here
gathered_split (suc a) b idx c =
    let chain = chain_of (bucket_at c idx) in
    let counted : suc a + b ≡ suc (a + b) = omega arith in
    let next : suc idx + a ≡ idx + suc a = omega arith in
    ap (λ n. gathered n idx c) counted
    ∙ ap (λ g. chain ++ g) (gathered_split a b (suc idx) c)
    ∙ sym (append_assoc chain (gathered a (suc idx) c) (gathered b (suc idx + a) c))
    ∙ ap (λ i. (chain ++ gathered a (suc idx) c) ++ gathered b i c) next

no_entries : (es : List Entry) → weigh_bucket one es ≡ 0 → es ≡ []
unfolding weigh_bucket
no_entries [] h = refl
no_entries (e ∷ es) h = absurd (omega (arith, h))

module _ (now : ℕ) (pat : Bytes) where
  -- All keys from a bucket on.
  pub record Rest (cursor : ℕ) (c : Core) (r : Core × List Bytes) : Type 0 where
    pub purges : Purges now c r.0
    pub listed : r.1 ≡ found_keys now pat (size c - cursor) cursor c

  -- Without keys there is nothing to list.
  empty-found_keys :
      (cursor : ℕ) (c : Core)
      → IsValid c
      → c.nkeys ≡ 0
      → cursor < size c
      → found_keys now pat (size c - cursor) cursor c ≡ []
  unfolding alive matching
  empty-found_keys cursor c v h lt =
      let few : weigh_bucket one (gathered (size c - cursor) cursor c) ≡ 0 = omega (
        arith,
        weigh-gathered one (size c - cursor) cursor c (omega (arith, lt)),
        skip-le one cursor c.buckets,
        skip-le one (cursor - length c.buckets) c.cold_buckets,
        v.counts.keys,
        h,
      ) in
      ap (λ g. matching pat (alive now g)) (no_entries (gathered (size c - cursor) cursor c) few)

  found_split :
      (a b idx : ℕ) (c : Core)
      → found_keys now pat (a + b) idx c
        ≡ found_keys now pat a idx c ++ found_keys now pat b (idx + a) c
  found_split a b idx c =
      ap (λ g. matching pat (alive now g)) (gathered_split a b idx c)
      ∙ ap (matching pat) (alive-append now (gathered a idx c) (gathered b (idx + a) c))
      ∙ matching-append pat (alive now (gathered a idx c)) (alive now (gathered b (idx + a) c))

  found_beyond :
      (k b cursor next : ℕ) (c c1 : Core)
      → Walked now k cursor c c1
      → cursor + k ≡ next
      → found_keys now pat b next c1 ≡ found_keys now pat b next c
  found_beyond k b cursor next c c1 w e =
      ap (λ g. matching pat (alive now g))
        (gathered-same b next c c1 (λ j le. w.beyond j (omega (arith, e, le))))

  after_page : (ℕ → Core → Core × List Bytes) → Page → Core × List Bytes
  after_page more p =
      let (c1, ks) = more p.next_cursor p.core in
      if p.next_cursor == 0 then (p.core, p.keys) else (c1, p.keys ++ ks)

  page-Rest :
      (more : ℕ → Core → Core × List Bytes) (n cursor : ℕ) (c : Core) (p : Page)
      → 0 < n
      → IsValid c
      → cursor < size c
      → Scans now pat (size c) (reach (size c) n cursor) cursor c p
      → ((next : ℕ) (c1 : Core)
          → cursor < next
          → next < size c
          → size c1 ≡ size c
          → IsValid c1
          → Rest next c1 (more next c1))
      → Rest cursor c (after_page more p)
  unfolding after_page
  page-Rest more n cursor c p reads v lt s ih =
      let k = reach (size c) n cursor in
      let some_read : 0 < k = ground (arith, reads, lt) in
      let ks = (more p.next_cursor p.core).1 in
      if_elim (Rest cursor c) (p.next_cursor == 0) _ _
        (λ done.
          let whole : k ≡ size c - cursor = ground (arith, s.next, done, some_read, lt) in
          record {
            purges = s.walked.purges;
            listed = s.listed ∙ ap (λ n. found_keys now pat n cursor c) whole;
          })
        (λ goes_on.
          let at : cursor + k ≡ p.next_cursor = ground (arith, s.next, goes_on) in
          let ahead : p.next_cursor < size c = ground (arith, s.next, goes_on) in
          let same : size p.core ≡ size c =
            omega (arith, s.walked.lengths hot, s.walked.lengths cold) in
          let r =
            ih p.next_cursor p.core (omega (arith, at, some_read)) ahead same
              s.walked.purges.valid in
          let left : k + (size c - p.next_cursor) ≡ size c - cursor =
            omega (arith, at, ahead, lt) in
          record {
            purges = Purges-trans s.walked.purges r.purges;
            listed =
                ap (λ x. x ++ ks) s.listed
                ∙ ap (λ y. found_keys now pat k cursor c ++ y)
                    (r.listed
                      ∙ ap (λ z. found_keys now pat (z - p.next_cursor) p.next_cursor p.core) same
                      ∙ found_beyond k (size c - p.next_cursor) cursor p.next_cursor c p.core
                          s.walked at
                      ∙ ap (λ i. found_keys now pat (size c - p.next_cursor) i c) (sym at))
                ∙ sym (found_split k (size c - p.next_cursor) cursor c)
                ∙ ap (λ n. found_keys now pat n cursor c) left;
          })

  scan_pages-Rest :
      (fuel : ℕ) (count : ℤ) (cursor : ℕ) (c : Core)
      → 0 < max_slots now pat count
      → IsValid c
      → cursor < size c
      → size c - cursor ≤ fuel
      → Rest cursor c (scan_pages now pat fuel count cursor c)
  unfolding scan_pages ar_scan after_page
  scan_pages-Rest zero count cursor c some_slots v lt enough = absurd (omega (arith, lt, enough))
  scan_pages-Rest (suc fuel) count cursor c some_slots v lt enough =
      let all = scan_total_buckets_sum c v in
      let more = scan_pages now pat fuel count in
      rw all (
        if_elim (λ p. Rest cursor c (after_page more p)) (c.nkeys == 0 || leb (size c) cursor) _ _
          (λ stops.
            let empty : c.nkeys ≡ 0 = ground (arith, stops, lt) in
            record { purges = Purges-refl v; listed = sym (empty-found_keys cursor c v empty lt) })
          (λ reads.
            page-Rest more (max_slots now pat count) cursor c
              (scan_slots now pat (size c) (max_slots now pat count) cursor c) some_slots v lt
              (scan_slots-Scans now pat (size c) (max_slots now pat count) cursor c v lt
                (λ j le small. bucket_there c j small))
              (λ next c1 ahead inside same v1.
                scan_pages-Rest fuel count next c1 some_slots v1 (omega (arith, same, inside))
                  (omega (arith, same, ahead, enough)))))

  -- Where the invariant holds, KEYS lists the keys that match, of the entries that are not due, in the
  -- order of their buckets.
  pub keys-found : (c : Core) → IsValid c → Rest 0 c (ar_keys now pat c)
  unfolding ar_keys
  keys-found c v =
      let all = scan_total_buckets_sum c v in
      let nonempty : (size c == 0) ≡ false = ground (arith, v.shape.hot_pos) in
      let n = if ltb 10000 (size c) then 10000 else size c in
      let some_slots : 0 < max_slots now pat (pos n) = ground (arith, v.shape.hot_pos) in
      rw (all, nonempty)
        (scan_pages-Rest (size c) (pos n) 0 c some_slots v (omega (arith, v.shape.hot_pos))
          (omega arith))
