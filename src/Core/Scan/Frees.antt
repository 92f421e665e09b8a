-- ===== src/Core/Scan/Frees.antt =====
-- What the freeing of one entry leaves of the buckets of both tiers.
use aura_redis.Prelude.{
  ℕ, ◌≤◌, ◌<◌, ◌≡◌, ◌≢◌, refl, ap, ◌∙◌, false, Bool-cases, inl, inr, some, [], length, get_or,
  get_or-set_ne, set, ◌==◌, arith, ==_iff,
}
use aura_redis.Bytes.{Bytes}
use aura_redis.Entry.{Entry}
use aura_redis.Table.{Table, find_in_table, slot, unlink_entry, unlink_bucket}
use aura_redis.Table.Weight.{weigh, weigh_bucket, weigh-set, find-pos}
use aura_redis.Table.Search.{tally, weigh_bucket-le}
use aura_redis.Table.Placed.{IsPlaced}
use aura_redis.Table.Member.{Member, tally-Member}
use aura_redis.Core.{Core, Tier, hot, cold}
use aura_redis.Core.Free.{ar_entry_free_ex, table}
use aura_redis.Core.Free.Keeps.{unlink-length}
use aura_redis.Core.Find.{bump_expired}

-- The two orders in which the code counts and frees an entry that is due.
pub free-bump_expired :
    (tier : Tier) (e : Entry) (c : Core)
    → ar_entry_free_ex tier e (bump_expired c) ≡ bump_expired (ar_entry_free_ex tier e c)
unfolding ar_entry_free_ex bump_expired
free-bump_expired tier e c = refl

-- An entry stands in the bucket of its key.
pub slot-Member :
    (e : Entry) (t : Table) (i : ℕ)
    → Member e (get_or t i [])
    → i < length t
    → weigh (tally e.key) t ≤ 1
    → IsPlaced t
    → slot e.key t ≡ i
unfolding weigh_bucket
slot-Member e t i h lt once p = elim (Bool-cases (slot e.key t == i)) [
  | inl same ↦ (==_iff _ _).0 same
  | inr other ↦
      let s : ℕ = slot e.key t in
      let ne : i ≢ s = λ q. ground (arith, q, other) in
      let cleared = weigh-set (tally e.key) t i [] lt in
      let own = weigh_bucket-le (tally e.key) (set t i []) s in
      let kept = ap (weigh_bucket (tally e.key)) (get_or-set_ne t i s [] [] ne) in
      absurd (omega (arith, cleared, own, kept, p.at e.key, tally-Member e (get_or t i []) h))
]

table-free :
    (tier : Tier) (e : Entry) (c : Core)
    → find_in_table e.key (table tier c.dict) ≡ some e
    → (tier' : Tier)
    → table tier' (ar_entry_free_ex tier e c).dict ≡ elim tier [
      | hot ↦ elim tier' [ hot ↦ unlink_entry e.key c.buckets | cold ↦ c.cold_buckets ]
      | cold ↦ elim tier' [ hot ↦ c.buckets | cold ↦ unlink_entry e.key c.cold_buckets ]
    ]
unfolding ar_entry_free_ex
table-free hot e c f hot = refl
table-free hot e c f cold = refl
table-free cold e c f hot =
    let pos = find-pos e.key c.cold_buckets e f in
    let there : (length c.cold_buckets == 0) ≡ false = ground arith in rw there refl
table-free cold e c f cold =
    let pos = find-pos e.key c.cold_buckets e f in
    let there : (length c.cold_buckets == 0) ≡ false = ground arith in rw there refl

pub lengths-free :
    (tier : Tier) (e : Entry) (c : Core)
    → find_in_table e.key (table tier c.dict) ≡ some e
    → (tier' : Tier)
    → length (table tier' (ar_entry_free_ex tier e c).dict) ≡ length (table tier' c.dict)
lengths-free hot e c f hot =
    ap length (table-free hot e c f hot) ∙ unlink-length e c e.key c.buckets
lengths-free hot e c f cold = ap length (table-free hot e c f cold)
lengths-free cold e c f hot = ap length (table-free cold e c f hot)
lengths-free cold e c f cold =
    ap length (table-free cold e c f cold) ∙ unlink-length e c e.key c.cold_buckets

-- The bucket `i` of a tier is another than the bucket `j` of a tier.
abbrev pub Apart : Tier → ℕ → Tier → ℕ → Type 0
Apart hot i hot j = i ≢ j
Apart cold i cold j = i ≢ j
Apart _ i _ j = Unit

unlink_elsewhere :
    (key : Bytes) (t : Table) (j : ℕ)
    → slot key t ≢ j
    → get_or (unlink_entry key t) j [] ≡ get_or t j []
unfolding unlink_entry
unlink_elsewhere key t j ne =
    get_or-set_ne t (slot key t) j (unlink_bucket key (get_or t (slot key t) [])) [] ne

pub elsewhere-free :
    (tier : Tier) (e : Entry) (c : Core)
    → find_in_table e.key (table tier c.dict) ≡ some e
    → (tier' : Tier) (j : ℕ) → Apart tier (slot e.key (table tier c.dict)) tier' j
    → get_or (table tier' (ar_entry_free_ex tier e c).dict) j [] ≡ get_or (table tier' c.dict) j []
elsewhere-free hot e c f hot j ne =
    ap (λ t. get_or t j []) (table-free hot e c f hot) ∙ unlink_elsewhere e.key c.buckets j ne
elsewhere-free hot e c f cold j ne = ap (λ t. get_or t j []) (table-free hot e c f cold)
elsewhere-free cold e c f hot j ne = ap (λ t. get_or t j []) (table-free cold e c f hot)
elsewhere-free cold e c f cold j ne =
    ap (λ t. get_or t j []) (table-free cold e c f cold)
    ∙ unlink_elsewhere e.key c.cold_buckets j ne
