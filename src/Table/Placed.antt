-- ===== src/Table/Placed.antt =====
-- The placement of entries in the buckets of their keys, under the table helpers.
use aura_redis.Prelude.{
  ◌<◌, ◌≡◌, true, false, some, List, [], ◌∷◌, arith, length, get_or, set, length-set,
  get_or-set_self, get_or-set_ne, inl, inr, Bool-cases, ==_iff, ◌==◌,
}
use aura_redis.Bytes.{Bytes, bytes_eq, bytes_eq_iff, eq_of_bytes_eq, bucket_index-lt}
use aura_redis.Entry.{Entry}
use aura_redis.Table.{Table, find_in_table, slot, unlink_entry, store_entry, link_entry}
use aura_redis.Table.Weight.{
  weigh_bucket, weigh, weigh-set, weigh-unlink_bucket, weigh-store_bucket, find-pos, find-bucket,
}
use aura_redis.Table.Search.{tally}

pub record IsPlaced (t : Table) : Type 0 where
  pub at : (k : Bytes) → weigh (tally k) t ≡ weigh_bucket (tally k) (get_or t (slot k t) [])

-- A write to the slot of `key` that changes only how often `key` stands there.
set-IsPlaced :
    (key : Bytes) (t : Table) (es : List Entry)
    → 0 < length t
    → ((k : Bytes)
        → bytes_eq key k ≡ false
        → weigh_bucket (tally k) es ≡ weigh_bucket (tally k) (get_or t (slot key t) []))
    → IsPlaced t
    → IsPlaced (set t (slot key t) es)
set-IsPlaced key t es h others p = record { at = placed }
  where
    placed :
        (k : Bytes)
        → weigh (tally k) (set t (slot key t) es)
          ≡ weigh_bucket
              (tally k)
              (get_or (set t (slot key t) es) (slot k (set t (slot key t) es)) [])
    placed k =
        let bound = bucket_index-lt key (length t) h in
        rw (length-set t (slot key t) es) (elim (Bool-cases (bytes_eq key k)) [
          | inl same ↦
              let q : key ≡ k = eq_of_bytes_eq key k same in
              rw (← q) (
                rw (get_or-set_self t (slot key t) es [] bound)
                  (omega (arith, weigh-set (tally key) t (slot key t) es bound, p.at key)))
          | inr other ↦ elim (Bool-cases (slot key t == slot k t)) [
            | inl same ↦
                let q : slot key t ≡ slot k t = (==_iff _ _).0 same in
                rw (← q) (
                  rw (get_or-set_self t (slot key t) es [] bound) (
                    ground (
                      arith,
                      q,
                      weigh-set (tally k) t (slot key t) es bound,
                      p.at k,
                      others k other,
                    )))
            | inr apart ↦
                rw (get_or-set_ne t (slot key t) (slot k t) es [] (λ q. ground arith)) (
                  omega
                    (arith, weigh-set (tally k) t (slot key t) es bound, p.at k, others k other))
          ]
        ])

pub link-IsPlaced : (e : Entry) (t : Table) → 0 < length t → IsPlaced t → IsPlaced (link_entry e t)
unfolding link_entry weigh_bucket
link-IsPlaced e t h p =
    set-IsPlaced e.key t (e ∷ get_or t (slot e.key t) []) h (λ k ne. rw ne (omega arith)) p

pub unlink-IsPlaced :
    (key : Bytes) (t : Table) (e : Entry)
    → find_in_table key t ≡ some e
    → bytes_eq e.key key ≡ true
    → IsPlaced t
    → IsPlaced (unlink_entry key t)
unfolding unlink_entry
unlink-IsPlaced key t e found k p =
    set-IsPlaced key t _ (find-pos key t e found)
      (λ j ne. ground (
        arith,
        weigh-unlink_bucket (tally j) key (get_or t (slot key t) []) e (find-bucket key t e found),
        bytes_eq_iff e.key key,
        bytes_eq_iff e.key j,
        bytes_eq_iff key j,
      ))
      p

pub store-IsPlaced :
    (key : Bytes) (e' : Entry) (t : Table) (e : Entry)
    → find_in_table key t ≡ some e
    → bytes_eq e.key key ≡ true
    → bytes_eq e'.key key ≡ true
    → IsPlaced t
    → IsPlaced (store_entry key e' t)
unfolding store_entry
store-IsPlaced key e' t e found k k' p =
    set-IsPlaced key t _ (find-pos key t e found)
      (λ j ne. ground (
        arith,
        weigh-store_bucket (tally j) key e' (get_or t (slot key t) []) e
            (find-bucket key t e found),
        bytes_eq_iff e.key key,
        bytes_eq_iff e'.key key,
        bytes_eq_iff e.key j,
        bytes_eq_iff e'.key j,
        bytes_eq_iff key j,
      ))
      p
