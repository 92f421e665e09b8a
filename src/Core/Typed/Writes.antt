-- ===== src/Core/Typed/Writes.antt =====
-- About the write of a changed object to the entry that holds it.
use aura_redis.Prelude.{
  ℕ, ◌+◌, ◌-◌, ◌^◌, ◌≤◌, ◌<◌, ◌≡◌, refl, if_elim, some, leb, arith, add64, sat_sub, if◌then◌else◌,
}
use aura_redis.Entry.{ArType, type_eq, Value, type_of, Entry, entry_bytes, payload_bytes}
use aura_redis.Table.{find_in_table}
use aura_redis.Table.Weight.{weigh_mono}
use aura_redis.Core.{Core, Dict, Tier}
use aura_redis.Core.Counters.{
  ar_mem_add, ar_mem_sub, put, type_bytes_add, type_bytes_sub, ar_type_stats_note_bigkey,
}
use aura_redis.Core.Free.{table}
use aura_redis.Core.Store.{store_at}
use aura_redis.Core.Store.Keeps.{le-total, total-store}
use aura_redis.Core.Set.Steps.{content, Rewrites, store-Rewrites}
use aura_redis.Core.Typed.{Kind, resize}
use aura_redis.Core.Invariant.{
  total, has_ttl, deadline, is_pinned, of_type, bytes_of_type, Accounted, IsValid,
}

-- What a type of values promises: its objects carry its tag, and it reads back what it wraps.
pub record IsKind {A : Type 0} (k : Kind A) : Type 0 where
  pub tagged : (a : A) → type_of (k.wrap a) ≡ k.tag
  pub wrapped : (x : Value) (a : A) → k.unwrap x ≡ some a → x ≡ k.wrap a
  pub unwraps : (a : A) → k.unwrap (k.wrap a) ≡ some a

-- The bytes of one type are some of all bytes.
pub type_le : (t : ArType) (d : Dict) → total (bytes_of_type t) d ≤ total entry_bytes d
type_le t d =
    let part : (e : Entry) → bytes_of_type t e ≤ entry_bytes e = λ e. ground arith in
    omega (
      arith,
      weigh_mono (bytes_of_type t) entry_bytes part d.buckets,
      weigh_mono (bytes_of_type t) entry_bytes part d.cold_buckets,
    )

module _ (f s s' : ArType → ℕ) (same : (u : ArType) → f u ≡ s u) where
  grown_bytes :
      (a b : ℕ) (ty t : ArType)
      → a ≤ b
      → s ty + b < 2 ^ 64
      → s' t + (if type_eq ty t then a else 0) ≡ s t + (if type_eq ty t then b else 0)
      → put ty (add64 (f ty) (b - a)) f t ≡ s' t
  grown_bytes a b ty t le h d = ground (arith, same ty, same t)

  shrunk_bytes :
      (a b : ℕ) (ty t : ArType)
      → b ≤ a
      → a ≤ s ty
      → s' t + (if type_eq ty t then a else 0) ≡ s t + (if type_eq ty t then b else 0)
      → put ty (sat_sub (f ty) (a - b)) f t ≡ s' t
  shrunk_bytes a b ty t le h d = ground (arith, same ty, same t)

module _ (tier : Tier) (e : Entry) (x : Value) (c : Core)
    (f : find_in_table e.key (table tier c.dict) ≡ some e)
    (same : type_of x ≡ type_of e.value) where
  abbrev e1 : Entry
  e1 = record e { value = x; last_access = c.clock + 1 }

  abbrev old_pay : ℕ
  old_pay = payload_bytes e.value

  abbrev new_pay : ℕ
  new_pay = payload_bytes x

  abbrev written : Core → Core
  written c1 = store_at tier e1 (record c1 { clock = c.clock + 1 })

  sum : (m : Entry → ℕ) → total m (store_at tier e1 c).dict + m e ≡ total m c.dict + m e1
  sum m = total-store tier e e1 c f refl m

  sizes : entry_bytes e1 + old_pay ≡ entry_bytes e + new_pay
  unfolding entry_bytes
  sizes = omega arith

  type_sizes :
      (t : ArType)
      → bytes_of_type t e1 + (if type_eq (type_of e.value) t then old_pay else 0)
        ≡ bytes_of_type t e + (if type_eq (type_of e.value) t then new_pay else 0)
  type_sizes t = rw same (ground (arith, sizes))

  type_counts : (t : ArType) → of_type t e1 ≡ of_type t e
  type_counts t = rw same refl

  abbrev grown : Core
  grown =
      ar_type_stats_note_bigkey (type_of e.value) new_pay
        (type_bytes_add (type_of e.value) (new_pay - old_pay) (ar_mem_add (new_pay - old_pay) c))

  abbrev shrunk : Core
  shrunk = type_bytes_sub (type_of e.value) (old_pay - new_pay) (ar_mem_sub (old_pay - new_pay) c)

  low : (m : Entry → ℕ) → m e ≤ total m c.dict
  low m = le-total m tier e c f

  pay_le : old_pay ≤ entry_bytes e
  unfolding entry_bytes
  pay_le = omega arith

  grown-Accounted :
      old_pay ≤ new_pay
      → total entry_bytes c.dict + new_pay < 2 ^ 64
      → Accounted c.dict c.usage
      → Accounted (written grown).dict (written grown).usage
  unfolding ar_type_stats_note_bigkey type_bytes_add ar_mem_add store_at
  grown-Accounted le h a = record {
    memory = ground (arith, sum entry_bytes, sizes, low entry_bytes, pay_le, a.memory, le, h);
    ttl_keys = omega (arith, sum has_ttl, a.ttl_keys);
    ttl_sum = omega (arith, sum deadline, a.ttl_sum);
    pins = omega (arith, sum is_pinned, a.pins);
    type_keys = λ t. omega (arith, sum (of_type t), a.type_keys t, type_counts t);
    type_memory = λ t.
        grown_bytes c.type_bytes (λ u. total (bytes_of_type u) c.dict)
          (λ u. total (bytes_of_type u) (store_at tier e1 c).dict) a.type_memory old_pay new_pay
          (type_of e.value) t le (omega (arith, h, type_le (type_of e.value) c.dict))
          (omega (arith, sum (bytes_of_type t), type_sizes t));
  }

  own_bytes : old_pay ≤ total (bytes_of_type (type_of e.value)) c.dict
  own_bytes = ground (arith, low (bytes_of_type (type_of e.value)), pay_le)

  shrunk-Accounted :
      new_pay ≤ old_pay
      → Accounted c.dict c.usage
      → Accounted (written shrunk).dict (written shrunk).usage
  unfolding type_bytes_sub ar_mem_sub store_at
  shrunk-Accounted le a = record {
    memory = ground (arith, sum entry_bytes, sizes, low entry_bytes, pay_le, a.memory, le);
    ttl_keys = omega (arith, sum has_ttl, a.ttl_keys);
    ttl_sum = omega (arith, sum deadline, a.ttl_sum);
    pins = omega (arith, sum is_pinned, a.pins);
    type_keys = λ t. omega (arith, sum (of_type t), a.type_keys t, type_counts t);
    type_memory = λ t.
        shrunk_bytes c.type_bytes (λ u. total (bytes_of_type u) c.dict)
          (λ u. total (bytes_of_type u) (store_at tier e1 c).dict) a.type_memory old_pay new_pay
          (type_of e.value) t le own_bytes (omega (arith, sum (bytes_of_type t), type_sizes t));
  }

  -- A value of the same type takes the place of the old one, and the sums follow.
  pub resize-Rewrites :
      total entry_bytes c.dict + new_pay < 2 ^ 64
      → IsValid c
      → Rewrites e.key (content (some e1)) c (written (resize (type_of e.value) old_pay new_pay c))
  unfolding resize
  resize-Rewrites h v =
      if_elim (λ c1. Rewrites e.key (content (some e1)) c (written c1)) (leb old_pay new_pay) grown
        shrunk
        (λ le.
          store-Rewrites tier e e1 c (written grown) f refl
            (unfold ar_type_stats_note_bigkey type_bytes_add ar_mem_add store_at in refl)
            (unfold ar_type_stats_note_bigkey type_bytes_add ar_mem_add store_at in refl)
            (grown-Accounted (ground (arith, le)) h v.accounts) v)
        (λ gt.
          store-Rewrites tier e e1 c (written shrunk) f refl
            (unfold type_bytes_sub ar_mem_sub store_at in refl)
            (unfold type_bytes_sub ar_mem_sub store_at in refl)
            (shrunk-Accounted (ground (arith, gt)) v.accounts) v)
