-- ===== src/Core/Strings/Keeps.antt =====
-- About `get_ptr`, which GET runs, and `ar_get_bin`.
use aura_redis.Prelude.{
  ℕ, ◌+◌, ◌^◌, ◌<◌, ◌≡◌, refl, ap, ◌∙◌, Bool, true, false, not, ◌&&◌, Option, none, some, length,
  arith, if◌then◌else◌, ◌==◌, leb,
}
use aura_redis.Bytes.{Bytes, bytes_eq}
use aura_redis.Entry.{Value, str, hash_obj, list_obj, zset_obj, Entry, entry_bytes, sizeof_entry}
use aura_redis.Table.{find_in_table}
use aura_redis.Core.{Core, Tier}
use aura_redis.Core.Free.{table}
use aura_redis.Core.Find.{ar_find_entry_ex}
use aura_redis.Core.Find.Keeps.{Located, find-Finds, live, entry_of}
use aura_redis.Core.Tiers.{ar_touch_get}
use aura_redis.Core.Set.{locate, ar_entry_set_ex}
use aura_redis.Core.Set.Steps.{Content, content, view}
use aura_redis.Core.Set.Touches.{
  Same, Same-refl, Same-trans, Same-on_get, locate-Located, touch_get-Same,
}
use aura_redis.Core.Set.Keeps.{set-Sets}
use aura_redis.Core.Strings.{
  run_on_get, call_on_get, count_get, count_hit, get_value, get_found, ar_get_bin, GetReply, hit,
  miss, wrong_kind, ptr_value, ptr_found, get_ptr,
}
use aura_redis.Core.Invariant.{total, deadline, IsValid, lookup}

-- The string that `ar_get_bin` has to reply for what a key has.
abbrev pub shown_string : Value → Option Bytes
shown_string (str v) = some v
shown_string _ = none

abbrev pub shown : ℕ → Option Content → Option Bytes
shown now none = none
shown now (some x) =
    if not (x.expire_at == 0) && leb x.expire_at now then none else shown_string x.value

-- What GET has to reply: the string, a miss for nothing live, WRONGTYPE for another type.
abbrev pub got_value : Value → GetReply
got_value (str v) = hit v
got_value _ = wrong_kind

abbrev pub got : ℕ → Option Content → GetReply
got now none = miss
got now (some x) = if not (x.expire_at == 0) && leb x.expire_at now then miss else got_value x.value

-- What a read promises: its reply, and that no live key changes.
pub record Reads {ℓ} {A : Type ℓ} (now : ℕ) (key : Bytes) (reply : A) (c : Core) (r : Core × A)
    : Type ℓ where
  pub valid : IsValid r.0
  pub replies : r.1 ≡ reply
  pub at_key : view key r.0 ≡ content (live now (lookup key c.dict))
  pub others : (k : Bytes) → bytes_eq key k ≡ false → view k r.0 ≡ view k c

run_on_get-Same :
    (c : Core) (o : Option (Tier × Entry)) → Located c o → IsValid c → Same c (run_on_get c o)
run_on_get-Same c none h v = Same-refl v
run_on_get-Same c (some (tier, e)) h v = Same-on_get tier e c h v c.evict

call_on_get-Same : (key : Bytes) (c : Core) → IsValid c → Same c (call_on_get key c)
unfolding call_on_get
call_on_get-Same key c v = run_on_get-Same c (locate key c) (locate-Located key c) v

count_hit-Same :
    (rand : ℕ → ℕ) (found : Bool) (c : Core) → IsValid c → Same c (count_hit rand found c)
unfolding count_hit
count_hit-Same rand found c v = record {
  valid = record { shape = v.shape; counts = v.counts; accounts = v.accounts };
  views = λ k. refl;
  same_knobs = refl;
}

module _ (rand : ℕ → ℕ) (key : Bytes) where
  hit-Same :
      (tier : Tier) (e : Entry) (c : Core)
      → find_in_table e.key (table tier c.dict) ≡ some e
      → IsValid c
      → Same c (call_on_get key (ar_touch_get rand tier e (count_hit rand true c)))
  hit-Same tier e c f v =
      let n = count_hit-Same rand true c v in
      let t = touch_get-Same rand tier e (count_hit rand true c) (unfold count_hit in f) n.valid in
      Same-trans n (
        Same-trans t
          (call_on_get-Same key (ar_touch_get rand tier e (count_hit rand true c)) t.valid))

  get_value-Same :
      (x : Value) (tier : Tier) (e : Entry) (c : Core)
      → find_in_table e.key (table tier c.dict) ≡ some e
      → IsValid c
      → Same c (get_value rand key x tier e c).0
  unfolding get_value
  get_value-Same (str s) tier e c f v = hit-Same tier e c f v
  get_value-Same (hash_obj h) tier e c f v = count_hit-Same rand false c v
  get_value-Same (list_obj l) tier e c f v = count_hit-Same rand false c v
  get_value-Same (zset_obj z) tier e c f v = count_hit-Same rand false c v

  get_value-reply :
      (x : Value) (tier : Tier) (e : Entry) (c : Core)
      → (get_value rand key x tier e c).1 ≡ shown_string x
  unfolding get_value
  get_value-reply (str s) tier e c = refl
  get_value-reply (hash_obj h) tier e c = refl
  get_value-reply (list_obj l) tier e c = refl
  get_value-reply (zset_obj z) tier e c = refl

  get_found-Same :
      (r : Core × Option (Tier × Entry))
      → Located r.0 r.1
      → IsValid r.0
      → Same r.0 (get_found rand key r).0
  unfolding get_found
  get_found-Same (c, none) l v = count_hit-Same rand false c v
  get_found-Same (c, some (tier, e)) l v = get_value-Same e.value tier e c l v

  get_found-reply :
      (now : ℕ) (r : Core × Option (Tier × Entry)) (o : Option Entry)
      → entry_of r.1 ≡ live now o
      → (get_found rand key r).1 ≡ shown now (content o)
  unfolding get_found
  get_found-reply now (c, none) none h = refl
  get_found-reply now (c, none) (some e) h = ground arith
  get_found-reply now (c, some (tier, x)) none h = ground arith
  get_found-reply now (c, some (tier, x)) (some e) h =
      ground (arith, get_value-reply x.value tier x c)

  get_bin-Reads :
      (now : ℕ) (c : Core)
      → IsValid c
      → Reads now key (shown now (view key c)) c (ar_get_bin rand now key c)
  unfolding ar_get_bin
  get_bin-Reads now c v =
      let s =
        find-Finds now key (count_get c)
          (record { shape = v.shape; counts = v.counts; accounts = v.accounts }) in
      let t = get_found-Same (ar_find_entry_ex now key (count_get c)) s.located s.valid in
      record {
        valid = t.valid;
        replies =
            get_found-reply now (ar_find_entry_ex now key (count_get c)) (lookup key c.dict)
              s.result;
        at_key = t.views key ∙ ap content s.stored;
        others = λ k ne. t.views k ∙ ap content (s.others k ne);
      }

  ptr_value-Same :
      (x : Value) (tier : Tier) (e : Entry) (c : Core)
      → find_in_table e.key (table tier c.dict) ≡ some e
      → IsValid c
      → Same c (ptr_value rand key x tier e c).0
  unfolding ptr_value
  ptr_value-Same (str s) tier e c f v = hit-Same tier e c f v
  ptr_value-Same (hash_obj h) tier e c f v = Same-refl v
  ptr_value-Same (list_obj l) tier e c f v = Same-refl v
  ptr_value-Same (zset_obj z) tier e c f v = Same-refl v

  ptr_value-reply :
      (x : Value) (tier : Tier) (e : Entry) (c : Core)
      → (ptr_value rand key x tier e c).1 ≡ got_value x
  unfolding ptr_value
  ptr_value-reply (str s) tier e c = refl
  ptr_value-reply (hash_obj h) tier e c = refl
  ptr_value-reply (list_obj l) tier e c = refl
  ptr_value-reply (zset_obj z) tier e c = refl

  ptr_found-Same :
      (r : Core × Option (Tier × Entry))
      → Located r.0 r.1
      → IsValid r.0
      → Same r.0 (ptr_found rand key r).0
  unfolding ptr_found
  ptr_found-Same (c, none) l v = count_hit-Same rand false c v
  ptr_found-Same (c, some (tier, e)) l v = ptr_value-Same e.value tier e c l v

  ptr_found-reply :
      (now : ℕ) (r : Core × Option (Tier × Entry)) (o : Option Entry)
      → entry_of r.1 ≡ live now o
      → (ptr_found rand key r).1 ≡ got now (content o)
  unfolding ptr_found
  ptr_found-reply now (c, none) none h = refl
  ptr_found-reply now (c, none) (some e) h = ground arith
  ptr_found-reply now (c, some (tier, x)) none h = ground arith
  ptr_found-reply now (c, some (tier, x)) (some e) h =
      ground (arith, ptr_value-reply x.value tier x c)

  -- Where the invariant holds, GET (`get_ptr`) replies the live string of its key, a miss for a due
  -- or missing key and WRONGTYPE for another type; a due entry of the key is dropped, no key
  -- changes its value or deadline otherwise, and the invariant is kept.
  pub get_ptr-Reads :
      (now : ℕ) (c : Core)
      → IsValid c
      → Reads now key (got now (view key c)) c (get_ptr rand now key c)
  unfolding get_ptr
  get_ptr-Reads now c v =
      let s =
        find-Finds now key (count_get c)
          (record { shape = v.shape; counts = v.counts; accounts = v.accounts }) in
      let t = ptr_found-Same (ar_find_entry_ex now key (count_get c)) s.located s.valid in
      record {
        valid = t.valid;
        replies =
            ptr_found-reply now (ar_find_entry_ex now key (count_get c)) (lookup key c.dict)
              s.result;
        at_key = t.views key ∙ ap content s.stored;
        others = λ k ne. t.views k ∙ ap content (s.others k ne);
      }

-- Where the invariant holds, `maxmemory` is 0 and the sums of bytes and deadlines stay below 2^64,
-- a GET (`get_ptr`) at any time after a SET replies the value that was set, and a miss once its
-- deadline has come.
pub get-set :
    (rand : ℕ → ℕ) (now later : ℕ) (key val : Bytes) (at : ℕ) (c : Core)
    → IsValid c
    → c.maxmemory ≡ 0
    → total entry_bytes c.dict + (length key + length val + sizeof_entry) < 2 ^ 64
    → total deadline c.dict + at < 2 ^ 64
    → (get_ptr rand later key (ar_entry_set_ex rand now key val at c)).1
      ≡ (if not (at == 0) && leb at later then miss else hit val)
get-set rand now later key val at c v free h d =
    let s = set-Sets rand now key val at c v h d in
    let g = get_ptr-Reads rand key later (ar_entry_set_ex rand now key val at c) s.valid in
    g.replies ∙ ap (got later) (s.calm_key free)
