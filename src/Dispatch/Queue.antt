-- ===== src/Dispatch/Queue.antt =====
-- Commands sent inside MULTI.
use aura_redis.Prelude.{
  ℕ, suc, ◌+◌, ◌≤◌, ◌<◌, ◌≡◌, refl, ap, ◌∙◌, Bool, true, false, none, List, [], ◌∷◌, ◌++◌, length,
  length-append, replicate, leb, ltb, arith,
}
use aura_redis.Bytes.{Bytes}
use aura_redis.Dispatch.{
  cmd_eq, one_of, Reply, queued, Session, guard, multi_max, multi_argv, enqueue, run_each, guarded,
  dispatch,
}

-- The commands that are never queued.
abbrev pub is_transactional : Bytes → Bool
is_transactional cmd = one_of cmd ("watch" ∷ "unwatch" ∷ "multi" ∷ "discard" ∷ "exec" ∷ [])

-- A command that no guard refuses, that is no part of a transaction's frame, and that fits.
abbrev pub IsQueueable : {S : Type 0} → Session S → List Bytes → Type 0
IsQueueable s [] = ⊥
IsQueueable s (cmd ∷ args) =
    (guard cmd args s ≡ none) × (is_transactional cmd ≡ false) × (suc (length args) ≤ multi_argv)

abbrev pub AreQueueable : {S : Type 0} → Session S → List (List Bytes) → Type 0
AreQueueable s [] = Unit
AreQueueable s (argv ∷ more) = IsQueueable s argv × AreQueueable s more

-- `s` inside MULTI with the queue `qs` and the replies `rs`.
abbrev pub queuing : {S : Type 0} → Session S → List (List Bytes) → List Reply → Session S
queuing s qs rs = record s { in_multi = true; multi_q = qs; replies = rs }

pub append_assoc : {A : Type 0} (xs ys zs : List A) → (xs ++ ys) ++ zs ≡ xs ++ (ys ++ zs)
append_assoc [] ys zs = refl
append_assoc (x ∷ xs) ys zs = ap (λ l. x ∷ l) (append_assoc xs ys zs)

pub append_nil : {A : Type 0} (xs : List A) → xs ++ [] ≡ xs
append_nil [] = refl
append_nil (x ∷ xs) = ap (λ l. x ∷ l) (append_nil xs)

pub record IsPlain (cmd : Bytes) : Type 0 where
  pub no_watch : cmd_eq cmd "watch" ≡ false
  pub no_unwatch : cmd_eq cmd "unwatch" ≡ false
  pub no_multi : cmd_eq cmd "multi" ≡ false
  pub no_discard : cmd_eq cmd "discard" ≡ false
  pub no_exec : cmd_eq cmd "exec" ≡ false

pub is_transactional-IsPlain : (cmd : Bytes) → is_transactional cmd ≡ false → IsPlain cmd
unfolding one_of
is_transactional-IsPlain cmd h = record {
  no_watch = ground arith;
  no_unwatch = ground arith;
  no_multi = ground arith;
  no_discard = ground arith;
  no_exec = ground arith;
}

-- The guards do not look at the transaction.
pub guard-queuing :
    {S : Type 0} (s : Session S) (cmd : Bytes) (args : List Bytes) (qs : List (List Bytes))
    (rs : List Reply)
    → guard cmd args (queuing s qs rs) ≡ guard cmd args s
unfolding guard
guard-queuing s cmd args qs rs = refl

enqueue-room :
    {S : Type 0} (s : Session S) (argv : List Bytes) (qs : List (List Bytes)) (rs : List Reply)
    → length qs < multi_max
    → length argv ≤ multi_argv
    → enqueue argv (queuing s qs rs) ≡ queuing s (qs ++ (argv ∷ [])) (rs ++ (queued ∷ []))
unfolding enqueue
enqueue-room s argv qs rs room few =
    let space : leb multi_max (length qs) ≡ false = ground arith in
    let fits : ltb multi_argv (length argv) ≡ false = ground arith in rw (space, fits) refl

module _ {S : Type 0} (run : List Bytes → Session S → Session S × Bool) (depth : ℕ)
    (s : Session S) where
  queue_one :
      (argv : List Bytes) (qs : List (List Bytes)) (rs : List Reply)
      → IsQueueable s argv
      → length qs < multi_max
      → dispatch run (suc depth) argv (queuing s qs rs)
        ≡ (queuing s (qs ++ (argv ∷ [])) (rs ++ (queued ∷ [])), false)
  unfolding dispatch guarded
  queue_one [] qs rs h room = elim h [ ]
  queue_one (cmd ∷ args) qs rs (open_to, plain, few) room =
      let p = is_transactional-IsPlain cmd plain in
      let none_refuses = guard-queuing s cmd args qs rs ∙ open_to in
      ap (guarded run (dispatch run depth) cmd args (queuing s qs rs)) none_refuses
      ∙ rw (p.no_watch, p.no_unwatch, p.no_multi, p.no_discard, p.no_exec)
          (ap (λ x. (x, false)) (enqueue-room s (cmd ∷ args) qs rs room few))

  -- The commands are queued in order, each with its reply.
  pub queue_each :
      (cs more : List (List Bytes)) (qs : List (List Bytes)) (rs : List Reply)
      → AreQueueable s cs
      → length qs + length cs ≤ multi_max
      → run_each (dispatch run (suc depth)) (cs ++ more) (queuing s qs rs)
        ≡ run_each
            (dispatch run (suc depth))
            more
            (queuing s (qs ++ cs) (rs ++ replicate (length cs) queued))
  unfolding run_each
  queue_each [] more qs rs h room = rw (append_nil qs, append_nil rs) refl
  queue_each (c ∷ cs) more qs rs (h, hs) room = rw (queue_one c qs rs h (omega arith)) (
      queue_each cs more (qs ++ (c ∷ [])) (rs ++ (queued ∷ [])) hs
        (omega (arith, length-append qs (c ∷ [])))
      ∙ rw
          (
            append_assoc qs (c ∷ []) cs,
            append_assoc rs (queued ∷ []) (replicate (length cs) queued),
          )
          refl)
