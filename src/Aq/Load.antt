-- ===== src/Aq/Load.antt =====
-- Where a transfer is: how often it is queued, running or signalled, and what the operations on one
-- queue do to that.
use android_sdk_custom.Prelude.{
  ℕ, ◌+◌, ◌≡◌, refl, sym, ◌∙◌, List, [], ◌∷◌, ◌++◌, some, Bool, inl, inr, arith, ◌==◌,
  if◌then◌else◌, Bool-cases, Option-cases, ap,
}
use mathlib.Core.Path.{subst}
use android_sdk_custom.Libusb.{LibusbError, is_success}
use android_sdk_custom.Aq.State.{
  Transfer, Worker, stopped, starting, executing, returned, Queue, State, fresh, find, replace,
  enqueue, take_next, unlink,
}
use android_sdk_custom.Aq.Handlers.{lookup_or_add, submit, cancel_scan, Place, queued}
use android_sdk_custom.Aq.Steps.{Action, submits, step}
use android_sdk_custom.Aq.Lookup.{find-key, total, total-replace, lookup_or_add_cases}
use android_sdk_custom.Aq.Cases.{cancel_scan_cases}
use android_sdk_custom.Aq.Fit.{WorkerFits}

abbrev pub one : ℕ → ℕ → ℕ
one p t = if p == t then 1 else 0

-- How often the transfer is in a chain of items.
unfoldable pub count : ℕ → List Transfer → ℕ
count t [] = 0
count t (x ∷ xs) = one x.ptr t + count t xs

-- How often its completion was signalled.
unfoldable pub count_signals : ℕ → List ℕ → ℕ
count_signals t [] = 0
count_signals t (p ∷ ps) = one p t + count_signals t ps

-- Whether the worker still has to see to the transfer's completion: a successful submit has
-- signalled it already.
unfoldable pub pending : ℕ → Worker → ℕ
pending t stopped = 0
pending t starting = 0
pending t (executing it) = one it.ptr t
pending t (returned it err) = if is_success err then 0 else one it.ptr t

unfoldable pub queue_load : ℕ → Queue → ℕ
queue_load t q = count t q.items + pending t q.worker

-- Queued, running or signalled.
unfoldable pub load : ℕ → State → ℕ
load t s = total (queue_load t) s.queues + count_signals t s.signals

-- 1 for a submit of the transfer that succeeds, 0 for all else.
unfoldable pub accepted : ℕ → Action → State → ℕ
accepted t (submits env it) s = if is_success (submit env it s).1 then one it.ptr t else 0
accepted t _ s = 0

-- The submits of the transfer that succeed along a run.
unfoldable pub accepts : ℕ → List Action → State → ℕ
accepts t [] s = 0
accepts t (a ∷ actions) s = accepted t a s + accepts t actions (step a s)

count-append : (t : ℕ) (xs ys : List Transfer) → count t (xs ++ ys) ≡ count t xs + count t ys
unfolding count
count-append t [] ys = omega arith
count-append t (x ∷ xs) ys = omega (arith, count-append t xs ys)

unlink-count :
    (t p : ℕ) (xs ys : List Transfer) → unlink p xs ≡ some ys → count t xs ≡ count t ys + one p t
unfolding count unlink
unlink-count t p [] ys u = cc
unlink-count t p (x ∷ xs) ys u = elim (Bool-cases (x.ptr == p)) [
  | inl b ↦ ground arith
  | inr b ↦ elim (Option-cases (unlink p xs)) [
    | inl n ↦ ground arith
    | inr (zs, e) ↦ ground (arith, unlink-count t p xs zs e)
  ]
]

pub enqueue-load :
    (t : ℕ) (created : Bool) (it : Transfer) (w : Worker) (q : Queue)
    → q.worker ≡ w
    → WorkerFits w q
    → queue_load t (enqueue created it q).0
      ≡ queue_load t q + (if is_success (enqueue created it q).1 then one it.ptr t else 0)
unfolding queue_load pending count enqueue
enqueue-load t created it stopped q e f = ground (arith, count-append t q.items (it ∷ []))
enqueue-load t created it _ q e f = ground (arith, count-append t q.items (it ∷ []))

pub take_next-load : (t : ℕ) (q : Queue) → queue_load t (take_next q) ≡ count t q.items
unfolding queue_load take_next count pending
take_next-load t q = ground arith

pub idle-load :
    (t : ℕ) (q : Queue) (w : Worker)
    → q.worker ≡ w
    → w ≡ starting
    → queue_load t q ≡ count t q.items
unfolding queue_load pending
idle-load t q w is e = ground arith

pub returned-load :
    (t : ℕ) (q : Queue) (it : Transfer) (err : LibusbError)
    → q.worker ≡ returned it err
    → queue_load t q ≡ count t q.items + (if is_success err then 0 else one it.ptr t)
unfolding queue_load pending
returned-load t q it err is = ground arith

pub executing-load :
    (t : ℕ) (q : Queue) (it : Transfer)
    → q.worker ≡ executing it
    → queue_load t q ≡ count t q.items + one it.ptr t
unfolding queue_load pending
executing-load t q it is = ground arith

unfoldable pub place_load : ℕ → ℕ → Place → ℕ
place_load t p queued = one p t
place_load t p _ = 0

pub cancel_scan-load :
    (t p : ℕ) (qs : List Queue)
    → total (queue_load t) qs
      ≡ total (queue_load t) (cancel_scan p qs).0 + place_load t p (cancel_scan p qs).1
unfolding cancel_scan total place_load
cancel_scan-load t p [] = refl
cancel_scan-load t p (q ∷ qs) =
    cancel_scan_cases
      (λ r.
        queue_load t q + total (queue_load t) qs ≡ total (queue_load t) r.0 + place_load t p r.1)
      p q qs (λ items u. unfold queue_load in omega (arith, unlink-count t p q.items items u))
      (λ u c. unfold queue_load in omega arith) (λ u c. omega arith)
      (λ u c. omega (arith, cancel_scan-load t p qs))

-- A queue that is replaced by one with as much, or with one transfer more or less.
pub moved :
    (t : ℕ) (h e : ℕ) (q r : Queue) (qs : List Queue)
    → find h e qs ≡ some r
    → q.handle ≡ r.handle
    → q.ep ≡ r.ep
    → total (queue_load t) (replace q qs) + queue_load t r
      ≡ total (queue_load t) qs + queue_load t q
moved t h e q r qs f a b =
    let k = find-key h e qs r f in
    total-replace (queue_load t) q r qs (
      subst (λ x. find x q.ep qs ≡ some r) (sym (a ∙ k.0))
        (subst (λ x. find h x qs ≡ some r) (sym (b ∙ k.1)) f))

pub lookup_or_add-load :
    (t : ℕ) (allocated : Bool) (h e : ℕ) (qs : List Queue) (q : Queue) (qs' : List Queue)
    → lookup_or_add allocated h e qs ≡ some (q, qs')
    → total (queue_load t) qs' ≡ total (queue_load t) qs
unfolding total queue_load fresh count pending
lookup_or_add-load t allocated h e qs q qs' l =
    elim (lookup_or_add_cases allocated h e qs q qs' l).1 [
      | inl (old, same) ↦ ap (total (queue_load t)) same
      | inr (new, is, grown) ↦ ap (total (queue_load t)) grown ∙ omega arith
    ]

pub enqueue-key :
    (created : Bool) (it : Transfer) (q : Queue)
    → ((enqueue created it q).0.handle ≡ q.handle) × ((enqueue created it q).0.ep ≡ q.ep)
unfolding enqueue
enqueue-key created it q = ground arith
