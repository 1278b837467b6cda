-- ===== src/Aq/Account.antt =====
-- Where an accepted transfer is: every one is in one place until its completion is signalled.
use android_sdk_custom.Prelude.{
  ℕ, zero, suc, ◌+◌, ◌≡◌, refl, ◌∙◌, List, [], ◌∷◌, none, some, Bool, true, false, inl, inr, arith,
  if◌then◌else◌, Bool-cases, Option-cases,
}
use android_sdk_custom.Libusb.{LibusbError, is_success}
use android_sdk_custom.Aq.State.{
  Transfer, Worker, stopped, starting, executing, returned, Queue, Kick, State, init, find, replace,
  enqueue, take_next,
}
use android_sdk_custom.Aq.Handlers.{
  SubmitEnv, CancelEnv, finish_locked, sync_submit, submit, cancel, add_kick, finish_section,
  section_of, worker_section, execute_on, execute, deliver, kick_round, kick_nth, kick,
  handle_completion,
}
use android_sdk_custom.Aq.Steps.{
  Action, submits, cancels, sections, executes, delivers, kicks, completes, step, run,
}
use android_sdk_custom.Aq.Lookup.{total, lookup_or_add_cases}
use android_sdk_custom.Aq.Cases.{submit_cases}
use android_sdk_custom.Aq.Fit.{Fit, lookup_or_add-Fit}
use android_sdk_custom.Aq.Invariant.{on_found, step-Fit}
use android_sdk_custom.Aq.Load.{
  one, count_signals, queue_load, load, accepted, accepts, enqueue-load, take_next-load, idle-load,
  returned-load, executing-load, place_load, cancel_scan-load, moved, lookup_or_add-load,
  enqueue-key,
}

submit-load :
    (t : ℕ) (env : SubmitEnv) (it : Transfer) (s : State)
    → Fit s.queues
    → load t (submit env it s).0
      ≡ load t s + (if is_success (submit env it s).1 then one it.ptr t else 0)
unfolding load sync_submit count_signals
submit-load t env it s f =
    submit_cases (λ r. load t r.0 ≡ load t s + (if is_success r.1 then one it.ptr t else 0)) env it
      s (λ b. ground arith) (omega arith)
      λ q qs l.
        let fits =
          lookup_or_add-Fit env.queue_allocated it.dev_handle it.endpoint s.queues q qs l f in
        let at =
          lookup_or_add_cases env.queue_allocated it.dev_handle it.endpoint s.queues q qs l in
        let key = enqueue-key env.thread_created it q in
        omega (
          arith,
          moved t it.dev_handle it.endpoint (enqueue env.thread_created it q).0 q qs at.0 key.0
              key.1,
          lookup_or_add-load t env.queue_allocated it.dev_handle it.endpoint s.queues q qs l,
          enqueue-load t env.thread_created it q.worker q refl fits.1,
        )

cancel-load : (t : ℕ) (env : CancelEnv) (p : ℕ) (s : State) → load t (cancel env p s).0 ≡ load t s
unfolding load cancel place_load add_kick finish_locked count_signals
cancel-load t env p s = ground (arith, cancel_scan-load t p s.queues)

take_next-key : (q : Queue) → ((take_next q).handle ≡ q.handle) × ((take_next q).ep ≡ q.ep)
unfolding take_next
take_next-key q = ground arith

section_of-load :
    (t : ℕ) (allocated : Bool) (h e : ℕ) (w : Worker) (q : Queue) (s : State)
    → find h e s.queues ≡ some q
    → q.worker ≡ w
    → load t (section_of allocated w q s) ≡ load t s
unfolding section_of finish_section finish_locked load count_signals
section_of-load t allocated h e stopped q s at is = refl
section_of-load t allocated h e starting q s at is = omega (
  arith,
  moved t h e (take_next q) q s.queues at (take_next-key q).0 (take_next-key q).1,
  take_next-load t q,
  idle-load t q starting is refl,
)
section_of-load t allocated h e (executing it) q s at is = refl
section_of-load t allocated h e (returned it err) q s at is =
    let next : Queue = take_next (record q { cur = none }) in
    let key = take_next-key (record q { cur = none }) in
    ground (
      arith,
      moved t h e next q s.queues at key.0 key.1,
      take_next-load t (record q { cur = none }),
      returned-load t q it err is,
    )

worker_section-load :
    (t : ℕ) (allocated : Bool) (h e : ℕ) (s : State)
    → load t (worker_section allocated h e s) ≡ load t s
unfolding worker_section
worker_section-load t allocated h e s =
    on_found (λ r. load t r ≡ load t s) h e s (λ q. section_of allocated q.worker q s) refl
      λ q l. section_of-load t allocated h e q.worker q s l refl

execute_on-load :
    (t : ℕ) (err : LibusbError) (h e : ℕ) (w : Worker) (q : Queue) (s : State)
    → find h e s.queues ≡ some q
    → q.worker ≡ w
    → load t (execute_on err w q s) ≡ load t s
unfolding execute_on sync_submit load count_signals
execute_on-load t err h e (executing it) q s at is =
    let next : Queue = record q { worker = returned it err } in
    ground (
      arith,
      moved t h e next q s.queues at refl refl,
      returned-load t next it err refl,
      executing-load t q it is,
    )
execute_on-load t err h e _ q s at is = refl

execute-load :
    (t : ℕ) (err : LibusbError) (h e : ℕ) (s : State) → load t (execute err h e s) ≡ load t s
unfolding execute
execute-load t err h e s =
    on_found (λ r. load t r ≡ load t s) h e s (λ q. execute_on err q.worker q s) refl
      λ q l. execute_on-load t err h e q.worker q s l refl

flags-load :
    (t : ℕ) (b c : Bool) (h e : ℕ) (q : Queue) (qs : List Queue)
    → find h e qs ≡ some q
    → total (queue_load t) (replace (record q { sigurg = b; flag = c }) qs)
      ≡ total (queue_load t) qs
unfolding queue_load
flags-load t b c h e q qs at =
    omega (arith, moved t h e (record q { sigurg = b; flag = c }) q qs at refl refl)

deliver-load : (t : ℕ) (h e : ℕ) (s : State) → load t (deliver h e s) ≡ load t s
unfolding deliver load
deliver-load t h e s = elim (Option-cases (find h e s.queues)) [
  | inl n ↦ rw (n, deliver) refl
  | inr (q, l) ↦ elim (Bool-cases q.sigurg) [
    | inl b ↦ rw (l, deliver) (simp b (omega (arith, flags-load t false true h e q s.queues l)))
    | inr b ↦ rw (l, deliver) (rw b refl)
  ]
]

kick_round-load :
    (t : ℕ) (k : Kick) (qs : List Queue)
    → total (queue_load t) (kick_round k qs).0 ≡ total (queue_load t) qs
unfolding kick_round
kick_round-load t k qs = elim (Option-cases (find k.handle k.ep qs)) [
  | inl n ↦ ground arith
  | inr (q, l) ↦ ground (arith, flags-load t true q.flag k.handle k.ep q qs l)
]

kick_nth-load :
    (t n : ℕ) (ks : List Kick) (qs : List Queue)
    → total (queue_load t) (kick_nth n ks qs).0 ≡ total (queue_load t) qs
unfolding kick_nth
kick_nth-load t n [] qs = refl
kick_nth-load t zero (k ∷ ks) qs = kick_round-load t k qs
kick_nth-load t (suc n) (k ∷ ks) qs = kick_nth-load t n ks qs

step-load :
    (t : ℕ) (a : Action) (s : State) → Fit s.queues → load t (step a s) ≡ load t s + accepted t a s
unfolding step accepted kick handle_completion load
step-load t (submits env it) s f = submit-load t env it s f
step-load t (cancels env p) s f = omega (arith, cancel-load t env p s)
step-load t (sections allocated h e) s f = omega (arith, worker_section-load t allocated h e s)
step-load t (executes err h e) s f = omega (arith, execute-load t err h e s)
step-load t (delivers h e) s f = omega (arith, deliver-load t h e s)
step-load t (kicks n) s f = omega (arith, kick_nth-load t n s.kicks s.queues)
step-load t (completes p) s f = ground arith

run-load :
    (t : ℕ) (actions : List Action) (s : State)
    → Fit s.queues
    → load t (run actions s) ≡ load t s + accepts t actions s
unfolding run accepts
run-load t [] s f = omega arith
run-load t (a ∷ actions) s f =
    omega (arith, run-load t actions (step a s) (step-Fit a s f), step-load t a s f)

-- After any interleaving, the number of successful submits of a transfer is the number of its places:
-- how often it waits in a queue, runs with its completion still to come, or has had its completion
-- signalled. So no transfer that was accepted is lost, and none is signalled twice for one submit.
pub run-init-load :
    (t : ℕ) (actions : List Action) → load t (run actions init) ≡ accepts t actions init
unfolding init load total count_signals
run-init-load t actions = run-load t actions init (tt, tt) ∙ omega arith
