-- ===== src/Aq/Invariant.antt =====
-- What holds of the queues in every interleaving.
use android_sdk_custom.Prelude.{
  ℕ, zero, suc, ◌≡◌, refl, List, [], ◌∷◌, none, some, Bool, true, false, not, inl, inr, arith,
  if◌then◌else◌, Bool-cases, Option-cases, ltb, ◌||◌,
}
use android_sdk_custom.Libusb.{LibusbError, is_success}
use android_sdk_custom.Aq.State.{
  Transfer, Worker, stopped, starting, executing, returned, Queue, Kick, State, init, find, replace,
  unlink, is_cur,
}
use android_sdk_custom.Aq.Handlers.{
  SubmitEnv, CancelEnv, with_queues, finish_locked, sync_submit, submit, cancel_scan, cancel,
  add_kick, finish_section, section_of, worker_section, execute_on, execute, deliver, kick_round,
  kick_nth, kick, handle_completion, max_rounds,
}
use android_sdk_custom.Aq.Steps.{
  Action, submits, cancels, sections, executes, delivers, kicks, completes, step, run,
}
use android_sdk_custom.Aq.Cases.{submit_cases, cancel_scan_cases}
use android_sdk_custom.Aq.Fit.{
  WorkerFits, QueueFits, Fit, enqueue-Fits, take_next-Fits, put, found, lookup_or_add-Fit,
}

submit-Fit :
    (env : SubmitEnv) (it : Transfer) (s : State) → Fit s.queues → Fit (submit env it s).0.queues
unfolding sync_submit
submit-Fit env it s f =
    submit_cases (λ r. Fit r.0.queues) env it s (λ b. ground arith) f
      λ q qs l.
        let (g, h) =
          lookup_or_add-Fit env.queue_allocated it.dev_handle it.endpoint s.queues q qs l f in
        put _ qs g (enqueue-Fits env.thread_created it q.worker q refl h)

pub cancel_scan-keys :
    (p h e : ℕ) (qs : List Queue) → find h e qs ≡ none → find h e (cancel_scan p qs).0 ≡ none
unfolding find cancel_scan
cancel_scan-keys p h e [] n = n
cancel_scan-keys p h e (q ∷ qs) n =
    cancel_scan_cases (λ r. find h e r.0 ≡ none) p q qs (λ items u. ground arith)
      (λ u c. ground arith) (λ u c. n) (λ u c. ground (arith, cancel_scan-keys p h e qs))

unlinked-Fits :
    (p : ℕ) (items : List Transfer) (w : Worker) (q : Queue)
    → unlink p q.items ≡ some items
    → q.worker ≡ w
    → WorkerFits w q
    → QueueFits (record q { items = items })
unfolding unlink
unlinked-Fits p items stopped q u e f = ground arith
unlinked-Fits p items _ q u e f = ground arith

kicked-Fits :
    (b : Bool) (w : Worker) (q : Queue)
    → q.worker ≡ w
    → WorkerFits w q
    → QueueFits (record q { cancel_cur = b; sigurg = true })
kicked-Fits b stopped q e f = ground arith
kicked-Fits b _ q e f = ground arith

cancel_scan-Fit : (p : ℕ) (qs : List Queue) → Fit qs → Fit (cancel_scan p qs).0
unfolding cancel_scan
cancel_scan-Fit p [] f = f
cancel_scan-Fit p (q ∷ qs) f =
    cancel_scan_cases (λ r. Fit r.0) p q qs
      (λ items u. (f.0, (unlinked-Fits p items q.worker q u refl f.1.0, f.1.1)))
      (λ u c. (f.0, (kicked-Fits true q.worker q refl f.1.0, f.1.1))) (λ u c. f)
      (λ u c.
        let rest = cancel_scan-Fit p qs (f.0.1, f.1.1) in
        ((cancel_scan-keys p q.handle q.ep qs f.0.0, rest.0), (f.1.0, rest.1)))

cancel-Fit : (env : CancelEnv) (p : ℕ) (s : State) → Fit s.queues → Fit (cancel env p s).0.queues
unfolding cancel add_kick finish_locked
cancel-Fit env p s f = ground (arith, cancel_scan-Fit p s.queues f)

section_of-Fit :
    (allocated : Bool) (w : Worker) (q : Queue) (s : State)
    → WorkerFits w q
    → Fit s.queues
    → Fit (section_of allocated w q s).queues
unfolding section_of finish_section finish_locked
section_of-Fit allocated stopped q s h f = f
section_of-Fit allocated starting q s h f = put _ s.queues f (take_next-Fits q h.0 h.1)
section_of-Fit allocated (executing it) q s h f = f
section_of-Fit allocated (returned it err) q s h f =
    let next = put _ s.queues f (take_next-Fits (record q { cur = none }) h.0 refl) in
    elim (Bool-cases (is_success err)) [
      | inl b ↦ rw b next
      | inr b ↦ elim (Bool-cases allocated) [ inl a ↦ rw (b, a) next | inr a ↦ rw (b, a) next ]
    ]

-- A handler that works on the queue with a key, if there is one.
pub on_found :
    (P : State → Type 0) (h e : ℕ) (s : State) (g : Queue → State)
    → P s
    → ((q : Queue) → find h e s.queues ≡ some q → P (g q))
    → P (elim (find h e s.queues) [ none ↦ s | some q ↦ g q ])
on_found P h e s g missing at = elim (Option-cases (find h e s.queues)) [
  | inl n ↦ rw n missing
  | inr (q, l) ↦ rw l (at q l)
]

worker_section-Fit :
    (allocated : Bool) (h e : ℕ) (s : State)
    → Fit s.queues
    → Fit (worker_section allocated h e s).queues
unfolding worker_section
worker_section-Fit allocated h e s f =
    on_found (λ t. Fit t.queues) h e s (λ q. section_of allocated q.worker q s) f
      λ q l. section_of-Fit allocated q.worker q s (found h e s.queues q l f) f

execute_on-Fit :
    (err : LibusbError) (w : Worker) (q : Queue) (s : State)
    → WorkerFits w q
    → Fit s.queues
    → Fit (execute_on err w q s).queues
unfolding execute_on sync_submit
execute_on-Fit err stopped q s h f = f
execute_on-Fit err starting q s h f = f
execute_on-Fit err (executing it) q s h f =
    let next = put (record q { worker = returned it err }) s.queues f h in
    elim (Bool-cases (is_success err)) [
      | inl b ↦ rw (b, execute_on) next
      | inr b ↦ rw (b, execute_on) next
    ]
execute_on-Fit err (returned it code) q s h f = f

execute-Fit :
    (err : LibusbError) (h e : ℕ) (s : State) → Fit s.queues → Fit (execute err h e s).queues
unfolding execute
execute-Fit err h e s f =
    on_found (λ t. Fit t.queues) h e s (λ q. execute_on err q.worker q s) f
      λ q l. execute_on-Fit err q.worker q s (found h e s.queues q l f) f

-- The signal and the flag play no part in the invariant.
flags-Fits :
    (b c : Bool) (w : Worker) (q : Queue)
    → q.worker ≡ w
    → WorkerFits w q
    → QueueFits (record q { sigurg = b; flag = c })
flags-Fits b c stopped q e f = ground arith
flags-Fits b c _ q e f = ground arith

deliver-Fit : (h e : ℕ) (s : State) → Fit s.queues → Fit (deliver h e s).queues
unfolding deliver
deliver-Fit h e s f =
    on_found (λ t. Fit t.queues) h e s
      (λ q.
        if q.sigurg
        then with_queues s (replace (record q { sigurg = false; flag = true }) s.queues)
        else s)
      f
      λ q l.
        let next =
          put _ s.queues f (flags-Fits false true q.worker q refl (found h e s.queues q l f)) in
        elim (Bool-cases q.sigurg) [ inl b ↦ simp b next | inr b ↦ rw b f ]

kick_round-Fit : (k : Kick) (qs : List Queue) → Fit qs → Fit (kick_round k qs).0
unfolding kick_round
kick_round-Fit k qs f = elim (Bool-cases (ltb k.round max_rounds)) [
  | inr b ↦ rw b f
  | inl b ↦ elim (Option-cases (find k.handle k.ep qs)) [
    | inl n ↦ rw (b, n) f
    | inr (q, l) ↦ elim (Bool-cases (not (is_cur k.it q.cur) || not q.cancel_cur)) [
      | inl c ↦ rw (b, l, c) f
      | inr c ↦
          rw (b, l, c)
            (put _ qs f (flags-Fits true q.flag q.worker q refl (found k.handle k.ep qs q l f)))
    ]
  ]
]

kick_nth-Fit : (n : ℕ) (ks : List Kick) (qs : List Queue) → Fit qs → Fit (kick_nth n ks qs).0
unfolding kick_nth
kick_nth-Fit n [] qs f = f
kick_nth-Fit zero (k ∷ ks) qs f = kick_round-Fit k qs f
kick_nth-Fit (suc n) (k ∷ ks) qs f = kick_nth-Fit n ks qs f

pub step-Fit : (a : Action) (s : State) → Fit s.queues → Fit (step a s).queues
unfolding step kick handle_completion
step-Fit (submits env it) s f = submit-Fit env it s f
step-Fit (cancels env p) s f = cancel-Fit env p s f
step-Fit (sections allocated h e) s f = worker_section-Fit allocated h e s f
step-Fit (executes err h e) s f = execute-Fit err h e s f
step-Fit (delivers h e) s f = deliver-Fit h e s f
step-Fit (kicks n) s f = kick_nth-Fit n s.kicks s.queues f
step-Fit (completes p) s f = ground arith

run-Fit : (actions : List Action) (s : State) → Fit s.queues → Fit (run actions s).queues
unfolding run
run-Fit [] s f = f
run-Fit (a ∷ actions) s f = run-Fit actions (step a s) (step-Fit a s f)

-- After any interleaving of submits, cancels, worker sections, transfers, signals, kicker rounds and
-- completions, no two queues have the same handle and endpoint; a queue without a worker thread is
-- empty and runs nothing; one with a thread is marked running, and its current transfer is the one
-- that the thread executes, if it executes one.
pub run-init-Fit : (actions : List Action) → Fit (run actions init).queues
unfolding init
run-init-Fit actions = run-Fit actions init (tt, tt)
