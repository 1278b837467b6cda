-- ===== src/Aq/Order.antt =====
-- In which order the worker of libusb_bsd_async.inc submits the transfers of an endpoint.
use android_sdk_custom.Prelude.{
  ℕ, ◌≡◌, refl, List, [], ◌∷◌, ◌++◌, Option, none, some, Bool, true, false, ◌&&◌, inl, inr, arith,
  if◌then◌else◌, ◌==◌, Bool-cases, Option-cases, append_assoc, append-nil, zero, suc,
}
use mathlib.Core.List.{Sublist, sublist-append_left, sublist-append_right, nil-sublist}
use mathlib.Core.List.Sublist as Sub
use android_sdk_custom.Libusb.{LibusbError}
use android_sdk_custom.Aq.State.{
  Transfer, Worker, stopped, starting, executing, returned, Queue, Kick, State, init, find, replace,
  take_next,
}
use android_sdk_custom.Aq.Handlers.{
  CancelEnv, submit, with_queues, cancel, section_of, worker_section, execute_on, execute, deliver,
  kick_round, kick_nth, finish_section, add_kick, finish_locked, kick, handle_completion,
}
use android_sdk_custom.Aq.Steps.{
  Action, submits, cancels, sections, executes, delivers, kicks, completes, step, run,
}
use android_sdk_custom.Aq.Lookup.{SameKey}
use android_sdk_custom.Aq.Line.{
  in_hand, line, pending, gained, put_line, put_cases, cancel_scan-pending, submit-pending,
  sync_submit-queues,
}
use android_sdk_custom.Aq.Invariant.{on_found}

-- What an action hands to the queue of an endpoint, if it succeeds.
abbrev pub accepted : ℕ → ℕ → Action → State → List Transfer
accepted h e (submits env it) s = gained h e it (submit env it s).1
accepted h e _ s = []

abbrev pub carried : Option Queue → List Transfer
carried none = []
carried (some q) = in_hand q.worker

-- What an action gives to SDK_AQ_SYNC_SUBMIT on an endpoint.
abbrev pub performed : ℕ → ℕ → Action → State → List Transfer
performed h e (executes err i j) s =
    if (i == h) && (j == e) then carried (find i j s.queues) else []
performed h e _ s = []

unfoldable pub accepted_along : ℕ → ℕ → List Action → State → List Transfer
accepted_along h e [] s = []
accepted_along h e (a ∷ rest) s = accepted h e a s ++ accepted_along h e rest (step a s)

unfoldable pub performed_along : ℕ → ℕ → List Action → State → List Transfer
performed_along h e [] s = []
performed_along h e (a ∷ rest) s = performed h e a s ++ performed_along h e rest (step a s)

take_next-line :
    (q : Queue) (items : List Transfer)
    → q.items ≡ items
    → Sublist (line (some (take_next q))) (line (some q))
unfolding take_next
take_next-line q [] m = rw m (nil-sublist (in_hand q.worker ++ []))
take_next-line q (it ∷ rest) m = rw m (sublist-append_right (in_hand q.worker) (it ∷ rest))

take_next-SameKey : (q : Queue) → SameKey (take_next q) q
unfolding take_next
take_next-SameKey q = ground arith

handle_completion-queues : (p : ℕ) (s : State) → (handle_completion p s).0.queues ≡ s.queues
unfolding handle_completion
handle_completion-queues p s = ground arith

-- A step and what follows it: x leaves the line before y leaves it, and u joins it before v.
chained :
    (x y last first mid u v : List Transfer)
    → Sublist (x ++ mid) (first ++ u)
    → Sublist (y ++ last) (mid ++ v)
    → Sublist ((x ++ y) ++ last) (first ++ (u ++ v))
chained x y last first mid u v one rest =
    let now : Sublist (x ++ (mid ++ v)) (first ++ (u ++ v)) =
      rw (← append_assoc x mid v, ← append_assoc first u v) (Sub.append one (Sub.refl v)) in
    rw (append_assoc x y last) (Sub.trans (Sub.append (Sub.refl x) rest) now)

module _ (h e : ℕ) where
  cancel-pending :
      (env : CancelEnv) (p : ℕ) (s : State)
      → Sublist (pending h e (cancel env p s).0.queues) (pending h e s.queues)
  unfolding cancel add_kick finish_locked
  cancel-pending env p s =
      ground (arith, cancel_scan-pending h e p s.queues, Sub.refl (pending h e s.queues))

  section_of-pending :
      (allocated : Bool) (i j : ℕ) (w : Worker) (q : Queue) (s : State)
      → find i j s.queues ≡ some q
      → Sublist (pending h e (section_of allocated w q s).queues) (pending h e s.queues)
  unfolding section_of finish_section finish_locked
  section_of-pending allocated i j stopped q s f = Sub.refl _
  section_of-pending allocated i j starting q s f =
      put_line h e i j (take_next q) q s.queues f (take_next-SameKey q)
        (take_next-line q q.items refl)
  section_of-pending allocated i j (executing it) q s f = Sub.refl _
  section_of-pending allocated i j (returned it err) q s f =
      let next =
        put_line h e i j (take_next (record q { cur = none })) q s.queues f
          (take_next-SameKey (record q { cur = none }))
          (take_next-line (record q { cur = none }) q.items refl) in
      ground (arith, next)

  idle-pending :
      (i j : ℕ) (s : State)
      → Sublist
          ((if (i == h) && (j == e) then [] else []) ++ pending h e s.queues)
          (pending h e s.queues ++ [])
  idle-pending i j s = elim (Bool-cases ((i == h) && (j == e))) [
    | inl k ↦ rw k (sublist-append_left (pending h e s.queues) [])
    | inr k ↦ rw k (sublist-append_left (pending h e s.queues) [])
  ]

  execute_on-pending :
      (err : LibusbError) (i j : ℕ) (w : Worker) (q : Queue) (s : State)
      → find i j s.queues ≡ some q
      → q.worker ≡ w
      → Sublist
          ((if (i == h) && (j == e) then in_hand w else [])
            ++ pending h e (execute_on err w q s).queues)
          (pending h e s.queues ++ [])
  unfolding execute_on
  execute_on-pending err i j stopped q s f m = idle-pending i j s
  execute_on-pending err i j starting q s f m = idle-pending i j s
  execute_on-pending err i j (executing it) q s f m =
      rw
        (sync_submit-queues err it
          (with_queues s (replace (record q { worker = returned it err }) s.queues)))
        (put_cases h e i j (if (i == h) && (j == e) then it ∷ [] else []) []
          (record q { worker = returned it err }) q s.queues f (refl, refl)
          (λ a b.
            let k : (i == h) ≡ true = ground arith in
            let l : (j == e) ≡ true = ground arith in rw (k, l, m, append-nil) (Sub.refl _))
          (λ o. rw o refl))
  execute_on-pending err i j (returned it code) q s f m = idle-pending i j s

  worker_section-pending :
      (allocated : Bool) (i j : ℕ) (s : State)
      → Sublist (pending h e (worker_section allocated i j s).queues) (pending h e s.queues)
  unfolding worker_section
  worker_section-pending allocated i j s =
      on_found (λ t. Sublist (pending h e t.queues) (pending h e s.queues)) i j s
        (λ q. section_of allocated q.worker q s) (Sub.refl _)
        λ q l. section_of-pending allocated i j q.worker q s l

  execute-pending :
      (err : LibusbError) (i j : ℕ) (s : State)
      → Sublist
          (performed h e (executes err i j) s ++ pending h e (execute err i j s).queues)
          (pending h e s.queues ++ [])
  unfolding execute
  execute-pending err i j s = elim (Option-cases (find i j s.queues)) [
    | inl n ↦ rw (n, execute) (idle-pending i j s)
    | inr (q, l) ↦ rw (l, execute) (execute_on-pending err i j q.worker q s l refl)
  ]

  deliver-pending :
      (i j : ℕ) (s : State) → Sublist (pending h e (deliver i j s).queues) (pending h e s.queues)
  unfolding deliver
  deliver-pending i j s = elim (Option-cases (find i j s.queues)) [
    | inl n ↦ rw (n, deliver) (Sub.refl (pending h e s.queues))
    | inr (q, l) ↦
        let next =
          put_line h e i j (record q { sigurg = false; flag = true }) q s.queues l (refl, refl)
            (Sub.refl (line (some q))) in
        rw (l, deliver) (ground (arith, next, Sub.refl (pending h e s.queues)))
  ]

  kick_round-pending :
      (k : Kick) (qs : List Queue) → Sublist (pending h e (kick_round k qs).0) (pending h e qs)
  unfolding kick_round
  kick_round-pending k qs = elim (Option-cases (find k.handle k.ep qs)) [
    | inl n ↦ rw n (ground (arith, Sub.refl (pending h e qs)))
    | inr (q, l) ↦
        let next =
          put_line h e k.handle k.ep (record q { sigurg = true }) q qs l (refl, refl)
            (Sub.refl (line (some q))) in
        rw l (ground (arith, next, Sub.refl (pending h e qs)))
  ]

  kick_nth-pending :
      (n : ℕ) (ks : List Kick) (qs : List Queue)
      → Sublist (pending h e (kick_nth n ks qs).0) (pending h e qs)
  unfolding kick_nth
  kick_nth-pending n [] qs = Sub.refl _
  kick_nth-pending zero (k ∷ ks) qs = kick_round-pending k qs
  kick_nth-pending (suc n) (k ∷ ks) qs = kick_nth-pending n ks qs

  -- A handler that submits nothing and takes nothing in.
  only_less :
      (qs rest : List Queue)
      → Sublist (pending h e rest) (pending h e qs)
      → Sublist (pending h e rest) (pending h e qs ++ [])
  only_less qs rest less = Sub.trans less (sublist-append_left (pending h e qs) [])

  step-pending :
      (a : Action) (s : State)
      → Sublist
          (performed h e a s ++ pending h e (step a s).queues)
          (pending h e s.queues ++ accepted h e a s)
  unfolding step kick
  step-pending (submits env it) s = submit-pending h e env it s
  step-pending (cancels env p) s = only_less s.queues _ (cancel-pending env p s)
  step-pending (sections allocated i j) s =
      only_less s.queues _ (worker_section-pending allocated i j s)
  step-pending (executes err i j) s = execute-pending err i j s
  step-pending (delivers i j) s = only_less s.queues _ (deliver-pending i j s)
  step-pending (kicks n) s = only_less s.queues _ (kick_nth-pending n s.kicks s.queues)
  step-pending (completes p) s =
      rw (handle_completion-queues p s) (sublist-append_left (pending h e s.queues) [])

  run-pending :
      (actions : List Action) (s : State)
      → Sublist
          (performed_along h e actions s ++ pending h e (run actions s).queues)
          (pending h e s.queues ++ accepted_along h e actions s)
  unfolding run performed_along accepted_along
  run-pending [] s = sublist-append_left (pending h e s.queues) []
  run-pending (a ∷ rest) s =
      chained (performed h e a s) (performed_along h e rest (step a s))
        (pending h e (run rest (step a s)).queues) (pending h e s.queues)
        (pending h e (step a s).queues) (accepted h e a s) (accepted_along h e rest (step a s))
        (step-pending a s) (run-pending rest (step a s))

-- In every interleaving of the actions from the start, the transfers that the worker of an endpoint
-- gives to the backend's submit, followed by those that it has still to submit, are some of the
-- transfers whose sdk_aq_submit on that endpoint succeeded, in the order of these calls.
pub performed_in_order :
    (h e : ℕ) (actions : List Action)
    → Sublist
        (performed_along h e actions init ++ pending h e (run actions init).queues)
        (accepted_along h e actions init)
unfolding init find
performed_in_order h e actions = run-pending h e actions init
