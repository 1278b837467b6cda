-- ===== src/Ugen/Cancel.antt =====
-- sdk_aq_cancel of a transfer that a worker runs: from the mark on its queue, by a signal, to the end
-- of the wait loop of _sync_gen_transfer and to the report to libusb.
use android_sdk_custom.Prelude.{
  ℕ, ◌≡◌, ◌<◌, refl, ap, ◌∙◌, List, [], ◌∷◌, none, some, Bool, true, false, inl, inr, arith,
  Bool-cases, ==_refl, if◌then◌else◌, ◌&&◌, ◌==◌, get_or,
}
use mathlib.Core.Path.{subst}
use android_sdk_custom.Libusb.{LibusbError, success, interrupted, completed}
use android_sdk_custom.Aq.State.{Queue, State, has_key, find, sdk_aq_status, Transfer, executing}
use android_sdk_custom.Aq.Handlers.{
  cancellation, completion, CancelEnv, running_on, cancel_scan, cancel, add_kick, deliver,
  take_result,
}
use android_sdk_custom.Aq.Cases.{cancel_scan_cases}
use android_sdk_custom.Aq.Lookup.{Distinct, find-key}
use android_sdk_custom.Aq.Invariant.{cancel_scan-keys}
use android_sdk_custom.Ugen.Slots.{nfsep, HandlePriv, Driver, fs_drain}
use android_sdk_custom.Ugen.Transfer.{Look, Waited, stopped_round, wait_round}
use android_sdk_custom.Ugen.Drain.{Drains, drain_ends}
use android_sdk_custom.Ugen.Backend.{returned_code, conclude, conclude-told, find_put}

-- The queue as the scan leaves it.
abbrev marked : Queue → Queue
marked q = record q { cancel_cur = true; sigurg = true }

running_on-injective : (x q : Queue) → running_on x ≡ running_on q → x ≡ q
running_on-injective x q e = ap (λ w. elim w as (λ _. Queue) [ running_on y ↦ y | _ ↦ x ]) e

scan-marked :
    (p : ℕ) (qs : List Queue) (q : Queue)
    → Distinct qs
    → (cancel_scan p qs).1 ≡ running_on q
    → find q.handle q.ep (cancel_scan p qs).0 ≡ some (marked q)
unfolding cancel_scan find
scan-marked p [] q distinct = λ e. cc
scan-marked p (x ∷ qs) q distinct =
    cancel_scan_cases (λ r. r.1 ≡ running_on q → find q.handle q.ep r.0 ≡ some (marked q)) p x qs
      (λ items u same. cc)
      (λ u c same.
        subst (λ y. find y.handle y.ep (marked x ∷ qs) ≡ some (marked y))
          (running_on-injective x q same) (rw (==_refl x.handle, ==_refl x.ep) refl))
      (λ u c same. cc)
      (λ u c same.
        let later = scan-marked p qs q distinct.1 same in
        let absent = cancel_scan-keys p x.handle x.ep qs distinct.0 in
        elim (Bool-cases (has_key q.handle q.ep x)) [
          | inl b ↦ absurd (grind (arith, later, absent))
          | inr b ↦ rw b later
        ])

-- The state after the cancel and the delivery of its signal.
abbrev pub after_signal : CancelEnv → ℕ → Queue → State → State
after_signal env p q s = deliver q.handle q.ep (cancel env p s).0

-- sdk_aq_interrupted, as the thread of a queue reads it.
abbrev pub flag_of : ℕ → ℕ → State → Bool
flag_of h e s = elim (find h e s.queues) [ none ↦ false | some q ↦ q.flag ]

abbrev pub interrupted_queue : Queue → Queue
interrupted_queue q = record q { cancel_cur = true; sigurg = false; flag = true }

cancel-queues :
    (env : CancelEnv) (p : ℕ) (s : State) (q : Queue)
    → (cancel_scan p s.queues).1 ≡ running_on q
    → (cancel env p s).0.queues ≡ (cancel_scan p s.queues).0
unfolding cancel add_kick
cancel-queues env p s q e = ground arith

if_flagged : (P : State → Type 0) (b : Bool) (s t : State) → b ≡ true → P t → P (if b then t else s)
if_flagged P true s t e h = h
if_flagged P false s t e h = cc

deliver-flag :
    (h e : ℕ) (s : State) (r : Queue)
    → find h e s.queues ≡ some r
    → r.sigurg ≡ true
    → find h e (deliver h e s).queues ≡ some (record r { sigurg = false; flag = true })
unfolding deliver
deliver-flag h e s r at sent =
    let key = find-key h e s.queues r at in
    let there : has_key h e (record r { sigurg = false; flag = true }) ≡ true =
      ground (arith, key.0, key.1) in
    let put = find_put h e r (record r { sigurg = false; flag = true }) s.queues at there in
    rw (at, deliver)
      (if_flagged (λ t. find h e t.queues ≡ some (record r { sigurg = false; flag = true }))
        r.sigurg s _ sent put)

after_signal-flag :
    (env : CancelEnv) (p : ℕ) (q : Queue) (s : State)
    → Distinct s.queues
    → (cancel_scan p s.queues).1 ≡ running_on q
    → find q.handle q.ep (after_signal env p q s).queues ≡ some (interrupted_queue q)
after_signal-flag env p q s distinct e =
    let at : find q.handle q.ep (cancel env p s).0.queues ≡ some (marked q) =
      rw (cancel-queues env p s q e) (scan-marked p s.queues q distinct e) in
    deliver-flag q.handle q.ep (cancel env p s).0 (marked q) at refl

cancel-results :
    (env : CancelEnv) (p : ℕ) (s : State) (q : Queue)
    → (cancel_scan p s.queues).1 ≡ running_on q
    → (cancel env p s).0.results ≡ s.results
unfolding cancel add_kick
cancel-results env p s q e = ground arith

deliver-results : (h e : ℕ) (s : State) → (deliver h e s).results ≡ s.results
unfolding deliver
deliver-results h e s = ground arith

-- The slot was done, with status 0, when the stopped round drained the completions.
abbrev pub finished_in_time : ℕ → HandlePriv → Bool
finished_in_time slot hp = get_or hp.done slot false && (get_or hp.cstatus slot 0 == 0)

-- A round that stopped the slot ended with a code; and where the worker comes back with this code in
-- the state t, libusb is told that the transfer completed, or that it was cancelled.
abbrev pub Settled : ℕ → Queue → Transfer → State → HandlePriv → Waited → Type 0
Settled slot q it t hp w =
    (err : LibusbError) × (returned_code w ≡ some err)
    × ((conclude err true q.handle q.ep it.ptr t).1
        ≡ (if finished_in_time slot hp then completion completed else cancellation))

stopped-Settled :
    {K : Type 0} (d : Driver K) (slot : ℕ) (q : Queue) (it : Transfer) (t : State)
    (r : HandlePriv × K × Bool)
    → find q.handle q.ep t.queues ≡ some (interrupted_queue q)
    → q.worker ≡ executing it
    → take_result it.ptr t.results ≡ none
    → Settled slot q it t r.0 (stopped_round d slot r).2
unfolding sdk_aq_status
stopped-Settled d slot q it t (h, k, ok) at runs fresh =
    let report = λ (err : LibusbError).
      conclude-told q.handle q.ep it (interrupted_queue q) t err at runs (λ _. fresh) in
    elim (Bool-cases (finished_in_time slot h)) [
      | inl b ↦ rw b (success, refl, report success)
      | inr b ↦ rw b (interrupted, refl, report interrupted)
    ]

flagged_round :
    {K : Type 0} (d : Driver K) (fuel slot time : ℕ) (hp : HandlePriv) (k : K) (look : Look)
    (r : HandlePriv × K × Bool)
    → look.hangup ≡ false
    → look.flagged ≡ true
    → fs_drain d fuel hp (d.fs_stop k slot) ≡ some r
    → wait_round d fuel slot time hp k look ≡ some (stopped_round d slot r)
unfolding wait_round
flagged_round d fuel slot time hp k look r u f e = rw (u, f, e, wait_round) refl

-- No two queues have the same key, sdk_aq_cancel finds a transfer of which nothing is recorded on a
-- queue whose worker runs it, and it is not yet cancelled. Then after the cancel and the delivery of
-- its signal that queue is as before but for the marks of the cancel, and the flag is set. A round of
-- the wait loop that reads this flag, on a device that is there and with fuel for a drain of all
-- slots, stops the slot, drains and ends. The worker comes back with the code of the round, and with
-- memory for the result libusb is told that the transfer completed, if the drain has its completion
-- with status 0, and that it was cancelled otherwise.
pub cancel_interrupts :
    {K : Type 0} (d : Driver K) (drains : Drains d) (fuel : ℕ) (env : CancelEnv) (it : Transfer)
    (q : Queue) (s : State) (slot time ms : ℕ) (hp : HandlePriv) (k : K)
    → nfsep < fuel
    → Distinct s.queues
    → (cancel_scan it.ptr s.queues).1 ≡ running_on q
    → q.worker ≡ executing it
    → take_result it.ptr s.results ≡ none
    → let t = after_signal env it.ptr q s in
      (find q.handle q.ep t.queues ≡ some (interrupted_queue q))
      × ((r : HandlePriv × K × Bool) × (o : HandlePriv × K × Waited) × (fs_drain d fuel hp
              (d.fs_stop k slot)
            ≡ some r)
          × (wait_round d fuel slot time hp k
                (record { hangup = false; flagged = flag_of q.handle q.ep t; ms = ms })
              ≡ some o)
          × Settled slot q it t r.0 o.2)
cancel_interrupts d drains fuel env it q s slot time ms hp k enough distinct e runs fresh =
    let t = after_signal env it.ptr q s in
    let at = after_signal-flag env it.ptr q s distinct e in
    let set : flag_of q.handle q.ep t ≡ true =
      ap (λ o. elim o [ none ↦ false | some r ↦ r.flag ]) at in
    let results : t.results ≡ s.results =
      deliver-results q.handle q.ep (cancel env it.ptr s).0 ∙ cancel-results env it.ptr s q e in
    let drained = drain_ends d drains fuel hp (d.fs_stop k slot) enough in
    let ends =
      flagged_round d fuel slot time hp k
        (record { hangup = false; flagged = flag_of q.handle q.ep t; ms = ms }) drained.result refl
        set drained.ends in
    (
      at,
      (
        drained.result,
        stopped_round d slot drained.result,
        drained.ends,
        ends,
        stopped-Settled d slot q it t drained.result at runs (rw results fresh),
      ),
    )
