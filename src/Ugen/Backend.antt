-- ===== src/Ugen/Backend.antt =====
-- libusb_bsd_async.inc over libusb_freebsd_usb.c, from the worker's submit to libusb's report: the
-- lines that include the one file in the other, and the entries of usbi_backend for transfers.
use android_sdk_custom.Prelude.{
  not, ◌∙◌, ◌≢◌, ◌==◌, ap, ◌≢◌, ◌==◌, ap, ℕ, ◌≡◌, refl, List, [], ◌∷◌, Option, none, some, Bool,
  true, false, ◌>>=◌, if◌then◌else◌, inl, inr, arith, Bool-cases,
}
use android_sdk_custom.Libusb.{
  LibusbError, timed_out, pipe, io, success, completed, timeout, stall, error, is_success,
}
use android_sdk_custom.Aq.State.{
  Transfer, Queue, State, executing, returned, find, replace, take_next, sdk_aq_status, has_key,
}
use android_sdk_custom.Aq.Handlers.{
  Report, completion, cancellation, report_of, with_queues, execute, execute_on, worker_section,
  section_of, finish_section, sync_submit, handle_completion, take_result,
}
use android_sdk_custom.Aq.Lookup.{find-key}
use android_sdk_custom.Aq.Reports.{handle_completion-finish_locked}
use android_sdk_custom.Ugen.Slots.{HandlePriv, Driver}
use android_sdk_custom.Ugen.Handover.{judged}
use android_sdk_custom.Ugen.Transfer.{
  Request, Look, Waited, waiting, ended, transferred, sync_gen_transfer,
}

-- What _sync_gen_transfer returns; `none` while it has not returned.
abbrev pub returned_code : Waited → Option LibusbError
returned_code waiting = none
returned_code (ended e) = some e
returned_code (transferred n) = some success

-- What libusb is told of a transfer that came back with a code, cancelled or not.
abbrev pub told : LibusbError → Bool → Report
told err cancel =
    if is_success err then completion completed else report_of (sdk_aq_status err cancel)

-- What libusb is told where the worker of an endpoint comes back with a code, takes the lock, and
-- libusb then handles the transfer's completion.
unfoldable pub conclude : LibusbError → Bool → ℕ → ℕ → ℕ → State → State × Report
conclude err allocated h e p s =
    handle_completion p (worker_section allocated h e (execute err h e s))

module _ {K : Type 0} (d : Driver K) where
  -- The whole way of a bulk or interrupt transfer that a worker has taken.
  unfoldable pub perform :
      ℕ
      → Request
      → HandlePriv
      → K
      → List Look
      → Bool
      → ℕ
      → ℕ
      → ℕ
      → State
      → Option (HandlePriv × K × State × Report)
  unfolding conclude
  perform fuel r hp k looks allocated h e p s =
      sync_gen_transfer d fuel r hp k looks >>= λ (hp', k', w). returned_code w >>= λ err.
      let (t, report) = conclude err allocated h e p s in some (hp', k', t, report)

pub find_put :
    (h e : ℕ) (q r : Queue) (qs : List Queue)
    → find h e qs ≡ some q
    → has_key h e r ≡ true
    → find h e (replace r qs) ≡ some r
unfolding find replace
find_put h e q r [] f k = cc
find_put h e q r (x ∷ qs) f k = ground (arith, find_put h e q r qs)

-- The queue whose worker wants the lock again, and the state with it.
abbrev with_code : LibusbError → Transfer → Queue → Queue
with_code err it q = record q { worker = returned it err }

abbrev back : LibusbError → Transfer → Queue → State → State
back err it q s = (sync_submit err it (with_queues s (replace (with_code err it q) s.queues))).0

back-queues :
    (err : LibusbError) (it : Transfer) (q : Queue) (s : State)
    → ((back err it q s).queues ≡ replace (with_code err it q) s.queues)
      × ((back err it q s).results ≡ s.results)
unfolding sync_submit
back-queues err it q s = ground arith

execute-back :
    (err : LibusbError) (h e : ℕ) (it : Transfer) (q : Queue) (s : State)
    → find h e s.queues ≡ some q
    → q.worker ≡ executing it
    → execute err h e s ≡ back err it q s
unfolding execute execute_on
execute-back err h e it q s at runs = rw (at, execute, runs) refl

section-finish :
    (h e : ℕ) (err : LibusbError) (it : Transfer) (q : Queue) (s : State)
    → find h e s.queues ≡ some (with_code err it q)
    → worker_section true h e s ≡ finish_section true it err (with_code err it q) s
unfolding worker_section section_of
section-finish h e err it q s at = rw (at, worker_section) refl

-- The report that follows the last section, for a code of success and for any other.
finish_section-told :
    (it : Transfer) (err : LibusbError) (q : Queue) (s : State)
    → (is_success err ≡ true → take_result it.ptr s.results ≡ none)
    → (handle_completion it.ptr (finish_section true it err q s)).1 ≡ told err q.cancel_cur
unfolding finish_section handle_completion
finish_section-told it err q s fresh = elim (Bool-cases (is_success err)) [
  | inl b ↦ rw (b, finish_section, handle_completion) (rw (fresh b) refl)
  | inr b ↦
      let report =
        ap (λ r. r.1)
          (handle_completion-finish_locked it.ptr (sdk_aq_status err q.cancel_cur)
            (with_queues s (replace (take_next (record q { cur = none })) s.queues))) in
      rw (b, finish_section) report
]

pub conclude-told :
    (h e : ℕ) (it : Transfer) (q : Queue) (s : State) (err : LibusbError)
    → find h e s.queues ≡ some q
    → q.worker ≡ executing it
    → (is_success err ≡ true → take_result it.ptr s.results ≡ none)
    → (conclude err true h e it.ptr s).1 ≡ told err q.cancel_cur
unfolding conclude
conclude-told h e it q s err at runs fresh =
    let same = back-queues err it q s in
    let key = find-key h e s.queues q at in
    let there : has_key h e (with_code err it q) ≡ true = ground (arith, key.0, key.1) in
    let now : find h e (back err it q s).queues ≡ some (with_code err it q) =
      rw same.0 (find_put h e q (with_code err it q) s.queues at there) in
    rw (execute-back err h e it q s at runs, section-finish h e err it q (back err it q s) now)
      (finish_section-told it err (with_code err it q) (back err it q s) (λ b. rw same.1 (fresh b)))

-- What libusb is told of a transfer whose completion in the kernel has this status, cancelled or not.
abbrev pub reported : {K : Type 0} → Driver K → ℕ → Bool → Report
reported d st cancel =
    if st == 0
    then completion completed
    else if cancel
    then cancellation
    else if st == d.err_timeout
    then completion timeout
    else if st == d.err_stalled
    then completion stall
    else completion error

-- The code that _sync_gen_transfer makes of the status.
abbrev code_of_status : {K : Type 0} → Driver K → ℕ → LibusbError
code_of_status d st =
    if st == d.err_timeout
    then timed_out
    else if st == d.err_stalled
    then pipe
    else if not (st == 0)
    then io
    else success

judged-code :
    {K : Type 0} (d : Driver K) (st n : ℕ)
    → returned_code (judged d st n) ≡ some (code_of_status d st)
judged-code d st n = ground arith

judged-told :
    {K : Type 0} (d : Driver K) (st : ℕ) (cancel : Bool)
    → d.err_timeout ≢ 0
    → d.err_stalled ≢ 0
    → told (code_of_status d st) cancel ≡ reported d st cancel
unfolding sdk_aq_status
judged-told d st true t l = ground arith
judged-told d st false t l = ground arith

-- A worker runs a bulk or interrupt transfer of which nothing is recorded, and _sync_gen_transfer
-- comes back with the judgement of a completion. With memory for the result, libusb is then told what
-- the completion's status says: completed for 0; otherwise, if the transfer was cancelled, a
-- cancellation; and else a timeout, a stall or an error.
pub perform-reported :
    {K : Type 0} (d : Driver K) (fuel : ℕ) (r : Request) (hp hp' : HandlePriv) (k k' : K)
    (looks : List Look) (st n h e : ℕ) (it : Transfer) (q : Queue) (s : State)
    → d.err_timeout ≢ 0
    → d.err_stalled ≢ 0
    → sync_gen_transfer d fuel r hp k looks ≡ some (hp', k', judged d st n)
    → find h e s.queues ≡ some q
    → q.worker ≡ executing it
    → take_result it.ptr s.results ≡ none
    → (t : State) × (perform d fuel r hp k looks true h e it.ptr s
        ≡ some (hp', k', t, reported d st q.cancel_cur))
unfolding perform
perform-reported d fuel r hp hp' k k' looks st n h e it q s late stuck came at runs fresh =
    let err = code_of_status d st in
    let report = conclude-told h e it q s err at runs (λ _. fresh) in
    let says = report ∙ judged-told d st q.cancel_cur late stuck in
    ((conclude err true h e it.ptr s).0, rw (came, judged-code d st n, says) refl)
