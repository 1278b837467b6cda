-- ===== src/Aq/Handlers.antt =====
-- The functions of libusb_bsd_async.inc on the whole state, each critical section a function. What
-- an allocation or the creation of a thread gives is an argument.
use android_sdk_custom.Prelude.{
  ℕ, List, [], ◌∷◌, Option, none, some, Bool, true, false, ◌&&◌, ◌||◌, not, ◌+◌, ◌==◌, ltb,
  if◌then◌else◌,
}
use android_sdk_custom.Libusb.{
  LibusbError, TransferStatus, TransferType, success, no_mem, not_found, completed, cancelled, bulk,
  interrupt, is_success,
}
use android_sdk_custom.Aq.State.{
  Transfer, Worker, stopped, starting, executing, returned, Queue, Result, Kick, State, fresh, find,
  replace, sdk_aq_status, enqueue, take_next, unlink, is_cur,
}

-- `usbi_signal_transfer_completion`
abbrev pub signal : ℕ → State → State
signal p s = record s { signals = p ∷ s.signals }

unfoldable pub finish_locked : Bool → ℕ → TransferStatus → State → State
finish_locked allocated p status s =
    signal p (
      if allocated
      then record s { results = record { it = p; status = status } ∷ s.results }
      else s)

-- The backend's own submit, with the code that its transfer function gave.
unfoldable pub sync_submit : LibusbError → Transfer → State → State × LibusbError
sync_submit err it s = if is_success err then (signal it.ptr s, success) else (s, err)

abbrev pub is_async : TransferType → Bool
is_async bulk = true
is_async interrupt = true
is_async _ = false

-- What the environment answers to one call of sdk_aq_submit.
pub record SubmitEnv : Type 0 where
  pub item_allocated : Bool
  pub queue_allocated : Bool
  pub thread_created : Bool
  pub sync_result : LibusbError

-- The lookup, with a new queue in front if there is none.
unfoldable pub lookup_or_add : Bool → ℕ → ℕ → List Queue → Option (Queue × List Queue)
lookup_or_add allocated h e qs = elim (find h e qs) [
  | some q ↦ some (q, qs)
  | none ↦ if allocated then some (fresh h e, fresh h e ∷ qs) else none
]

abbrev pub with_queues : State → List Queue → State
with_queues s qs = record s { queues = qs }

unfoldable pub submit : SubmitEnv → Transfer → State → State × LibusbError
submit env it s =
    let installed : State = record s { handler_installed = true } in
    if not (is_async it.type)
    then sync_submit env.sync_result it s
    else if not env.item_allocated
    then (installed, no_mem)
    else elim (lookup_or_add env.queue_allocated it.dev_handle it.endpoint s.queues) [
      | none ↦ (installed, no_mem)
      | some (q, qs) ↦
          let (q', err) = enqueue env.thread_created it q in
          (with_queues installed (replace q' qs), err)
    ]

-- Where a cancel finds the transfer: in a queue; running, and not yet cancelled; running and
-- cancelled before; nowhere.
pub data Place : Type 0 where
  queued : Place
  running_on : Queue → Place
  cancelled_before nowhere : Place

-- The loop of sdk_aq_cancel over the queues, with the writes that it makes to them.
unfoldable pub cancel_scan : ℕ → List Queue → List Queue × Place
cancel_scan p [] = ([], nowhere)
cancel_scan p (q ∷ qs) =
    let rest : List Queue × Place = cancel_scan p qs in
    let later : List Queue × Place = (q ∷ rest.0, rest.1) in
    elim (unlink p q.items) [
      | some items ↦ (record q { items = items } ∷ qs, queued)
      | none ↦
          if is_cur p q.cur
          then (if not q.cancel_cur
              then (record q { cancel_cur = true; sigurg = true } ∷ qs, running_on q)
              else (q ∷ qs, cancelled_before))
          else later
    ]

pub record CancelEnv : Type 0 where
  pub result_allocated : Bool
  pub kick_allocated : Bool
  pub kick_created : Bool

unfoldable pub add_kick : CancelEnv → ℕ → Queue → State → State
add_kick env p q s =
    if env.kick_allocated && env.kick_created
    then record s { kicks = record { handle = q.handle; ep = q.ep; it = p; round = 0 } ∷ s.kicks }
    else s

-- The FreeBSD backend defines no SDK_AQ_SYNC_CANCEL.
unfoldable pub cancel : CancelEnv → ℕ → State → State × LibusbError
cancel env p s =
    let (qs, place) = cancel_scan p s.queues in
    elim place [
      | queued ↦ (finish_locked env.result_allocated p cancelled (with_queues s qs), success)
      | running_on q ↦ (add_kick env p q (with_queues s qs), success)
      | cancelled_before ↦ (s, success)
      | nowhere ↦ (s, not_found)
    ]

-- From the return of the submit to the next one: report, then take the next item.
unfoldable pub finish_section : Bool → Transfer → LibusbError → Queue → State → State
finish_section allocated it err q s =
    let t = with_queues s (replace (take_next (record q { cur = none })) s.queues) in
    if is_success err then t else finish_locked allocated it.ptr (sdk_aq_status err q.cancel_cur) t

unfoldable pub section_of : Bool → Worker → Queue → State → State
section_of allocated stopped q s = s
section_of allocated starting q s = with_queues s (replace (take_next q) s.queues)
section_of allocated (executing it) q s = s
section_of allocated (returned it err) q s = finish_section allocated it err q s

-- One critical section of the worker of a queue.
unfoldable pub worker_section : Bool → ℕ → ℕ → State → State
worker_section allocated h e s = elim (find h e s.queues) [
  | none ↦ s
  | some q ↦ section_of allocated q.worker q s
]

unfoldable pub execute_on : LibusbError → Worker → Queue → State → State
execute_on err (executing it) q s =
    (sync_submit err it
      (with_queues s (replace (record q { worker = returned it err }) s.queues))).0
execute_on err _ q s = s

-- SDK_AQ_SYNC_SUBMIT in the worker of a queue, which comes back with this code.
unfoldable pub execute : LibusbError → ℕ → ℕ → State → State
execute err h e s = elim (find h e s.queues) [ none ↦ s | some q ↦ execute_on err q.worker q s ]

-- A SIGURG reaches the worker's thread and runs sdk_aq_on_signal.
unfoldable pub deliver : ℕ → ℕ → State → State
deliver h e s = elim (find h e s.queues) [
  | none ↦ s
  | some q ↦
      if q.sigurg
      then with_queues s (replace (record q { sigurg = false; flag = true }) s.queues)
      else s
]

abbrev pub max_rounds : ℕ
max_rounds = 600

-- One round of sdk_aq_kicker: the queues, and the kick if its thread goes on.
unfoldable pub kick_round : Kick → List Queue → List Queue × Option Kick
kick_round k qs =
    if ltb k.round max_rounds
    then elim (find k.handle k.ep qs) [
      | none ↦ (qs, none)
      | some q ↦
          if not (is_cur k.it q.cur) || not q.cancel_cur
          then (qs, none)
          else (replace (record q { sigurg = true }) qs, some (record k { round = k.round + 1 }))
    ]
    else (qs, none)

abbrev pub keep : Option Kick → List Kick → List Kick
keep none ks = ks
keep (some k) ks = k ∷ ks

-- A round of the n-th kicker.
unfoldable pub kick_nth : ℕ → List Kick → List Queue → List Queue × List Kick
kick_nth n [] qs = (qs, [])
kick_nth ℕ.zero (k ∷ ks) qs = let (qs', k') = kick_round k qs in (qs', keep k' ks)
kick_nth (ℕ.suc n) (k ∷ ks) qs = let (qs', ks') = kick_nth n ks qs in (qs', k ∷ ks')

unfoldable pub kick : ℕ → State → State
kick n s = let (qs, ks) = kick_nth n s.kicks s.queues in record s { queues = qs; kicks = ks }

-- What libusb is told: usbi_handle_transfer_cancellation or usbi_handle_transfer_completion.
pub data Report : Type 0 where
  cancellation : Report
  completion : TransferStatus → Report

-- The first result for the transfer, and the others.
unfoldable pub take_result : ℕ → List Result → Option (TransferStatus × List Result)
take_result p [] = none
take_result p (r ∷ rs) =
    if r.it == p
    then some (r.status, rs)
    else elim (take_result p rs) [ none ↦ none | some (st, rest) ↦ some (st, r ∷ rest) ]

abbrev pub report_of : TransferStatus → Report
report_of cancelled = cancellation
report_of st = completion st

-- SDK_AQ_SYNC_HANDLE of libusb_freebsd_usb.c.
abbrev pub fbsd_handle_transfer_completion : Report
fbsd_handle_transfer_completion = completion completed

-- Without a result it is the backend's own handler.
unfoldable pub handle_completion : ℕ → State → State × Report
handle_completion p s = elim (take_result p s.results) [
  | none ↦ (s, fbsd_handle_transfer_completion)
  | some (st, rest) ↦ (record s { results = rest }, report_of st)
]
