-- ===== src/Aq/State.antt =====
-- The queues of libusb_bsd_async.inc, and what one critical section does to one queue. A chain of
-- items from head to tail is the list of its transfers; a worker is where its thread stands.
use android_sdk_custom.Prelude.{
  ℕ, List, [], ◌∷◌, ◌++◌, Option, none, some, Bool, true, false, ◌&&◌, not, ◌==◌, if◌then◌else◌,
}
use android_sdk_custom.Libusb.{
  LibusbError, TransferStatus, TransferType, success, no_device, timed_out, overflow, pipe,
  interrupted, no_mem, error, timeout, cancelled, stall, gone, overrun,
}

-- A `struct usbi_transfer` and the fields of its libusb_transfer that are read; `ptr` is its address.
pub record Transfer : Type 0 where
  pub ptr : ℕ
  pub type : TransferType
  pub dev_handle : ℕ
  pub endpoint : ℕ

-- `stopped`: there is no thread. `starting`: it was created and wants the lock. `executing`: it is
-- inside SDK_AQ_SYNC_SUBMIT. `returned`: it came back with that code and wants the lock.
pub data Worker : Type 0 where
  stopped starting : Worker
  executing : Transfer → Worker
  returned : Transfer → LibusbError → Worker

-- `struct sdk_aq` and its thread: `sigurg` is a signal that is not yet delivered, `flag` the
-- thread's sdk_aq_interrupted.
pub record Queue : Type 0 where
  pub handle : ℕ
  pub ep : ℕ
  pub items : List Transfer
  pub cur : Option Transfer
  pub cancel_cur : Bool
  pub running : Bool
  pub worker : Worker
  pub sigurg : Bool
  pub flag : Bool

-- `struct sdk_aq_result`
pub record Result : Type 0 where
  pub it : ℕ
  pub status : TransferStatus

-- `struct sdk_aq_kick` and the rounds that its thread has done.
pub record Kick : Type 0 where
  pub handle : ℕ
  pub ep : ℕ
  pub it : ℕ
  pub round : ℕ

-- The static variables, the threads, and the completions that libusb was told of, newest first.
pub record State : Type 0 where
  pub queues : List Queue
  pub results : List Result
  pub signals : List ℕ
  pub kicks : List Kick
  pub handler_installed : Bool

unfoldable pub init : State
init = record { queues = []; results = []; signals = []; kicks = []; handler_installed = false }

-- A zeroed `struct sdk_aq` with its key.
unfoldable pub fresh : ℕ → ℕ → Queue
fresh h e = record {
  handle = h;
  ep = e;
  items = [];
  cur = none;
  cancel_cur = false;
  running = false;
  worker = stopped;
  sigurg = false;
  flag = false;
}

abbrev pub has_key : ℕ → ℕ → Queue → Bool
has_key h e q = (q.handle == h) && (q.ep == e)

unfoldable pub find : ℕ → ℕ → List Queue → Option Queue
find h e [] = none
find h e (q ∷ qs) = if has_key h e q then some q else find h e qs

-- Put q in the place of the queue with its key.
unfoldable pub replace : Queue → List Queue → List Queue
replace q [] = []
replace q (r ∷ qs) = if has_key q.handle q.ep r then q ∷ qs else r ∷ replace q qs

unfoldable pub sdk_aq_status : LibusbError → Bool → TransferStatus
sdk_aq_status err true = cancelled
sdk_aq_status timed_out false = timeout
sdk_aq_status no_device false = gone
sdk_aq_status pipe false = stall
sdk_aq_status overflow false = overrun
sdk_aq_status interrupted false = cancelled
sdk_aq_status _ false = error

-- sdk_aq_submit, from the append to the tail on: the queue and the value returned.
unfoldable pub enqueue : Bool → Transfer → Queue → Queue × LibusbError
enqueue thread_created it q =
    if not q.running
    then (if thread_created
        then (record q { items = q.items ++ it ∷ []; running = true; worker = starting }, success)
        else (record q { items = [] }, no_mem))
    else (record q { items = q.items ++ it ∷ [] }, success)

-- The head of the worker's loop: take the next item, or leave.
unfoldable pub take_next : Queue → Queue
take_next q = elim q.items [
  | [] ↦ record q { running = false; worker = stopped }
  | it ∷ rest ↦ record q {
    items = rest;
    cur = some it;
    cancel_cur = false;
    flag = false;
    worker = executing it;
  }
]

-- The first item for the transfer, taken out of the chain.
unfoldable pub unlink : ℕ → List Transfer → Option (List Transfer)
unlink p [] = none
unlink p (x ∷ xs) =
    if x.ptr == p then some xs else elim (unlink p xs) [ none ↦ none | some ys ↦ some (x ∷ ys) ]

abbrev pub is_cur : ℕ → Option Transfer → Bool
is_cur p none = false
is_cur p (some it) = it.ptr == p
