-- ===== src/Examples/Threads.antt =====
-- A write that starts, drains and stops while a read waits, and a read from its worker to libusb.
use android_sdk_custom.Prelude.{◌≡◌, refl, [], ◌∷◌, some, Bool, true, false, arith, ◌>>=◌}
use android_sdk_custom.Ugen.Slots.{fs_slot, fs_drain, HandlePriv}
use android_sdk_custom.Ugen.Transfer.{Request, Waited, wait_round}
use android_sdk_custom.Libusb.{bulk, completed}
use android_sdk_custom.Aq.State.{unlink, Transfer, Queue, State, executing, find}
use android_sdk_custom.Aq.Handlers.{CancelEnv, cancel_scan, completion, take_result}
use android_sdk_custom.Ugen.Handover.{judged}
use android_sdk_custom.Ugen.Cancel.{
  Settled, after_signal, flag_of, interrupted_queue, cancel_interrupts,
}
use android_sdk_custom.Ugen.Backend.{perform, perform-reported}
use android_sdk_custom.Ugen.Transfer.{sync_gen_transfer}
use android_sdk_custom.Ugen.Threads.{sections}
use android_sdk_custom.Ugen.Handover.{Taken, completion_kept}
use android_sdk_custom.Examples.Kernel.{
  kernel, kernel-Drains, kernel_ports, reading, reading-Holds, writing, quiet,
}

completion_kept_example :
    (r : HandlePriv × Bool × Waited) × (((sections kernel 5 writing reading true >>= λ p.
    wait_round kernel 5 0 0 p.0 p.1 quiet)
        ≡ some r)
      × Taken kernel kernel_ports kernel-Drains 5
          (omega arith)
          0
          0
          10
          129
          (omega arith)
          (omega arith)
          r)
completion_kept_example =
    completion_kept kernel kernel_ports kernel-Drains 5 (omega arith) 0 0 10 129 (omega arith)
      (omega arith) reading true writing 0 quiet reading-Holds
      (omega arith, (omega arith, (omega arith, tt))) refl refl

-- A read that was cancelled while its worker ran it.
abbrev read_transfer : Transfer
read_transfer = record { ptr = 7; type = bulk; dev_handle = 1; endpoint = 129 }

abbrev read_queue : Queue
read_queue = record {
  handle = 1;
  ep = 129;
  items = [];
  cur = some read_transfer;
  cancel_cur = true;
  running = true;
  worker = executing read_transfer;
  sigurg = false;
  flag = false;
}

abbrev one_read : State
one_read = record {
  queues = read_queue ∷ [];
  results = [];
  signals = [];
  kicks = [];
  handler_installed = true;
}

abbrev read_request : Request
read_request = record { endpoint = 129; length = 64; timeout = 0; short_not_ok = false; buffer = 9 }

abbrev after_read : HandlePriv
after_read = record reading {
  ppbuf = 9 ∷ 0 ∷ 0 ∷ 0 ∷ [];
  plen = 10 ∷ 0 ∷ 0 ∷ 0 ∷ [];
  fs_flags = 1 ∷ 0 ∷ 0 ∷ 0 ∷ [];
  cactlen = 10 ∷ 0 ∷ 0 ∷ 0 ∷ [];
}

read_comes_back :
    sync_gen_transfer kernel 5 read_request reading true (quiet ∷ [])
    ≡ some (after_read, false, judged kernel 0 10)
unfolding sync_gen_transfer fs_slot fs_drain
read_comes_back = refl

-- It had completed all the same.
perform-reported_example :
    (t : State) × (perform kernel 5 read_request reading true (quiet ∷ []) true 1 129 7 one_read
      ≡ some (after_read, false, t, completion completed))
unfolding take_result find
perform-reported_example =
    perform-reported kernel 5 read_request reading after_read true false (quiet ∷ []) 0 10 1 129
      read_transfer read_queue one_read (λ z. cc) (λ z. cc) read_comes_back refl refl refl

-- The same read before it was cancelled.
abbrev read_runs : Queue
read_runs = record read_queue { cancel_cur = false }

abbrev reads : State
reads = record one_read { queues = read_runs ∷ [] }

abbrev no_memory : CancelEnv
no_memory = record { result_allocated = false; kick_allocated = false; kick_created = false }

cancel_interrupts_example :
    (find 1 129 (after_signal no_memory 7 read_runs reads).queues
      ≡ some (interrupted_queue read_runs))
    × ((r : HandlePriv × Bool × Bool) × (o : HandlePriv × Bool × Waited) × (fs_drain kernel 5
            reading true
          ≡ some r)
        × (wait_round kernel 5 0 0 reading true (record {
          hangup = false;
          flagged = flag_of 1 129 (after_signal no_memory 7 read_runs reads);
          ms = 5;
        })
            ≡ some o)
        × Settled 0 read_runs read_transfer (after_signal no_memory 7 read_runs reads) r.0 o.2)
unfolding cancel_scan unlink find take_result
cancel_interrupts_example =
    cancel_interrupts kernel kernel-Drains 5 no_memory read_transfer read_runs reads 0 0 5 reading
      true (omega arith) (refl, tt) refl refl refl
