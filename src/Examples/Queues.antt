-- ===== src/Examples/Queues.antt =====
-- Two transfers on one endpoint: the first runs and is cancelled, then the second is cancelled where
-- it waits.
use android_sdk_custom.Prelude.{◌≡◌, refl, ℕ, List, [], ◌∷◌, ◌⊎◌, true, false, some}
use android_sdk_custom.Libusb.{interrupted, success, not_found, bulk}
use android_sdk_custom.Aq.State.{
  take_next, find, replace, fresh, enqueue, unlink, sdk_aq_status, Transfer, executing, State, init,
}
use android_sdk_custom.Aq.Handlers.{
  worker_section, lookup_or_add, section_of, execute, execute_on, sync_submit, deliver, kick,
  kick_nth, cancel_scan, add_kick, finish_section, SubmitEnv, CancelEnv, submit, cancel,
  finish_locked, handle_completion, take_result, cancellation, kick_round,
}
use android_sdk_custom.Aq.Steps.{
  step, Action, submits, cancels, sections, executes, delivers, kicks, completes, run,
}
use mathlib.Core.List.{Sublist}
use android_sdk_custom.Aq.Order.{performed_along, accepted_along, performed_in_order}
use android_sdk_custom.Aq.Fit.{Fit}
use android_sdk_custom.Aq.Invariant.{run-init-Fit}
use android_sdk_custom.Aq.Load.{load, accepts}
use android_sdk_custom.Aq.Account.{run-init-load}
use android_sdk_custom.Aq.Reports.{busy, cancel_finds, cancel_waiting}

abbrev transfer : ℕ → Transfer
transfer p = record { ptr = p; type = bulk; dev_handle = 1; endpoint = 129 }

abbrev works : SubmitEnv
works = record {
  item_allocated = true;
  queue_allocated = true;
  thread_created = true;
  sync_result = success;
}

abbrev enough_memory : CancelEnv
enough_memory = record { result_allocated = true; kick_allocated = true; kick_created = true }

-- Transfer 10 runs and 20 waits.
abbrev up_to_cancel : List Action
up_to_cancel = submits works (transfer 10) ∷ submits works (transfer 20) ∷ sections true 1 129 ∷ []

abbrev interleaving : List Action
interleaving =
    submits works (transfer 10)
    ∷ submits works (transfer 20)
    ∷ sections true 1 129
    ∷ cancels enough_memory 10
    ∷ kicks 0
    ∷ delivers 1 129
    ∷ executes interrupted 1 129
    ∷ sections true 1 129
    ∷ completes 10
    ∷ executes success 1 129
    ∷ sections true 1 129
    ∷ completes 20
    ∷ []

abbrev one_waiting : State
one_waiting = record {
  queues =
      record {
        handle = 1;
        ep = 129;
        items = transfer 20 ∷ [];
        cur = some (transfer 10);
        cancel_cur = false;
        running = true;
        worker = executing (transfer 10);
        sigurg = false;
        flag = false;
      }
      ∷ [];
  results = [];
  signals = [];
  kicks = [];
  handler_installed = true;
}

run_test : run up_to_cancel init ≡ one_waiting
unfolding run step worker_section find submit lookup_or_add init replace fresh enqueue section_of
    take_next
run_test = refl

signals_test : (run interleaving init).signals ≡ 20 ∷ 10 ∷ []
unfolding run step worker_section find submit lookup_or_add init replace fresh enqueue section_of
    take_next handle_completion take_result execute execute_on sync_submit deliver kick kick_nth
    kick_round cancel cancel_scan unlink add_kick finish_section finish_locked sdk_aq_status
signals_test = refl

run-init-load_example : load 10 (run interleaving init) ≡ accepts 10 interleaving init
run-init-load_example = run-init-load 10 interleaving

run-init-Fit_example : Fit (run interleaving init).queues
run-init-Fit_example = run-init-Fit interleaving

cancel_waiting_example :
    let (t, ret) = cancel enough_memory 20 one_waiting in
    (ret ≡ success) × (t.signals ≡ 20 ∷ []) × ((handle_completion 20 t).1 ≡ cancellation)
cancel_waiting_example = cancel_waiting enough_memory 20 one_waiting refl refl refl

cancel_finds_example :
    ((busy 30 one_waiting.queues ≡ true) × ((cancel enough_memory 30 one_waiting).1 ≡ success))
    ⊎ ((busy 30 one_waiting.queues ≡ false)
        × (cancel enough_memory 30 one_waiting ≡ (one_waiting, not_found)))
cancel_finds_example = cancel_finds enough_memory 30 one_waiting

performed_in_order_example :
    Sublist (transfer 10 ∷ transfer 20 ∷ []) (transfer 10 ∷ transfer 20 ∷ [])
unfolding run step submit lookup_or_add find fresh replace enqueue worker_section section_of
    take_next cancel cancel_scan unlink add_kick finish_section finish_locked sdk_aq_status execute
    execute_on sync_submit deliver kick kick_nth kick_round handle_completion take_result init
    performed_along accepted_along
performed_in_order_example = performed_in_order 1 129 interleaving
