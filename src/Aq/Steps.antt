-- ===== src/Aq/Steps.antt =====
-- The interleavings of the callers and threads of libusb_bsd_async.inc, as sequences of actions.
use android_sdk_custom.Prelude.{ℕ, List, [], ◌∷◌, Bool}
use android_sdk_custom.Libusb.{LibusbError}
use android_sdk_custom.Aq.State.{Transfer, State}
use android_sdk_custom.Aq.Handlers.{
  SubmitEnv, CancelEnv, submit, cancel, worker_section, execute, deliver, kick, handle_completion,
}

pub data Action : Type 0 where
  submits : SubmitEnv → Transfer → Action
  cancels : CancelEnv → ℕ → Action
  sections : Bool → ℕ → ℕ → Action
  executes : LibusbError → ℕ → ℕ → Action
  delivers : ℕ → ℕ → Action
  kicks : ℕ → Action
  completes : ℕ → Action

-- An action that is not possible in a state leaves it as it is.
unfoldable pub step : Action → State → State
step (submits env it) s = (submit env it s).0
step (cancels env p) s = (cancel env p s).0
step (sections allocated h e) s = worker_section allocated h e s
step (executes err h e) s = execute err h e s
step (delivers h e) s = deliver h e s
step (kicks n) s = kick n s
step (completes p) s = (handle_completion p s).0

unfoldable pub run : List Action → State → State
run [] s = s
run (a ∷ rest) s = run rest (step a s)
