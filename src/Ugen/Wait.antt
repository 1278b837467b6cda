-- ===== src/Ugen/Wait.antt =====
-- The wait loop of _sync_gen_transfer: it ends, and the slot is idle behind it.
use android_sdk_custom.Prelude.{
  ℕ, ◌≤◌, ◌<◌, ◌≡◌, ◌≢◌, Option, some, Bool, true, false, List, [], ◌∷◌, ltb, leb, ◌⊎◌, get_or,
  ◌&&◌, ◌||◌,
}
use android_sdk_custom.Libusb.{no_device}
use android_sdk_custom.Ugen.Slots.{HandlePriv, Driver}
use android_sdk_custom.Ugen.Transfer.{Look, Waited, waiting, ended, transferred}
use android_sdk_custom.Ugen.Drain.{CompletionOf, Sourced}
use android_sdk_custom.Ugen.Ready.{Sized}

-- How a round or the loop leaves a slot: idle, whenever it ended for another reason than the device
-- being gone; after a success with the status and length that USB_FS_COMPLETE handed over.
abbrev pub Left : {K : Type 0} → Driver K → ℕ → HandlePriv → Waited → Type 0
Left d slot h waiting = Unit {0}
Left d slot h (ended e) = (e ≡ no_device) ⊎ (get_or h.done slot false ≡ false)
Left d slot h (transferred n) =
    (get_or h.done slot false ≡ false)
    × (get_or h.cstatus slot 0 ≡ 0)
    × (n ≡ get_or h.cactlen slot 0)
    × CompletionOf d slot 0 n

-- The tables have an entry for each slot, and those of this slot come from a completion of it.
abbrev Tracked : {K : Type 0} → Driver K → ℕ → HandlePriv → Type 0
Tracked d slot h = Sized h × Sourced d slot h

record Round {K : Type 0} (d : Driver K) (slot timeout ms : ℕ)
    (o : Option (HandlePriv × K × Waited)) : Type 0 where
  result : HandlePriv × K × Waited
  ends : o ≡ some result
  tracked : Tracked d slot result.0
  left : Left d slot result.0 result.2
  prompt : 0 < timeout → timeout ≤ ms → result.2 ≢ waiting

-- Some round sees that the time is up.
abbrev pub late : ℕ → List Look → Bool
late timeout [] = false
late timeout (look ∷ looks) = (ltb 0 timeout && leb timeout look.ms) || late timeout looks

-- How the loop ends along some looks.
pub record Ended {K : Type 0} (d : Driver K) (slot timeout : ℕ) (looks : List Look)
    (o : Option (HandlePriv × K × Waited)) : Type 0 where
  pub result : HandlePriv × K × Waited
  pub ends : o ≡ some result
  pub left : Left d slot result.0 result.2
  pub prompt : late timeout looks ≡ true → result.2 ≢ waiting
