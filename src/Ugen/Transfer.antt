-- ===== src/Ugen/Transfer.antt =====
-- Bulk and interrupt transfers: _sync_gen_transfer, with its start under the lock and its wait loop.
use android_sdk_custom.Prelude.{
  ℕ, List, [], ◌∷◌, Option, some, Bool, false, ◌&&◌, not, ◌==◌, ltb, leb, if◌then◌else◌, ◌>>=◌,
  get_or, set, min,
}
use android_sdk_custom.Libusb.{
  LibusbError, not_supported, no_device, interrupted, timed_out, pipe, io,
}
use android_sdk_custom.Ugen.Errors.{failed, answered, errno_to_libusb}
use android_sdk_custom.Ugen.Slots.{
  HandlePriv, Driver, SlotResult, slot_error, slot_of, fs_slot, fs_drain,
}

-- The fields of the libusb_transfer that are read.
pub record Request : Type 0 where
  pub endpoint : ℕ
  pub length : ℕ
  pub timeout : ℕ
  pub short_not_ok : Bool
  pub buffer : ℕ

-- `IS_XFERIN`: the direction bit of the endpoint's address, a byte.
abbrev pub is_in : Request → Bool
is_in r = leb 128 r.endpoint

-- The slot's buffer, length and flags for the request.
unfoldable pub prepare : {K : Type 0} → Driver K → ℕ → Request → HandlePriv → HandlePriv
prepare d slot r h = record h {
  ppbuf = set h.ppbuf slot r.buffer;
  plen = set h.plen slot r.length;
  done = set h.done slot false;
  fs_status = set h.fs_status slot 0;
  fs_timeout = set h.fs_timeout slot (min r.timeout 0xffff);
  fs_flags = set h.fs_flags slot (if is_in r && not r.short_not_ok then d.single_short_ok else 0);
}

-- What one round of the loop sees: a hangup, error or invalid descriptor from poll; the flag
-- sdk_aq_interrupted; the milliseconds since the start.
pub record Look : Type 0 where
  pub hangup : Bool
  pub flagged : Bool
  pub ms : ℕ

pub data Waited : Type 0 where
  waiting : Waited
  ended : LibusbError → Waited
  transferred : ℕ → Waited

abbrev pub idle : ℕ → HandlePriv → HandlePriv
idle slot h = record h { done = set h.done slot false }

module _ {K : Type 0} (d : Driver K) where
  unfoldable pub start_on : Request → HandlePriv × K × SlotResult → HandlePriv × K × SlotResult
  start_on r (h, k, slot_error e) = (h, k, slot_error e)
  start_on r (h, k, slot_of i) =
      let (k', answer) = d.fs_start k i in
      elim answer [
        | failed e ↦ (prepare d i r h, k', slot_error (errno_to_libusb e))
        | answered _ ↦ (prepare d i r h, k', slot_of i)
      ]

  -- The part under the lock, up to USB_FS_START.
  unfoldable pub start : Request → HandlePriv → K → HandlePriv × K × SlotResult
  unfolding start_on prepare
  start r h k =
      if not h.fs_inited
      then (h, k, slot_error not_supported)
      else start_on r (fs_slot d h k r.endpoint r.length)

  -- The slot's status at its completion.
  unfoldable pub outcome : ℕ → HandlePriv → Waited
  outcome slot h =
      let status = get_or h.cstatus slot 0 in
      if status == d.err_timeout
      then ended timed_out
      else if status == d.err_stalled
      then ended pipe
      else if not (status == 0)
      then ended io
      else transferred (get_or h.cactlen slot 0)

  abbrev pub stopped_round : ℕ → HandlePriv × K × Bool → HandlePriv × K × Waited
  stopped_round slot (h, k, ok) =
      if get_or h.done slot false && (get_or h.cstatus slot 0 == 0)
      then (idle slot h, k, transferred (get_or h.cactlen slot 0))
      else (idle slot h, k, ended interrupted)

  -- `none`: the drain is out of fuel.
  abbrev pub drained_round :
      ℕ → ℕ → ℕ → Look → HandlePriv × K × Bool → Option (HandlePriv × K × Waited)
  drained_round fuel slot timeout look (h, k, ok) =
      let late =
        fs_drain d fuel h (d.fs_stop k slot) >>= λ r. some (idle slot r.0, r.1, ended timed_out) in
      if not ok
      then some (h, k, ended no_device)
      else if get_or h.done slot false
      then some (idle slot h, k, outcome slot h)
      else if ltb 0 timeout && leb timeout look.ms
      then late
      else some (h, k, waiting)

  unfoldable pub wait_round : ℕ → ℕ → ℕ → HandlePriv → K → Look → Option (HandlePriv × K × Waited)
  unfolding outcome
  wait_round fuel slot timeout h k look =
      if look.hangup
      then some (h, k, ended no_device)
      else if look.flagged
      then (fs_drain d fuel h (d.fs_stop k slot) >>= λ r. some (stopped_round slot r))
      else fs_drain d fuel h k >>= drained_round fuel slot timeout look

  -- The loop, along the looks of its rounds; `waiting` if it is still running after them.
  unfoldable pub wait_loop :
      ℕ → ℕ → ℕ → HandlePriv → K → List Look → Option (HandlePriv × K × Waited)
  wait_loop fuel slot timeout h k [] = some (h, k, waiting)
  wait_loop fuel slot timeout h k (look ∷ looks) =
      wait_round fuel slot timeout h k look >>= λ (h', k', w). elim w [
        | waiting ↦ wait_loop fuel slot timeout h' k' looks
        | ended e ↦ some (h', k', ended e)
        | transferred n ↦ some (h', k', transferred n)
      ]

  -- _sync_gen_transfer: the start, and the loop if a transfer was started.
  unfoldable pub sync_gen_transfer :
      ℕ → Request → HandlePriv → K → List Look → Option (HandlePriv × K × Waited)
  unfolding start wait_loop wait_round
  sync_gen_transfer fuel r h k looks =
      let (h', k', s) = start r h k in
      elim s [
        | slot_error e ↦ some (h', k', ended e)
        | slot_of i ↦ wait_loop fuel i r.timeout h' k' looks
      ]
