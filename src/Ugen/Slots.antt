-- ===== src/Ugen/Slots.antt =====
-- The USB-FS endpoint slots of a handle: fbsd_open, fbsd_close, _fs_slot and _fs_drain.
use android_sdk_custom.Prelude.{
  ℕ, zero, suc, ◌+◌, List, [], ◌∷◌, Option, none, some, Bool, true, false, not, ◌==◌, ltb, leb,
  if◌then◌else◌, get_or, set, replicate,
}
use android_sdk_custom.Libusb.{LibusbError, no_mem, success}
use android_sdk_custom.Ugen.Errors.{ebusy, Reply, failed, answered, errno_to_libusb}

abbrev pub nfsep : ℕ
nfsep = 4

-- `struct handle_priv`; `fs_status` and `fs_flags` are those of `fsep`, and a pointer is a number.
-- Without a descriptor the handle is closed.
pub record HandlePriv : Type 0 where
  pub fd : Option ℕ
  pub fs_inited : Bool
  pub fs_status : List ℕ
  pub fs_timeout : List ℕ
  pub fs_flags : List ℕ
  pub ppbuf : List ℕ
  pub plen : List ℕ
  pub ep_no : List ℕ
  pub ep_bufsize : List ℕ
  pub done : List Bool
  pub cstatus : List ℕ
  pub cactlen : List ℕ

-- The handle after the memset of fbsd_open.
pub zeroed : HandlePriv
zeroed = record {
  fd = none;
  fs_inited = false;
  fs_status = replicate nfsep 0;
  fs_timeout = replicate nfsep 0;
  fs_flags = replicate nfsep 0;
  ppbuf = replicate nfsep 0;
  plen = replicate nfsep 0;
  ep_no = replicate nfsep 0;
  ep_bufsize = replicate nfsep 0;
  done = replicate nfsep false;
  cstatus = replicate nfsep 0;
  cactlen = replicate nfsep 0;
}

-- `open` answers a descriptor, and USB_FS_INIT whether it succeeds.
unfoldable pub fbsd_open : Reply ℕ → Bool → HandlePriv × LibusbError
unfolding zeroed
fbsd_open (failed e) init_ok = (zeroed, errno_to_libusb e)
fbsd_open (answered fd) init_ok = (record zeroed { fd = some fd; fs_inited = init_ok }, success)

-- The indices that fbsd_close gives to USB_FS_CLOSE.
unfoldable pub bound_slots : ℕ → List ℕ → List ℕ
bound_slots i [] = []
bound_slots i (e ∷ es) = let rest = bound_slots (i + 1) es in if e == 0 then rest else i ∷ rest

-- The new handle, and the slots closed before USB_FS_UNINIT.
unfoldable pub fbsd_close : HandlePriv → HandlePriv × List ℕ
fbsd_close h = (record h { fd = none }, if h.fs_inited then bound_slots 0 h.ep_no else [])

-- The loop of _fs_slot over ep_no: the slot bound to ep, and the first free one before it.
unfoldable pub scan : ℕ → ℕ → Option ℕ → List ℕ → Option ℕ × Option ℕ
scan ep i free [] = (none, free)
scan ep i free (e ∷ es) =
    let first : Option ℕ = elim free [ some f ↦ some f | none ↦ if e == 0 then some i else none ] in
    let rest = scan ep (i + 1) first es in if e == ep then (some i, free) else rest

-- `if (need == 0) need = 1; if (need > USB_FS_MAX_BUFSIZE) need = USB_FS_MAX_BUFSIZE;`
unfoldable pub clamp : ℕ → ℕ → ℕ
clamp max_bufsize need =
    let need' : ℕ = if need == 0 then 1 else need in
    if ltb max_bufsize need' then max_bufsize else need'

-- `struct usb_fs_open`
pub record FsOpen : Type 0 where
  pub ep_index : ℕ
  pub ep_no : ℕ
  pub max_bufsize : ℕ

-- What a completion reports: the index, and the status and length that the kernel copies out.
pub record Completion : Type 0 where
  pub ep_index : ℕ
  pub status : ℕ
  pub length : ℕ

-- The kernel's side: USB_FS_OPEN answers the buffer size that it grants.
pub record Driver (K : Type 0) : Type 0 where
  pub fs_open : K → FsOpen → K × Reply ℕ
  pub fs_close : K → ℕ → K
  pub fs_start : K → ℕ → K × Reply (Unit {0})
  pub fs_stop : K → ℕ → K
  pub fs_complete : K → K × Reply Completion
  pub fs_max_bufsize : ℕ
  pub err_timeout : ℕ
  pub err_stalled : ℕ
  pub single_short_ok : ℕ

module _ {K : Type 0} (d : Driver K) where
  -- The end of _fs_slot: open the slot for ep.
  unfoldable pub open_slot : ℕ → ℕ → ℕ → HandlePriv → K × Reply ℕ → HandlePriv × K × Reply ℕ
  open_slot slot ep need h (k, failed e) = (h, k, failed e)
  open_slot slot ep need h (k, answered granted) = (
    record h { ep_no = set h.ep_no slot ep; ep_bufsize = set h.ep_bufsize slot granted },
    k,
    answered slot,
  )

  -- `reopen larger`: close the slot if it is bound.
  unfoldable pub release_slot : ℕ → HandlePriv → K → HandlePriv × K
  release_slot slot h k =
      if not (get_or h.ep_no slot 0 == 0)
      then (record h { ep_no = set h.ep_no slot 0 }, d.fs_close k slot)
      else (h, k)

  unfoldable pub reopen : ℕ → ℕ → ℕ → HandlePriv → K → HandlePriv × K × Reply ℕ
  unfolding open_slot release_slot clamp
  reopen slot ep need h k =
      let (h', k') = release_slot slot h k in
      open_slot slot ep need h' (
        d.fs_open k'
          (record { ep_index = slot; ep_no = ep; max_bufsize = clamp d.fs_max_bufsize need }))

-- A negative slot is an error code of libusb.
pub data SlotResult : Type 0 where
  slot_error : LibusbError → SlotResult
  slot_of : ℕ → SlotResult

module _ {K : Type 0} where
  abbrev pub slot_reply : HandlePriv × K × Reply ℕ → HandlePriv × K × SlotResult
  slot_reply (h, k, failed e) = (h, k, slot_error (errno_to_libusb e))
  slot_reply (h, k, answered i) = (h, k, slot_of i)

-- One completion: what the kernel copies out, and the per-slot table.
unfoldable pub complete_one : HandlePriv → Completion → HandlePriv
complete_one h c =
    let out : HandlePriv = record h {
      fs_status = set h.fs_status c.ep_index c.status;
      plen = set h.plen c.ep_index c.length;
    } in
    if ltb c.ep_index nfsep
    then record out {
      done = set out.done c.ep_index true;
      cstatus = set out.cstatus c.ep_index (get_or out.fs_status c.ep_index 0);
      cactlen = set out.cactlen c.ep_index (get_or out.plen c.ep_index 0);
    }
    else out

module _ {K : Type 0} (d : Driver K) where
  abbrev pub choose : ℕ → ℕ → HandlePriv → K → Option ℕ × Option ℕ → HandlePriv × K × SlotResult
  choose ep need h k (some i, free) =
      if leb need (get_or h.ep_bufsize i 0)
      then (h, k, slot_of i)
      else slot_reply (reopen d i ep need h k)
  choose ep need h k (none, some i) = slot_reply (reopen d i ep need h k)
  choose ep need h k (none, none) = (h, k, slot_error no_mem)

  unfoldable pub fs_slot : HandlePriv → K → ℕ → ℕ → HandlePriv × K × SlotResult
  unfolding scan
  fs_slot h k ep need = choose ep need h k (scan ep 0 none h.ep_no)

  -- `none`: out of fuel. The Boolean is false if the device went away.
  unfoldable pub fs_drain : ℕ → HandlePriv → K → Option (HandlePriv × K × Bool)
  unfolding complete_one
  fs_drain zero h k = none
  fs_drain (suc fuel) h k =
      let (k', r) = d.fs_complete k in
      elim r [
        | failed e ↦ some (h, k', elim e [ ebusy ↦ true | _ ↦ false ])
        | answered c ↦ fs_drain fuel (complete_one h c) k'
      ]
