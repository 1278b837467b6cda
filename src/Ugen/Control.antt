-- ===== src/Ugen/Control.antt =====
-- Control transfers, clear_halt, and the choice between the kinds of transfers in
-- fbsd_submit_transfer.
use android_sdk_custom.Prelude.{
  refl, ◌≡◌, ◌<◌, arith, ℕ, List, [], ◌∷◌, Bool, true, false, not, take, drop, get_or, ◌%◌, ◌/◌,
  ◌≡◌, ◌<◌, if◌then◌else◌,
}
use android_sdk_custom.Libusb.{
  LibusbError, TransferType, success, not_supported, control, isochronous, bulk, interrupt,
  bulk_stream,
}
use android_sdk_custom.Aq.State.{Transfer, State}
use android_sdk_custom.Aq.Handlers.{sync_submit}
use android_sdk_custom.Ugen.Errors.{Reply, failed, answered, errno_to_libusb}

-- `struct usb_ctl_request`: the request's fields are bytes as they are sent.
pub record CtlRequest : Type 0 where
  pub request_type : ℕ
  pub request : ℕ
  pub value : List ℕ
  pub index : List ℕ
  pub length : List ℕ
  pub bytes : List ℕ
  pub short_ok : Bool

-- USB_DO_REQUEST answers the number of bytes transferred.
pub record Requester (K : Type 0) : Type 0 where
  pub do_request : K → CtlRequest → K × Reply ℕ

abbrev pub setup_size : ℕ
setup_size = 8

-- The request of _sync_control_transfer for a buffer that starts with the setup packet.
unfoldable pub request_of : List ℕ → Bool → CtlRequest
request_of buffer short_not_ok = record {
  request_type = get_or buffer 0 0;
  request = get_or buffer 1 0;
  value = take 2 (drop 2 buffer);
  index = take 2 (drop 4 buffer);
  length = take 2 (drop 6 buffer);
  bytes = drop setup_size buffer;
  short_ok = not short_not_ok;
}

-- The two bytes of a 16-bit number as the host stores it, the high one first on a big-endian host.
abbrev pub two_bytes : Bool → ℕ → List ℕ
two_bytes big_endian v =
    let low = v % 256 in
    let high = (v / 256) % 256 in if big_endian then high ∷ low ∷ [] else low ∷ high ∷ []

-- The values of the USB standard.
abbrev pub ut_write_endpoint : ℕ
ut_write_endpoint = 2

abbrev pub ur_clear_feature : ℕ
ur_clear_feature = 1

abbrev pub uf_endpoint_halt : ℕ
uf_endpoint_halt = 0

-- The numbers are copied as the host stores them.
unfoldable pub clear_halt_request : Bool → ℕ → CtlRequest
clear_halt_request big_endian endpoint = record {
  request_type = ut_write_endpoint;
  request = ur_clear_feature;
  value = two_bytes big_endian uf_endpoint_halt;
  index = two_bytes big_endian endpoint;
  length = two_bytes big_endian 0;
  bytes = [];
  short_ok = false;
}

module _ {K : Type 0} (d : Requester K) where
  abbrev pub transferred_of : K × Reply ℕ → K × ℕ × LibusbError
  transferred_of (k, failed e) = (k, 0, errno_to_libusb e)
  transferred_of (k, answered n) = (k, n, success)

  -- The bytes transferred, and the code returned.
  unfoldable pub sync_control_transfer : K → List ℕ → Bool → K × ℕ × LibusbError
  unfolding request_of
  sync_control_transfer k buffer short_not_ok =
      transferred_of (d.do_request k (request_of buffer short_not_ok))

  abbrev pub code_of : K × Reply ℕ → K × LibusbError
  code_of (k, failed e) = (k, errno_to_libusb e)
  code_of (k, answered n) = (k, success)

  unfoldable pub fbsd_clear_halt : Bool → K → ℕ → K × LibusbError
  unfolding clear_halt_request
  fbsd_clear_halt big_endian k endpoint =
      code_of (d.do_request k (clear_halt_request big_endian endpoint))

-- The code of the transfer function that the type selects: of a control transfer, of a bulk or
-- interrupt one.
unfoldable pub dispatch : TransferType → LibusbError → LibusbError → LibusbError
dispatch control of_control of_gen = of_control
dispatch bulk of_control of_gen = of_gen
dispatch interrupt of_control of_gen = of_gen
dispatch isochronous of_control of_gen = not_supported
dispatch bulk_stream of_control of_gen = not_supported

-- The codes are those that _sync_control_transfer and _sync_gen_transfer give; a transfer that
-- succeeds is signalled to libusb.
unfoldable pub fbsd_submit_transfer :
    LibusbError → LibusbError → Transfer → State → State × LibusbError
unfolding dispatch
fbsd_submit_transfer of_control of_gen it s = sync_submit (dispatch it.type of_control of_gen) it s

-- The packet whose two bytes of wIndex are these.
abbrev pub halt_packet : ℕ → ℕ → List ℕ
halt_packet first second = 2 ∷ 1 ∷ 0 ∷ 0 ∷ first ∷ second ∷ 0 ∷ 0 ∷ []

-- The two bytes of an endpoint's address.
two_bytes_small :
    (v : ℕ) → v < 256 → (two_bytes true v ≡ 0 ∷ v ∷ []) × (two_bytes false v ≡ v ∷ 0 ∷ [])
two_bytes_small v lt =
    let low : v % 256 ≡ v = omega arith in
    let high : (v / 256) % 256 ≡ 0 = omega arith in rw (low, high) (refl, refl)

code_of-transferred_of :
    {K : Type 0} (d : Requester K) (r : K × Reply ℕ)
    → code_of d r ≡ ((transferred_of d r).0, (transferred_of d r).2)
code_of-transferred_of d (k, failed e) = refl
code_of-transferred_of d (k, answered n) = refl

-- Clearing a halt is a control transfer of which no short answer is accepted: the same request goes
-- to the kernel, and the same code comes back. On a little-endian host its packet is the standard's
-- CLEAR_FEATURE packet for the endpoint; on a big-endian host the two bytes of wIndex are swapped.
pub clear_halt_control :
    {K : Type 0} (d : Requester K) (big_endian : Bool) (k : K) (endpoint : ℕ)
    → endpoint < 256
    → let packet = if big_endian then halt_packet 0 endpoint else halt_packet endpoint 0 in
      let (k', n, e) = sync_control_transfer d k packet true in
      fbsd_clear_halt d big_endian k endpoint ≡ (k', e)
unfolding sync_control_transfer fbsd_clear_halt request_of clear_halt_request
clear_halt_control d true k endpoint lt =
    let pair = two_bytes_small endpoint lt in
    rw pair.0 (code_of-transferred_of d (d.do_request k (request_of (halt_packet 0 endpoint) true)))
clear_halt_control d false k endpoint lt =
    let pair = two_bytes_small endpoint lt in
    rw pair.1 (code_of-transferred_of d (d.do_request k (request_of (halt_packet endpoint 0) true)))

-- ugen(4) has nothing to claim.
unfoldable pub fbsd_claim_interface : ℕ → LibusbError
fbsd_claim_interface iface = success

unfoldable pub fbsd_release_interface : ℕ → LibusbError
fbsd_release_interface iface = success

-- USB_SET_ALTINTERFACE takes the index of the interface and of the setting.
unfoldable pub fbsd_set_interface_altsetting :
    {K : Type 0} → (K → ℕ → ℕ → K × Reply (Unit {0})) → K → ℕ → ℕ → K × LibusbError
fbsd_set_interface_altsetting set_altinterface k iface altsetting =
    let (k', r) = set_altinterface k iface altsetting in
    (k', elim r [ failed e ↦ errno_to_libusb e | answered _ ↦ success ])
