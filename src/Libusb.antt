-- ===== src/Libusb.antt =====
-- The libusb enumerations that the backends use: error codes, transfer states and transfer types.
-- They are libusb's; the sources only name them.
use mathlib.Core.Bool.{Bool, true, false}

-- `success` is 0, and every other code is negative.
pub data LibusbError : Type 0 where
  success io access no_device not_found busy timed_out overflow pipe interrupted : LibusbError
  no_mem not_supported other : LibusbError

pub data TransferStatus : Type 0 where
  completed error timeout cancelled stall gone overrun : TransferStatus

pub data TransferType : Type 0 where
  control isochronous bulk interrupt bulk_stream : TransferType

abbrev pub is_success : LibusbError → Bool
is_success success = true
is_success _ = false
