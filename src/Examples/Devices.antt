-- ===== src/Examples/Devices.antt =====
-- A device whose descriptor has nine bytes, and its control requests.
use android_sdk_custom.Prelude.{
  zero, suc, refl, ◌+◌, ◌≡◌, ℕ, List, [], ◌∷◌, ◌⊎◌, some, none, true, arith, replicate, take, min,
  length, ◌≤◌, length-take-le, suc, false,
}
use android_sdk_custom.Libusb.{LibusbError, success, not_found}
use android_sdk_custom.Ugen.Errors.{failed, answered, eio}
use android_sdk_custom.Ugen.Descriptors.{
  DevicePriv, Device, fbsd_set_configuration, fbsd_get_active_config_descriptor,
}
use android_sdk_custom.Ugen.Cached.{
  Cached, Laws, Refreshed, fbsd_set_configuration_lem, get_active_lem,
}
use android_sdk_custom.Ugen.Control.{
  Requester, sync_control_transfer, fbsd_clear_halt, clear_halt_control, halt_packet,
}

abbrev blob : List ℕ
blob = 9 ∷ 2 ∷ 9 ∷ 0 ∷ 1 ∷ 1 ∷ 0 ∷ 128 ∷ 50 ∷ []

abbrev device : Device (Unit {0})
device = record {
  device_info = λ k. (k, answered (record { config_no = 1; config_index = 0 }));
  full_desc = λ k n i. (k, answered (take n blob));
  malloc = λ k n. (k, some (replicate n 0));
  devnode = b'/' ∷ b'd' ∷ [];
  o_rdonly = 0;
  open_path = λ k path mode. (k, answered tt);
  set_config = λ k c. (k, answered tt);
  get_config = λ k. (k, answered 1);
}

abbrev unread : DevicePriv
unread = record { cdesc = none; cdesc_len = 0; cval = 0 }

abbrev cached : DevicePriv
cached = record { cdesc = some blob; cdesc_len = 9; cval = 1 }

device-within :
    (k : Unit {0}) (n i : ℕ) (w : List ℕ) → (device.full_desc k n i).1 ≡ answered w → length w ≤ n
device-within k n i w e = let q : take n blob ≡ w = cc in rw (← q) (length-take-le n blob)

length-replicate : (n : ℕ) → length (replicate {A = ℕ} n 0) ≡ n
length-replicate zero = refl
length-replicate (suc n) = omega (arith, length-replicate n)

device-allocated :
    (k : Unit {0}) (n : ℕ) (buf : List ℕ) → (device.malloc k n).1 ≡ some buf → length buf ≡ n
device-allocated k n buf e = let q : replicate n 0 ≡ buf = cc in rw (← q) (length-replicate n)

device-Laws : Laws device
device-Laws = record { within = device-within; allocated = device-allocated }

fbsd_set_configuration_lem_example :
    (r : DevicePriv × Unit {0} × LibusbError) × (fbsd_set_configuration device unread tt 1 ≡ some r)
    × Cached r.0
    × Refreshed device (answered tt) none 0 r.0 r.2
fbsd_set_configuration_lem_example = fbsd_set_configuration_lem device unread tt 1 device-Laws tt

get_active_lem_example :
    ((cached.cdesc ≡ none) × (fbsd_get_active_config_descriptor cached 4 ≡ some (not_found, [])))
    ⊎ ((buf : List ℕ) × (cached.cdesc ≡ some buf)
        × (fbsd_get_active_config_descriptor cached 4 ≡ some (success, take (min 4 9) buf)))
get_active_lem_example = get_active_lem cached 4 (omega arith)

-- It counts the requests.
abbrev requester : Requester ℕ
requester = record { do_request = λ k r. (k + 1, failed eio) }

clear_halt_control_example :
    let (k, n, e) = sync_control_transfer requester 5 (halt_packet 129 0) true in
    fbsd_clear_halt requester false 5 129 ≡ (k, e)
clear_halt_control_example = clear_halt_control requester false 5 129 (omega arith)
