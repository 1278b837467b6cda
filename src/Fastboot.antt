-- ===== src/Fastboot.antt =====
-- patches/sources/fastboot_usb_libusb.cpp: fastboot's transport over libusb. libusb is a record of
-- operations on a state of its own; devices, handles and contexts are numbers.
pub mod Open
pub mod Stream
pub mod Resources
pub mod Growth
pub mod Balance
pub mod Endpoints
pub mod Choice
use android_sdk_custom.Prelude.{
  ℕ, zero, suc, ◌+◌, ◌%◌, List, [], ◌∷◌, Option, none, some, Bool, true, false, ◌&&◌, ◌==◌, leb,
  take, drop, length, min,
}

abbrev pub bulk_chunk : ℕ
bulk_chunk = 16384

-- A libusb_endpoint_descriptor.
pub record Endpoint : Type 0 where
  pub address : ℕ
  pub attributes : ℕ

-- A libusb_interface_descriptor.
pub record Setting : Type 0 where
  pub number : ℕ
  pub class : ℕ
  pub subclass : ℕ
  pub protocol : ℕ
  pub endpoints : List Endpoint

-- A libusb_device_descriptor.
pub record DeviceDescriptor : Type 0 where
  pub vendor : ℕ
  pub product : ℕ
  pub class : ℕ
  pub subclass : ℕ
  pub protocol : ℕ
  pub serial_number : ℕ

-- libusb, as the file calls it. `none` is an error; of a bulk transfer it is any code but 0. An active
-- configuration is the list of its interfaces, each a list of alternate settings.
pub record Usb (L : Type 0) : Type 0 where
  pub init : L → L × Option ℕ
  pub exit : L → ℕ → L
  pub get_device_list : L → ℕ → L × Option (List ℕ)
  pub free_device_list : L → Bool → L
  pub device_descriptor : L → ℕ → L × Option DeviceDescriptor
  pub active_config : L → ℕ → L × Option (List (List Setting))
  pub free_config : L → L
  pub bus_number : ℕ → ℕ
  pub device_address : ℕ → ℕ
  pub open_device : L → ℕ → L × Option ℕ
  pub close_device : L → ℕ → L
  pub string_descriptor : L → ℕ → ℕ → L × List ℕ
  pub auto_detach : L → ℕ → L
  pub claim : L → ℕ → ℕ → L × Bool
  pub release : L → ℕ → ℕ → L
  pub reset : L → ℕ → L × Bool
  pub bulk_out : L → ℕ → ℕ → List ℕ → ℕ → L × Option ℕ
  pub bulk_in : L → ℕ → ℕ → ℕ → ℕ → L × Option (List ℕ)

-- `class LibusbTransport`; no interface stands for -1.
pub record Transport : Type 0 where
  pub ctx : Option ℕ
  pub handle : Option ℕ
  pub interface : Option ℕ
  pub ep_in : ℕ
  pub ep_out : ℕ
  pub timeout_ms : ℕ

module _ {L : Type 0} (u : Usb L) where
  -- The loop of Write on the data that is left, with fuel; the number of bytes, or `none` for -1.
  unfoldable pub write_loop : ℕ → ℕ → Transport → ℕ → List ℕ → L → Option (L × Option ℕ)
  write_loop zero handle t count rest l = none
  write_loop (suc fuel) handle t count [] l = some (l, some count)
  write_loop (suc fuel) handle t count (b ∷ rest) l =
      let (l', r) = u.bulk_out l handle t.ep_out (take bulk_chunk (b ∷ rest)) t.timeout_ms in
      elim r [
        | none ↦ some (l', none)
        | some n ↦ write_loop fuel handle t (count + n) (drop n (b ∷ rest)) l'
      ]

  unfoldable pub write : ℕ → Transport → List ℕ → L → Option (L × Option ℕ)
  unfolding write_loop
  write fuel t bytes l = elim t.handle [
    | none ↦ some (l, none)
    | some handle ↦ write_loop fuel handle t 0 bytes l
  ]

  -- The bytes read, or `none` for -1.
  unfoldable pub read : Transport → ℕ → L → L × Option (List ℕ)
  read t len l = elim t.handle [
    | none ↦ (l, none)
    | some handle ↦ u.bulk_in l handle t.ep_in (min len bulk_chunk) t.timeout_ms
  ]

  abbrev pub release_of : Option ℕ → ℕ → L → L
  release_of none handle l = l
  release_of (some i) handle l = u.release l handle i

  abbrev pub close_handle : Option ℕ → Option ℕ → L → L
  close_handle none i l = l
  close_handle (some handle) i l = u.close_device (release_of i handle l) handle

  abbrev pub exit_context : Option ℕ → L → L
  exit_context none l = l
  exit_context (some c) l = u.exit l c

  -- Close, which the destructor calls too.
  unfoldable pub close : Transport → L → Transport × L
  close t l = (
    record t { ctx = none; handle = none },
    exit_context t.ctx (close_handle t.handle t.interface l),
  )

  unfoldable pub reset : Transport → L → L × Bool
  reset t l = elim t.handle [ none ↦ (l, false) | some handle ↦ u.reset l handle ]

-- `usb_ifc_info`; the device path is made of the bus and the address.
pub record IfcInfo : Type 0 where
  pub dev_vendor : ℕ
  pub dev_product : ℕ
  pub dev_class : ℕ
  pub dev_subclass : ℕ
  pub dev_protocol : ℕ
  pub ifc_class : ℕ
  pub ifc_subclass : ℕ
  pub ifc_protocol : ℕ
  pub has_bulk_in : Bool
  pub has_bulk_out : Bool
  pub writable : Bool
  pub serial_number : List ℕ
  pub device_path : ℕ × ℕ

-- The type bits of the attributes, and the direction bit of the address.
abbrev pub is_bulk : Endpoint → Bool
is_bulk e = e.attributes % 4 == 2

abbrev pub is_in : Endpoint → Bool
is_in e = leb 128 (e.address % 256)

-- The info with the endpoints' addresses: in, out.
pub record Filled : Type 0 where
  pub info : IfcInfo
  pub ep_in : ℕ
  pub ep_out : ℕ

-- With the type and the direction of the endpoint.
abbrev pub placed : Bool → Bool → Endpoint → Filled → Filled
placed true true e f = record f { ep_in = e.address; info = record f.info { has_bulk_in = true } }
placed true false e f = record f {
  ep_out = e.address;
  info = record f.info { has_bulk_out = true };
}
placed false i e f = f

unfoldable pub fill_endpoints : List Endpoint → Filled → Filled
fill_endpoints [] f = f
fill_endpoints (e ∷ es) f = fill_endpoints es (placed (is_bulk e) (is_in e) e f)

abbrev pub blank_info : DeviceDescriptor → Setting → ℕ → ℕ → IfcInfo
blank_info dd id bus addr = record {
  dev_vendor = dd.vendor;
  dev_product = dd.product;
  dev_class = dd.class;
  dev_subclass = dd.subclass;
  dev_protocol = dd.protocol;
  ifc_class = id.class;
  ifc_subclass = id.subclass;
  ifc_protocol = id.protocol;
  has_bulk_in = false;
  has_bulk_out = false;
  writable = true;
  serial_number = [];
  device_path = (bus, addr);
}

unfoldable pub fill_ifc_info : DeviceDescriptor → Setting → ℕ → ℕ → Filled
unfolding fill_endpoints
fill_ifc_info dd id bus addr =
    fill_endpoints id.endpoints (record { info = blank_info dd id bus addr; ep_in = 0; ep_out = 0 })
