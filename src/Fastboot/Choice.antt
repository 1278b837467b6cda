-- ===== src/Fastboot/Choice.antt =====
-- Which interface usb_open takes.
use mathlib.Core.Path.{subst}
use android_sdk_custom.Prelude.{
  ℕ, ◌%◌, ◌≤◌, ◌<◌, ◌≡◌, refl, List, [], ◌∷◌, Option, none, some, Bool, true, false, ◌&&◌,
  Bool-cases, inl, inr, arith,
}
use android_sdk_custom.Fastboot.{
  Setting, DeviceDescriptor, Usb, Transport, IfcInfo, Filled, fill_ifc_info,
}
use android_sdk_custom.Fastboot.Open.{
  serial_of, transport_for, wanted, claimed, with_serial, opened, try_setting, settings_loop,
  interfaces_loop, with_config, with_descriptor, devices_loop, listed, finished, with_context,
  initialised, usb_open,
}
use android_sdk_custom.Fastboot.Endpoints.{fill_ifc_info-directed}

-- What a transport that usb_open returns was made of: `serial` is what was read of the serial number.
pub record Chosen (callback : IfcInfo → Bool) (timeout_ms : ℕ) (t : Transport) : Type 0 where
  pub descriptor : DeviceDescriptor
  pub setting : Setting
  pub bus : ℕ
  pub addr : ℕ
  pub serial : List ℕ
  pub accepted :
      callback (record (fill_ifc_info descriptor setting bus addr).info { serial_number = serial })
      ≡ true
  pub interface : t.interface ≡ some setting.number
  pub ep_in : t.ep_in ≡ (fill_ifc_info descriptor setting bus addr).ep_in
  pub ep_out : t.ep_out ≡ (fill_ifc_info descriptor setting bus addr).ep_out
  pub timeout : t.timeout_ms ≡ timeout_ms
  pub reads : 128 ≤ t.ep_in % 256
  pub writes : t.ep_out % 256 < 128

abbrev Each : (Transport → Type 0) → Option Transport → Type 0
Each P none = Unit {0}
Each P (some t) = P t

and_parts : (b c d : Bool) → (b && (c && d)) ≡ true → (b ≡ true) × (c ≡ true) × (d ≡ true)
and_parts b c d e = ground arith

module _ {L : Type 0} (u : Usb L) (callback : IfcInfo → Bool) (ctx timeout_ms : ℕ) where
  next_Each :
      (P : Transport → Type 0) (p q : L × Option Transport)
      → Each P p.1
      → Each P q.1
      → Each P (elim p.1 as (λ _. L × Option Transport) [ none ↦ q | some t ↦ (p.0, some t) ]).1
  next_Each P (m, none) q h k = k
  next_Each P (m, some t) q h k = h

  transport_for-Chosen :
      (h : ℕ) (dd : DeviceDescriptor) (id : Setting) (bus addr : ℕ) (serial : List ℕ)
      → wanted u callback ctx timeout_ms (fill_ifc_info dd id bus addr) serial ≡ true
      → Chosen callback timeout_ms
          (transport_for u callback ctx timeout_ms h id (fill_ifc_info dd id bus addr))
  transport_for-Chosen h dd id bus addr serial e =
      let f = fill_ifc_info dd id bus addr in
      let parts =
        and_parts (callback (record f.info { serial_number = serial })) f.info.has_bulk_in
          f.info.has_bulk_out e in
      let directed = fill_ifc_info-directed dd id bus addr parts.1 parts.2 in
      record {
        descriptor = dd;
        setting = id;
        bus = bus;
        addr = addr;
        serial = serial;
        accepted = parts.0;
        interface = refl;
        ep_in = refl;
        ep_out = refl;
        timeout = refl;
        reads = directed.0;
        writes = directed.1;
      }

  claimed-Each :
      (P : Transport → Type 0) (h : ℕ) (id : Setting) (f : Filled) (p : L × Bool)
      → P (transport_for u callback ctx timeout_ms h id f)
      → Each P (claimed u callback ctx timeout_ms h id f p).1
  claimed-Each P h id f (l, true) k = k
  claimed-Each P h id f (l, false) k = tt

  with_serial-Each :
      (h : ℕ) (dd : DeviceDescriptor) (id : Setting) (bus addr : ℕ) (p : L × List ℕ)
      → Each
          (Chosen callback timeout_ms)
          (with_serial u callback ctx timeout_ms h id (fill_ifc_info dd id bus addr) p).1
  with_serial-Each h dd id bus addr (l, serial) =
      let f = fill_ifc_info dd id bus addr in
      elim (Bool-cases (wanted u callback ctx timeout_ms f serial)) [
        | inl e ↦ rw e (
            claimed-Each (Chosen callback timeout_ms) h id f
              (u.claim (u.auto_detach l h) h id.number)
              (transport_for-Chosen h dd id bus addr serial e))
        | inr e ↦ rw e tt
      ]

  opened_Each :
      (dd : DeviceDescriptor) (id : Setting) (bus addr : ℕ) (p : L × Option ℕ)
      → Each
          (Chosen callback timeout_ms)
          (opened u callback ctx timeout_ms dd id (fill_ifc_info dd id bus addr) p).1
  opened_Each dd id bus addr (l, none) = tt
  opened_Each dd id bus addr (l, some h) =
      with_serial-Each h dd id bus addr (serial_of u callback ctx timeout_ms h dd.serial_number l)

  settings_Each :
      (dev : ℕ) (dd : DeviceDescriptor) (ids : List Setting) (l : L)
      → Each (Chosen callback timeout_ms) (settings_loop u callback ctx timeout_ms dev dd ids l).1
  unfolding settings_loop try_setting
  settings_Each dev dd [] l = tt
  settings_Each dev dd (id ∷ ids) l =
      let p = try_setting u callback ctx timeout_ms dev dd id l in
      next_Each (Chosen callback timeout_ms) p
        (settings_loop u callback ctx timeout_ms dev dd ids p.0)
        (opened_Each dd id (u.bus_number dev) (u.device_address dev) (u.open_device l dev))
        (settings_Each dev dd ids p.0)

  interfaces_Each :
      (dev : ℕ) (dd : DeviceDescriptor) (intfs : List (List Setting)) (l : L)
      → Each
          (Chosen callback timeout_ms)
          (interfaces_loop u callback ctx timeout_ms dev dd intfs l).1
  unfolding interfaces_loop
  interfaces_Each dev dd [] l = tt
  interfaces_Each dev dd (ids ∷ intfs) l =
      let p = settings_loop u callback ctx timeout_ms dev dd ids l in
      next_Each (Chosen callback timeout_ms) p
        (interfaces_loop u callback ctx timeout_ms dev dd intfs p.0) (settings_Each dev dd ids l)
        (interfaces_Each dev dd intfs p.0)

  config_Each :
      (dev : ℕ) (dd : DeviceDescriptor) (p : L × Option (List (List Setting)))
      → Each (Chosen callback timeout_ms) (with_config u callback ctx timeout_ms dev dd p).1
  config_Each dev dd (l, none) = tt
  config_Each dev dd (l, some cfg) = interfaces_Each dev dd cfg l

  descriptor_Each :
      (dev : ℕ) (p : L × Option DeviceDescriptor)
      → Each (Chosen callback timeout_ms) (with_descriptor u callback ctx timeout_ms dev p).1
  descriptor_Each dev (l, none) = tt
  descriptor_Each dev (l, some dd) = config_Each dev dd (u.active_config l dev)

  devices_Each :
      (devs : List ℕ) (l : L)
      → Each (Chosen callback timeout_ms) (devices_loop u callback ctx timeout_ms devs l).1
  unfolding devices_loop
  devices_Each [] l = tt
  devices_Each (dev ∷ devs) l =
      let p = with_descriptor u callback ctx timeout_ms dev (u.device_descriptor l dev) in
      next_Each (Chosen callback timeout_ms) p (devices_loop u callback ctx timeout_ms devs p.0)
        (descriptor_Each dev (u.device_descriptor l dev)) (devices_Each devs p.0)

  listed_Each :
      (p : L × Option (List ℕ))
      → Each (Chosen callback timeout_ms) (listed u callback ctx timeout_ms p).1
  listed_Each (l, none) = tt
  listed_Each (l, some devs) = devices_Each devs l

  finished-Each :
      (p : L × Option Transport)
      → Each (Chosen callback timeout_ms) p.1
      → Each (Chosen callback timeout_ms) (finished u callback ctx timeout_ms p).1
  finished-Each (l, none) h = tt
  finished-Each (l, some t) h = h

module _ {L : Type 0} (u : Usb L) (callback : IfcInfo → Bool) (timeout_ms : ℕ) where
  initialised-Each :
      (p : L × Option ℕ) → Each (Chosen callback timeout_ms) (initialised u callback timeout_ms p).1
  unfolding with_context
  initialised-Each (l, none) = tt
  initialised-Each (l, some ctx) =
      finished-Each u callback ctx timeout_ms
        (listed u callback ctx timeout_ms (u.get_device_list l ctx))
        (listed_Each u callback ctx timeout_ms (u.get_device_list l ctx))

  -- Whatever libusb does, a transport that usb_open returns is of a setting whose info the callback
  -- accepted, with the setting's interface number, the endpoints that fill_ifc_info found and the
  -- timeout asked for; reads go to an address with the IN bit and writes to one without it.
  pub usb_open-Chosen :
      (l : L) (t : Transport)
      → (usb_open u callback timeout_ms l).1 ≡ some t
      → Chosen callback timeout_ms t
  unfolding usb_open
  usb_open-Chosen l t e = subst (Each (Chosen callback timeout_ms)) e (initialised-Each (u.init l))
