-- ===== src/Fastboot/Open.antt =====
-- usb_open: the first interface of all devices that the caller wants and that can be claimed.
use android_sdk_custom.Prelude.{
  ℕ, List, [], ◌∷◌, Option, none, some, Bool, true, false, ◌&&◌, ◌==◌, if◌then◌else◌,
}
use android_sdk_custom.Fastboot.{
  Setting, DeviceDescriptor, Usb, Transport, IfcInfo, Filled, fill_ifc_info,
}

-- `ifc_match_func`: true for 0.
module _ {L : Type 0} (u : Usb L) (callback : IfcInfo → Bool) (ctx timeout_ms : ℕ) where
  abbrev pub serial_of : ℕ → ℕ → L → L × List ℕ
  serial_of handle i l = if i == 0 then (l, []) else u.string_descriptor l handle i

  abbrev pub transport_for : ℕ → Setting → Filled → Transport
  transport_for handle id f = record {
    ctx = some ctx;
    handle = some handle;
    interface = some id.number;
    ep_in = f.ep_in;
    ep_out = f.ep_out;
    timeout_ms = timeout_ms;
  }

  abbrev pub wanted : Filled → List ℕ → Bool
  wanted f serial =
      callback (record f.info { serial_number = serial })
      && (f.info.has_bulk_in && f.info.has_bulk_out)

  -- After the claim: the handle moves into the transport, or is closed.
  abbrev pub claimed : ℕ → Setting → Filled → L × Bool → L × Option Transport
  claimed handle id f (l, true) = (l, some (transport_for handle id f))
  claimed handle id f (l, false) = (u.close_device l handle, none)

  abbrev pub matched : ℕ → Setting → Filled → Bool → L → L × Option Transport
  matched handle id f true l =
      claimed handle id f (u.claim (u.auto_detach l handle) handle id.number)
  matched handle id f false l = (u.close_device l handle, none)

  abbrev pub with_serial : ℕ → Setting → Filled → L × List ℕ → L × Option Transport
  with_serial handle id f (l, serial) = matched handle id f (wanted f serial) l

  abbrev pub opened : DeviceDescriptor → Setting → Filled → L × Option ℕ → L × Option Transport
  opened dd id f (l, none) = (l, none)
  opened dd id f (l, some handle) = with_serial handle id f (serial_of handle dd.serial_number l)

  -- One alternate setting of a device.
  unfoldable pub try_setting : ℕ → DeviceDescriptor → Setting → L → L × Option Transport
  try_setting dev dd id l =
      opened dd id (fill_ifc_info dd id (u.bus_number dev) (u.device_address dev))
        (u.open_device l dev)

  unfoldable pub settings_loop : ℕ → DeviceDescriptor → List Setting → L → L × Option Transport
  unfolding try_setting
  settings_loop dev dd [] l = (l, none)
  settings_loop dev dd (id ∷ ids) l =
      let (l', r) = try_setting dev dd id l in
      elim r [ none ↦ settings_loop dev dd ids l' | some t ↦ (l', some t) ]

  unfoldable pub interfaces_loop :
      ℕ → DeviceDescriptor → List (List Setting) → L → L × Option Transport
  unfolding settings_loop
  interfaces_loop dev dd [] l = (l, none)
  interfaces_loop dev dd (ids ∷ intfs) l =
      let (l', r) = settings_loop dev dd ids l in
      elim r [ none ↦ interfaces_loop dev dd intfs l' | some t ↦ (l', some t) ]

  abbrev pub freed : L × Option Transport → L × Option Transport
  freed (l, r) = (u.free_config l, r)

  abbrev pub with_config :
      ℕ → DeviceDescriptor → L × Option (List (List Setting)) → L × Option Transport
  with_config dev dd (l, none) = (l, none)
  with_config dev dd (l, some cfg) = freed (interfaces_loop dev dd cfg l)

  abbrev pub with_descriptor : ℕ → L × Option DeviceDescriptor → L × Option Transport
  with_descriptor dev (l, none) = (l, none)
  with_descriptor dev (l, some dd) = with_config dev dd (u.active_config l dev)

  unfoldable pub devices_loop : List ℕ → L → L × Option Transport
  unfolding interfaces_loop
  devices_loop [] l = (l, none)
  devices_loop (dev ∷ devs) l =
      let (l', r) = with_descriptor dev (u.device_descriptor l dev) in
      elim r [ none ↦ devices_loop devs l' | some t ↦ (l', some t) ]

  abbrev pub listed : L × Option (List ℕ) → L × Option Transport
  listed (l, none) = (u.free_device_list l false, none)
  listed (l, some devs) = let (l', r) = devices_loop devs l in (u.free_device_list l' true, r)

  -- The context is left to the transport.
  abbrev pub finished : L × Option Transport → L × Option Transport
  finished (l, none) = (u.exit l ctx, none)
  finished (l, some t) = (l, some t)

  unfoldable pub with_context : L → L × Option Transport
  unfolding devices_loop
  with_context l = finished (listed (u.get_device_list l ctx))

module _ {L : Type 0} (u : Usb L) (callback : IfcInfo → Bool) (timeout_ms : ℕ) where
  abbrev pub initialised : L × Option ℕ → L × Option Transport
  initialised (l, none) = (l, none)
  initialised (l, some ctx) = with_context u callback ctx timeout_ms l

  unfoldable pub usb_open : L → L × Option Transport
  unfolding with_context
  usb_open l = initialised (u.init l)
