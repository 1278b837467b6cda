-- ===== src/Fastboot/Growth.antt =====
-- How the loops of usb_open change what is taken.
use android_sdk_custom.Prelude.{
  ℕ, ◌+◌, ◌≡◌, List, [], ◌∷◌, Option, none, some, Bool, true, false, arith, ◌==◌, Bool-cases,
  Option-cases, inl, inr,
}
use android_sdk_custom.Fastboot.{
  Setting, DeviceDescriptor, Usb, Transport, IfcInfo, Filled, fill_ifc_info,
}
use android_sdk_custom.Fastboot.Open.{
  serial_of, wanted, claimed, matched, try_setting, settings_loop, interfaces_loop, freed,
  with_descriptor, devices_loop,
}
use android_sdk_custom.Fastboot.Resources.{
  Resource, context, config, handle, unit, Counted, taken, opened_handle,
}

module _ {L : Type 0} (u : Usb L) (counted : Counted u) where
  -- From l, which holds the context too, to m, with what e says.
  abbrev pub Grew : (Resource → ℕ) → L → L → Type 0
  Grew e l m = (r : Resource) → counted.held m r + unit context r ≡ counted.held l r + e r

  closed_Grew :
      (l m : L) (h : ℕ) → Grew opened_handle l m → Grew (taken none) l (u.close_device m h)
  closed_Grew l m h g r =
      omega (arith, g r, g handle, counted.close m h r (omega (arith, g handle)))

  module _ (callback : IfcInfo → Bool) (ctx timeout_ms : ℕ) where
    claimed-Grew :
        (l m : L) (h : ℕ) (id : Setting) (f : Filled)
        → Grew opened_handle l m
        → let (n, t) =
            claimed u callback ctx timeout_ms h id f (u.claim (u.auto_detach m h) h id.number) in
          Grew (taken t) l n
    claimed-Grew l m h id f g = elim (Bool-cases (u.claim (u.auto_detach m h) h id.number).1) [
      | inl e ↦ rw e (λ r. omega (
        arith,
        g r,
        counted.detach m h r,
        counted.claim_true (u.auto_detach m h) h id.number r e,
      ))
      | inr e ↦ rw e (
          closed_Grew l (u.claim (u.auto_detach m h) h id.number).0 h (λ r. omega (
            arith,
            g r,
            counted.detach m h r,
            counted.claim_false (u.auto_detach m h) h id.number r e,
          )))
    ]

    matched-Grew :
        (l m : L) (h : ℕ) (id : Setting) (f : Filled) (b : Bool)
        → Grew opened_handle l m
        → let (n, t) = matched u callback ctx timeout_ms h id f b m in Grew (taken t) l n
    matched-Grew l m h id f true g = claimed-Grew l m h id f g
    matched-Grew l m h id f false g = closed_Grew l m h g

    serial_Grew :
        (l m : L) (h i : ℕ)
        → Grew opened_handle l m
        → Grew opened_handle l (serial_of u callback ctx timeout_ms h i m).0
    serial_Grew l m h i g = elim (Bool-cases (i == 0)) [
      | inl e ↦ rw e g
      | inr e ↦ rw e (λ r. omega (arith, g r, counted.serial m h i r))
    ]

    try_setting-Grew :
        (dev : ℕ) (dd : DeviceDescriptor) (id : Setting) (l : L)
        → let (n, t) = try_setting u callback ctx timeout_ms dev dd id l in Grew (taken t) l n
    unfolding try_setting
    try_setting-Grew dev dd id l =
        let f = fill_ifc_info dd id (u.bus_number dev) (u.device_address dev) in
        let m = (u.open_device l dev).0 in
        elim (Option-cases (u.open_device l dev).1) [
          | inl e ↦ rw e (λ r. omega (arith, counted.open_none l dev r e))
          | inr (h, e) ↦
              let p = serial_of u callback ctx timeout_ms h dd.serial_number m in
              rw e (
                matched-Grew l p.0 h id f (wanted u callback ctx timeout_ms f p.1) (
                  serial_Grew l m h dd.serial_number
                    (λ r. omega (arith, counted.open_some l dev h r e))))
        ]

    next_Grew :
        (l : L) (p q : L × Option Transport)
        → Grew (taken p.1) l p.0
        → Grew (taken q.1) p.0 q.0
        → let (n, t) = elim p.1 as (λ _. L × Option Transport) [
          | none ↦ q
          | some t ↦ (p.0, some t)
        ] in
          Grew (taken t) l n
    next_Grew l (m, none) q g k = λ r. omega (arith, g r, k r)
    next_Grew l (m, some t) q g k = g

    settings_Grew :
        (dev : ℕ) (dd : DeviceDescriptor) (ids : List Setting) (l : L)
        → let (n, t) = settings_loop u callback ctx timeout_ms dev dd ids l in Grew (taken t) l n
    unfolding settings_loop
    settings_Grew dev dd [] l = λ r. omega arith
    settings_Grew dev dd (id ∷ ids) l =
        next_Grew l (try_setting u callback ctx timeout_ms dev dd id l)
          (settings_loop u callback ctx timeout_ms dev dd ids
            (try_setting u callback ctx timeout_ms dev dd id l).0)
          (try_setting-Grew dev dd id l)
          (settings_Grew dev dd ids (try_setting u callback ctx timeout_ms dev dd id l).0)

    interfaces_Grew :
        (dev : ℕ) (dd : DeviceDescriptor) (intfs : List (List Setting)) (l : L)
        → let (n, t) = interfaces_loop u callback ctx timeout_ms dev dd intfs l in
          Grew (taken t) l n
    unfolding interfaces_loop
    interfaces_Grew dev dd [] l = λ r. omega arith
    interfaces_Grew dev dd (ids ∷ intfs) l =
        let p = settings_loop u callback ctx timeout_ms dev dd ids l in
        next_Grew l p (interfaces_loop u callback ctx timeout_ms dev dd intfs p.0)
          (settings_Grew dev dd ids l) (interfaces_Grew dev dd intfs p.0)

    freed-Grew :
        (l : L) (p : L × Option Transport)
        → Grew (λ r. unit config r + taken p.1 r) l p.0
        → let (n, t) = freed u callback ctx timeout_ms p in Grew (taken t) l n
    freed-Grew l (m, t) g =
        λ r. omega (arith, g r, g config, counted.free_config m r (omega (arith, g config)))

    device_Grew :
        (dev : ℕ) (l : L)
        → let (n, t) = with_descriptor u callback ctx timeout_ms dev (u.device_descriptor l dev) in
          Grew (taken t) l n
    device_Grew dev l =
        let m = (u.device_descriptor l dev).0 in
        let c = (u.active_config m dev).0 in
        elim (Option-cases (u.device_descriptor l dev).1) [
          | inl e ↦ rw e (λ r. omega (arith, counted.descriptor l dev r))
          | inr (dd, e) ↦ elim (Option-cases (u.active_config m dev).1) [
            | inl f ↦
                rw (e, f)
                  (λ r. omega (arith, counted.descriptor l dev r, counted.config_none m dev r f))
            | inr (cfg, f) ↦
                let p = interfaces_loop u callback ctx timeout_ms dev dd cfg c in
                rw (e, f)
                  (freed-Grew l p (λ r. omega (
                    arith,
                    counted.descriptor l dev r,
                    counted.config_some m dev cfg r f,
                    interfaces_Grew dev dd cfg c r,
                  )))
          ]
        ]

    pub devices_Grew :
        (devs : List ℕ) (l : L)
        → let (n, t) = devices_loop u callback ctx timeout_ms devs l in Grew (taken t) l n
    unfolding devices_loop
    devices_Grew [] l = λ r. omega arith
    devices_Grew (dev ∷ devs) l =
        let p = with_descriptor u callback ctx timeout_ms dev (u.device_descriptor l dev) in
        next_Grew l p (devices_loop u callback ctx timeout_ms devs p.0) (device_Grew dev l)
          (devices_Grew devs p.0)
