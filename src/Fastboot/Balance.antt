-- ===== src/Fastboot/Balance.antt =====
-- What usb_open leaves taken, and what Close gives back.
use mathlib.Core.Path.{subst}
use android_sdk_custom.Prelude.{
  ℕ, ◌+◌, ◌≤◌, ◌≡◌, refl, Option, none, some, Bool, true, arith, Option-cases, inl, inr,
}
use android_sdk_custom.Fastboot.{
  Usb, Transport, IfcInfo, close, release_of, close_handle, exit_context,
}
use android_sdk_custom.Fastboot.Open.{devices_loop, listed, finished, with_context, usb_open}
use android_sdk_custom.Fastboot.Resources.{
  Resource, context, device_list, handle, interface, unit, Counted, of_interface, of_handle,
  of_context, owned, taken,
}
use android_sdk_custom.Fastboot.Growth.{Grew, devices_Grew}

-- What the result of usb_open stands for.
abbrev pub result_owned : Option Transport → Resource → ℕ
result_owned none r = 0
result_owned (some t) r = owned t r

module _ {L : Type 0} (u : Usb L) (counted : Counted u) where
  freed_Grew :
      (l m n : L) (t : Option Transport)
      → ((r : Resource) → counted.held m r ≡ counted.held l r + unit device_list r)
      → Grew u counted (taken t) m n
      → Grew u counted (taken t) l (u.free_device_list n true)
  freed_Grew l m n t e g = λ r.
      omega (arith, e r, g r, counted.free_list n r (omega (arith, e device_list, g device_list)))

  module _ (callback : IfcInfo → Bool) (ctx timeout_ms : ℕ) where
    listed_Grew :
        (l : L)
        → let (n, t) = listed u callback ctx timeout_ms (u.get_device_list l ctx) in
          Grew u counted (taken t) l n
    listed_Grew l =
        let m = (u.get_device_list l ctx).0 in
        elim (Option-cases (u.get_device_list l ctx).1) [
          | inl e ↦ rw e (λ r. omega (arith, counted.list_none l ctx r e, counted.free_null m r))
          | inr (devs, e) ↦
              let p = devices_loop u callback ctx timeout_ms devs m in
              rw e (
                freed_Grew l m p.0 p.1 (λ r. counted.list_some l ctx devs r e)
                  (devices_Grew u counted callback ctx timeout_ms devs m))
        ]

    -- The context is the caller's: it is in l's count, and leaves it when nothing was found.
    finished_held :
        (l m : L) (p : L × Option Transport)
        → ((r : Resource) → counted.held m r ≡ counted.held l r + unit context r)
        → Grew u counted (taken p.1) m p.0
        → let (n, t) = finished u callback ctx timeout_ms p in
          (r : Resource) → counted.held n r ≡ counted.held l r + result_owned t r
    finished_held l m (n, none) e g =
        λ r. omega (arith, e r, g r, counted.exit n ctx r (omega (arith, e context, g context)))
    finished_held l m (n, some t) e g = λ r. omega (arith, e r, g r)

  -- With a libusb that counts as described, usb_open leaves of every resource (contexts, device lists,
  -- configurations, open handles, claimed interfaces) as many taken as before, and of a transport that
  -- it returns the context, the handle and the interface in its fields.
  pub usb_open_lem :
      (callback : IfcInfo → Bool) (timeout_ms : ℕ) (l : L) (r : Resource)
      → counted.held (usb_open u callback timeout_ms l).0 r
        ≡ counted.held l r + result_owned (usb_open u callback timeout_ms l).1 r
  unfolding usb_open with_context
  usb_open_lem callback timeout_ms l r = elim (Option-cases (u.init l).1) [
    | inl e ↦ rw e (omega (arith, counted.init_none l r e))
    | inr (ctx, e) ↦
        let m = (u.init l).0 in
        let p = listed u callback ctx timeout_ms (u.get_device_list m ctx) in
        rw e (
          finished_held callback ctx timeout_ms l m p (λ s. counted.init_some l ctx s e)
            (listed_Grew callback ctx timeout_ms m) r)
  ]

  release_held :
      (i : Option ℕ) (h : ℕ) (l : L) (r : Resource)
      → of_interface i interface ≤ counted.held l interface
      → counted.held (release_of u i h l) r + of_interface i r ≡ counted.held l r
  release_held none h l r le = omega arith
  release_held (some i) h l r le = counted.release l h i r le

  close_handle_held :
      (h i : Option ℕ) (l : L) (r : Resource)
      → ((s : Resource) → of_handle h i s ≤ counted.held l s)
      → counted.held (close_handle u h i l) r + of_handle h i r ≡ counted.held l r
  close_handle_held none i l r le = omega arith
  close_handle_held (some h) i l r le =
      let m = release_of u i h l in
      let released = λ (s : Resource). release_held i h l s (omega (arith, le interface)) in
      omega (arith, released r, counted.close m h r (omega (arith, released handle, le handle)))

  exit_held :
      (c : Option ℕ) (l : L) (r : Resource)
      → of_context c context ≤ counted.held l context
      → counted.held (exit_context u c l) r + of_context c r ≡ counted.held l r
  exit_held none l r le = omega arith
  exit_held (some c) l r le = counted.exit l c r le

  -- On a state that has what the transport stands for, Close gives exactly that back.
  close_held :
      (t : Transport) (l : L) (r : Resource)
      → ((s : Resource) → owned t s ≤ counted.held l s)
      → counted.held (close u t l).1 r + owned t r ≡ counted.held l r
  unfolding close
  close_held t l r le =
      let m = close_handle u t.handle t.interface l in
      let closed =
        λ (s : Resource). close_handle_held t.handle t.interface l s (λ q. omega (arith, le q)) in
      omega (arith, closed r, exit_held t.ctx m r (omega (arith, closed context, le context)))

  -- With the same libusb, when usb_open returns a transport then Close takes the counts of all
  -- resources back to what they were before usb_open, and a second Close, as by the destructor,
  -- changes nothing.
  close_lem :
      (callback : IfcInfo → Bool) (timeout_ms : ℕ) (l : L) (t : Transport)
      → (usb_open u callback timeout_ms l).1 ≡ some t
      → let (t', m) = close u t (usb_open u callback timeout_ms l).0 in
        ((r : Resource) → counted.held m r ≡ counted.held l r) × ((n : L) → close u t' n ≡ (t', n))
  unfolding close
  close_lem callback timeout_ms l t e =
      let m = (usb_open u callback timeout_ms l).0 in
      let opened : (r : Resource) → counted.held m r ≡ counted.held l r + owned t r = λ r.
        subst (λ o. counted.held m r ≡ counted.held l r + result_owned o r) e
          (usb_open_lem callback timeout_ms l r) in
      (λ r. omega (arith, opened r, close_held t m r (λ s. omega (arith, opened s))), λ n. refl)
