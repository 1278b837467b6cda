-- ===== src/Examples/Fastboot.antt =====
-- A device with one interface, and an endpoint that takes three bytes at a time.
use mathlib.Core.Option.{some-injective}
use android_sdk_custom.Prelude.{
  ℕ, ◌+◌, ◌-◌, ◌≤◌, ◌≡◌, refl, ap, List, [], ◌∷◌, ◌++◌, Option, none, some, Bool, true, false,
  arith, take, min, length, ◌==◌, ◌⊎◌,
}
use android_sdk_custom.Fastboot.{
  Setting, DeviceDescriptor, Usb, Transport, IfcInfo, fill_endpoints, fill_ifc_info, write,
  write_loop,
}
use android_sdk_custom.Fastboot.Open.{
  try_setting, settings_loop, interfaces_loop, devices_loop, with_context, usb_open,
}
use android_sdk_custom.Fastboot.Stream.{Pipe, write_lem}
use android_sdk_custom.Fastboot.Choice.{Chosen, usb_open-Chosen}
use android_sdk_custom.Fastboot.Resources.{
  Resource, context, device_list, config, handle, interface, unit, Counted,
}
use android_sdk_custom.Fastboot.Balance.{usb_open_lem, result_owned}

abbrev setting : Setting
setting = record {
  number = 3;
  class = 255;
  subclass = 66;
  protocol = 3;
  endpoints =
      record { address = 129; attributes = 2 }
      ∷ record { address = 131; attributes = 3 }
      ∷ record { address = 2; attributes = 2 }
      ∷ [];
}

abbrev descriptor : DeviceDescriptor
descriptor = record {
  vendor = 6353;
  product = 20192;
  class = 0;
  subclass = 0;
  protocol = 0;
  serial_number = 1;
}

-- The state counts what is taken.
abbrev counting : Usb (Resource → ℕ)
counting = record {
  init = λ l. (λ r. l r + unit context r, some 9);
  exit = λ l c. λ r. l r - unit context r;
  get_device_list = λ l c. (λ r. l r + unit device_list r, some (4 ∷ []));
  free_device_list = λ l b. elim b [ true ↦ λ r. l r - unit device_list r | false ↦ l ];
  device_descriptor = λ l d. (l, some descriptor);
  active_config = λ l d. (λ r. l r + unit config r, some ((setting ∷ []) ∷ []));
  free_config = λ l. λ r. l r - unit config r;
  bus_number = λ d. 1;
  device_address = λ d. d;
  open_device = λ l d. (λ r. l r + unit handle r, some 5);
  close_device = λ l h. λ r. l r - unit handle r;
  string_descriptor = λ l h i. (l, b'x' ∷ []);
  auto_detach = λ l h. l;
  claim = λ l h i. (λ r. l r + unit interface r, true);
  release = λ l h i. λ r. l r - unit interface r;
  reset = λ l h. (l, true);
  bulk_out = λ l h e bytes ms. (l, none);
  bulk_in = λ l h e n ms. (l, none);
}

unit_le : (k r : Resource) (l : Resource → ℕ) → 1 ≤ l k → unit k r ≤ l r
unit_le context context l h = h
unit_le context device_list l h = omega arith
unit_le context config l h = omega arith
unit_le context handle l h = omega arith
unit_le context interface l h = omega arith
unit_le device_list device_list l h = h
unit_le device_list context l h = omega arith
unit_le device_list config l h = omega arith
unit_le device_list handle l h = omega arith
unit_le device_list interface l h = omega arith
unit_le config config l h = h
unit_le config context l h = omega arith
unit_le config device_list l h = omega arith
unit_le config handle l h = omega arith
unit_le config interface l h = omega arith
unit_le handle handle l h = h
unit_le handle context l h = omega arith
unit_le handle device_list l h = omega arith
unit_le handle config l h = omega arith
unit_le handle interface l h = omega arith
unit_le interface interface l h = h
unit_le interface context l h = omega arith
unit_le interface device_list l h = omega arith
unit_le interface config l h = omega arith
unit_le interface handle l h = omega arith

back :
    (k : Resource) (l : Resource → ℕ) (r : Resource) → 1 ≤ l k → (l r - unit k r) + unit k r ≡ l r
back k l r h = omega (arith, unit_le k r l h)

abbrev counting_counted : Counted counting
counting_counted = record {
  held = λ l r. l r;
  init_some = λ l c r e. refl;
  init_none = λ l r e. cc;
  exit = λ l c r h. back context l r h;
  list_some = λ l c devs r e. refl;
  list_none = λ l c r e. cc;
  free_list = λ l r h. back device_list l r h;
  free_null = λ l r. refl;
  descriptor = λ l d r. refl;
  config_some = λ l d c r e. refl;
  config_none = λ l d r e. cc;
  free_config = λ l r h. back config l r h;
  open_some = λ l d h r e. refl;
  open_none = λ l d r e. cc;
  close = λ l h r g. back handle l r g;
  serial = λ l h i r. refl;
  detach = λ l h r. refl;
  claim_true = λ l h i r e. refl;
  claim_false = λ l h i r e. cc;
  release = λ l h i r g. back interface l r g;
}

abbrev nothing : Resource → ℕ
nothing r = 0

abbrev fastboot : IfcInfo → Bool
fastboot info = info.ifc_protocol == 3

abbrev transport : Transport
transport = record {
  ctx = some 9;
  handle = some 5;
  interface = some 3;
  ep_in = 129;
  ep_out = 2;
  timeout_ms = 1000;
}

usb_open_test : (usb_open counting fastboot 1000 nothing).1 ≡ some transport
unfolding usb_open with_context devices_loop interfaces_loop settings_loop try_setting fill_ifc_info
    fill_endpoints
usb_open_test = refl

usb_open_lem_example :
    (usb_open counting fastboot 1000 nothing).0 handle
    ≡ nothing handle + result_owned (usb_open counting fastboot 1000 nothing).1 handle
usb_open_lem_example = usb_open_lem counting counting_counted fastboot 1000 nothing handle

usb_open-Chosen_example : Chosen fastboot 1000 transport
usb_open-Chosen_example = usb_open-Chosen counting fastboot 1000 nothing transport usb_open_test

-- The state is what was sent.
abbrev narrow : Usb (List ℕ)
narrow = record {
  init = λ l. (l, none);
  exit = λ l c. l;
  get_device_list = λ l c. (l, none);
  free_device_list = λ l b. l;
  device_descriptor = λ l d. (l, none);
  active_config = λ l d. (l, none);
  free_config = λ l. l;
  bus_number = λ d. 1;
  device_address = λ d. d;
  open_device = λ l d. (l, none);
  close_device = λ l h. l;
  string_descriptor = λ l h i. (l, []);
  auto_detach = λ l h. l;
  claim = λ l h i. (l, false);
  release = λ l h i. l;
  reset = λ l h. (l, false);
  bulk_out =
      λ l h e bytes ms. (l ++ take (min 3 (length bytes)) bytes, some (min 3 (length bytes)));
  bulk_in = λ l h e n ms. (l, none);
}

abbrev narrow_pipe : Pipe narrow 5 2
narrow_pipe = record {
  stream = λ l. l;
  sent = λ l bytes ms n e.
      let q = some-injective (min 3 (length bytes)) n e in
      (omega (arith, q), ap (λ k. l ++ take k bytes) q);
  progress =
      λ l bytes ms n e h. let q = some-injective (min 3 (length bytes)) n e in omega (arith, q);
  failed = λ l bytes ms e. cc;
}

abbrev message : List ℕ
message = b'f' ∷ b'l' ∷ b'a' ∷ b's' ∷ b'h' ∷ []

write_test : write narrow 6 transport message [] ≡ some (message, some 5)
unfolding write write_loop
write_test = refl

write_lem_example :
    (r : List ℕ × Option ℕ) × (write narrow 6 transport message [] ≡ some r)
    × (((r.1 ≡ some 5) × (r.0 ≡ message)) ⊎ ((r.1 ≡ none) × ((k : ℕ) × (r.0 ≡ take k message))))
write_lem_example = write_lem narrow 5 transport narrow_pipe 6 message [] refl (omega arith)
