-- ===== src/AdbUsb.antt =====
-- patches/sources/adb_usb_bsd.cpp: adb's entry points for USB on the BSDs, on the state S of adb.
use android_sdk_custom.Prelude.{Bool, if◌then◌else◌}

module _ {ℓ} {S : Type ℓ} where
  -- The argument is libusb::usb_init.
  abbrev pub usb_init : (S → S) → S → S
  usb_init init s = init s

  -- Whether adb has client/usb_libusb_hotplug.h, and with it close_usb_devices.
  abbrev pub usb_cleanup : Bool → (S → S) → S → S
  usb_cleanup has_close close_usb_devices s = if has_close then close_usb_devices s else s
