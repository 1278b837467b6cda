-- ===== src/Ugen/Errors.antt =====
-- Error codes and speeds: _errno_to_libusb and _fbsd_speed.
use android_sdk_custom.Libusb.{LibusbError, io, access, no_device, no_mem, timed_out, busy, other}
use android_sdk_custom.Prelude.{ℕ}

-- The values of errno that the backend tells apart.
pub data Errno : Type 0 where
  eio eacces enoent enxio enomem etimedout ebusy einval : Errno
  another : ℕ → Errno

-- What an ioctl answers: an error, or what it writes back.
pub data Reply (A : Type 0) : Type 0 where
  failed : Errno → Reply A
  answered : A → Reply A

unfoldable pub errno_to_libusb : Errno → LibusbError
errno_to_libusb eio = io
errno_to_libusb eacces = access
errno_to_libusb enoent = no_device
errno_to_libusb enxio = no_device
errno_to_libusb enomem = no_mem
errno_to_libusb etimedout = timed_out
errno_to_libusb ebusy = busy
errno_to_libusb _ = other

-- The speeds of FreeBSD's usb.h; `variable` stands for the others.
pub data UsbSpeed : Type 0 where
  low full high super variable : UsbSpeed

pub data LibusbSpeed : Type 0 where
  unknown low_speed full_speed high_speed super_speed : LibusbSpeed

unfoldable pub fbsd_speed : UsbSpeed → LibusbSpeed
fbsd_speed low = low_speed
fbsd_speed full = full_speed
fbsd_speed high = high_speed
fbsd_speed super = super_speed
fbsd_speed variable = unknown
