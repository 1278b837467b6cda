-- ===== src/HostCompat/Devices.antt =====
-- The device numbers of host_compat.h: makedev, major and minor.
use android_sdk_custom.Prelude.{ℕ, ◌+◌, ◌*◌, ◌/◌, ◌%◌, ◌<◌, ◌≡◌, arith}

-- `(maj << 8) + min`, of numbers that are not negative and do not overflow an int.
abbrev pub makedev : ℕ → ℕ → ℕ
makedev maj min = maj * 256 + min

-- `(dev >> 8) & 0xff`
abbrev pub major : ℕ → ℕ
major dev = (dev / 256) % 256

-- `dev & 0xff`
abbrev pub minor : ℕ → ℕ
minor dev = dev % 256

-- Of two bytes, major and minor give back what makedev has put together.
pub makedev_roundtrip :
    (maj min : ℕ)
    → maj < 256
    → min < 256
    → (major (makedev maj min) ≡ maj) × (minor (makedev maj min) ≡ min)
makedev_roundtrip maj min h k = (omega arith, omega arith)
