-- ===== src/Ugen/Listing.antt =====
-- fbsd_get_device_list, and the references to devices that it takes and drops.
use android_sdk_custom.Prelude.{
  ℕ, ◌+◌, ◌*◌, List, [], ◌∷◌, Bool, true, false, ◌&&◌, if◌then◌else◌, Option, none, some,
}
use android_sdk_custom.Libusb.{LibusbError, success, no_mem}
use android_sdk_custom.Ugen.Errors.{
  Reply, failed, answered, errno_to_libusb, UsbSpeed, LibusbSpeed, fbsd_speed,
}

-- What the calls on a node answer: udi_bus, udi_addr and udi_speed; and for a new device whether its
-- descriptor is read, its configuration is cached, and usbi_sanitize_device accepts it.
pub record Node : Type 0 where
  pub bus : ℕ
  pub addr : ℕ
  pub speed : UsbSpeed
  pub described : Bool
  pub cached : Bool
  pub sane : Bool

-- An entry of the directory: skipped, as its name does not match, or the node cannot be opened or
-- asked; or a node.
pub data Entry : Type 0 where
  skipped : Entry
  node : Node → Entry

-- libusb's functions on its own state, in which *discdevs is; a device is its address.
pub record Context (L : Type 0) : Type 0 where
  pub get_device : L → ℕ → L × Option ℕ
  pub alloc_device : L → ℕ → L × Option ℕ
  pub set_device : L → ℕ → ℕ → ℕ → LibusbSpeed → L
  pub unref_device : L → ℕ → L
  pub append : L → ℕ → L × Bool

-- `(udi_bus << 8) | udi_addr`: both are bytes.
abbrev pub session_of : Node → ℕ
session_of n = n.bus * 256 + n.addr

module _ {L : Type 0} (c : Context L) where
  -- The Boolean is false if the loop is left with LIBUSB_ERROR_NO_MEM.
  abbrev pub added : ℕ → L × Bool → L × Bool
  added dev (l, ok) = (c.unref_device l dev, ok)

  abbrev pub checked : ℕ → Bool → L → L × Bool
  checked dev true l = added dev (c.append l dev)
  checked dev false l = (c.unref_device l dev, true)

  abbrev pub with_new : Node → L × Option ℕ → L × Bool
  with_new n (l, none) = (l, false)
  with_new n (l, some dev) =
      checked dev (n.described && (n.cached && n.sane))
        (c.set_device l dev n.bus n.addr (fbsd_speed n.speed))

  abbrev pub with_known : Node → L × Option ℕ → L × Bool
  with_known n (l, some dev) = added dev (c.append l dev)
  with_known n (l, none) = with_new n (c.alloc_device l (session_of n))

  unfoldable pub visit : Entry → L → L × Bool
  visit skipped l = (l, true)
  visit (node n) l = with_known n (c.get_device l (session_of n))

  unfoldable pub list_loop : List Entry → L → L × LibusbError
  unfolding visit
  list_loop [] l = (l, success)
  list_loop (e ∷ es) l =
      let (l', more) = visit e l in
      let rest = list_loop es l' in if more then rest else (l', no_mem)

  -- What opendir and readdir answer.
  unfoldable pub fbsd_get_device_list : Reply (List Entry) → L → L × LibusbError
  unfolding list_loop
  fbsd_get_device_list (failed e) l = (l, errno_to_libusb e)
  fbsd_get_device_list (answered entries) l = list_loop entries l
