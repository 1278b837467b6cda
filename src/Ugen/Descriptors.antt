-- ===== src/Ugen/Descriptors.antt =====
-- The cached configuration descriptor: _cache_active_config_descriptor and the functions that read,
-- refresh and free it.
use android_sdk_custom.Prelude.{
  ℕ, ◌+◌, ◌*◌, ◌%◌, ◌^◌, List, [], ◌++◌, Option, none, some, ◌||◌, ltb, leb, if◌then◌else◌, get_or,
  take, drop, length, min,
}
use android_sdk_custom.Libusb.{LibusbError, success, io, no_mem, not_found}
use android_sdk_custom.Ugen.Errors.{Reply, failed, answered, errno_to_libusb}

-- `struct device_priv`; cdesc is the whole allocated buffer.
pub record DevicePriv : Type 0 where
  pub cdesc : Option (List ℕ)
  pub cdesc_len : ℕ
  pub cval : ℕ

-- The fields of `struct usb_device_info` that are read.
pub record DeviceInfo : Type 0 where
  pub config_no : ℕ
  pub config_index : ℕ

-- The kernel and the allocator, on a state of their own: USB_GET_FULL_DESC takes ugd_maxlen and
-- ugd_config_index and answers the bytes that it wrote; malloc gives a buffer with what is in it.
-- `devnode` is the device's path.
pub record Device (K : Type 0) : Type 0 where
  pub device_info : K → K × Reply DeviceInfo
  pub full_desc : K → ℕ → ℕ → K × Reply (List ℕ)
  pub malloc : K → ℕ → K × Option (List ℕ)
  pub devnode : List ℕ
  pub o_rdonly : ℕ
  pub open_path : K → List ℕ → ℕ → K × Reply (Unit {0})
  pub set_config : K → ℕ → K × Reply (Unit {0})
  pub get_config : K → K × Reply ℕ

-- Two bytes, the low one first.
abbrev pub total_length : List ℕ → ℕ
total_length hdr = get_or hdr 2 0 + get_or hdr 3 0 * 256

-- `memcpy` of n bytes out of a buffer; `none` is a read behind its end.
unfoldable pub copy_out : ℕ → List ℕ → Option (List ℕ)
copy_out n m = if leb n (length m) then some (take n m) else none

-- What the kernel writes to a buffer through ugd_data; `none` is a write behind its end.
unfoldable pub copy_in : List ℕ → List ℕ → Option (List ℕ)
copy_in w buf = if leb (length w) (length buf) then some (w ++ drop (length w) buf) else none

-- `sizeof(hdr)`
abbrev pub header_size : ℕ
header_size = 8

module _ {K : Type 0} (d : Device K) where
  abbrev pub open_node : K → ℕ → K × Reply (Unit {0})
  open_node k mode = d.open_path k d.devnode mode

  -- The second read answers: the old buffer is freed. `none` is a write behind the buffer's end.
  unfoldable pub store_blob :
      DevicePriv → List ℕ → K × Reply (List ℕ) → Option (DevicePriv × K × LibusbError)
  unfolding copy_in
  store_blob dev buf (k, failed e) = some (dev, k, errno_to_libusb e)
  store_blob dev buf (k, answered w) = elim (copy_in w buf) [
    | none ↦ none
    | some m ↦ some (record dev { cdesc = some m; cdesc_len = length w }, k, success)
  ]

  unfoldable pub read_blob :
      ℕ → ℕ → DevicePriv → K × Option (List ℕ) → Option (DevicePriv × K × LibusbError)
  unfolding store_blob
  read_blob index total dev (k, none) = some (dev, k, no_mem)
  read_blob index total dev (k, some buf) =
      store_blob dev buf (d.full_desc k (total % 2 ^ 16) index)

  -- The header answers; `none` is a write behind the end of hdr.
  unfoldable pub read_header :
      ℕ → DevicePriv → K × Reply (List ℕ) → Option (DevicePriv × K × LibusbError)
  unfolding read_blob
  read_header index dev (k, failed e) = some (dev, k, errno_to_libusb e)
  read_header index dev (k, answered hdr) =
      let total = total_length hdr in
      if ltb header_size (length hdr)
      then none
      else if ltb (length hdr) 4 || ltb total 4
      then some (dev, k, io)
      else read_blob index total dev (d.malloc k total)

  unfoldable pub with_info :
      DevicePriv → K × Reply DeviceInfo → Option (DevicePriv × K × LibusbError)
  unfolding read_header
  with_info dev (k, failed e) = some (dev, k, errno_to_libusb e)
  with_info dev (k, answered info) =
      read_header info.config_index (record dev { cval = info.config_no })
        (d.full_desc k header_size info.config_index)

  unfoldable pub cache_active_config_descriptor :
      DevicePriv → K → Option (DevicePriv × K × LibusbError)
  unfolding with_info
  cache_active_config_descriptor dev k = with_info dev (d.device_info k)

  unfoldable pub refresh : DevicePriv → K × Reply (Unit {0}) → Option (DevicePriv × K × LibusbError)
  refresh dev (k, failed e) = some (dev, k, success)
  refresh dev (k, answered _) = cache_active_config_descriptor dev k

  unfoldable pub after_set :
      DevicePriv → K × Reply (Unit {0}) → Option (DevicePriv × K × LibusbError)
  after_set dev (k, failed e) = some (dev, k, errno_to_libusb e)
  after_set dev (k, answered _) = refresh dev (open_node k d.o_rdonly)

  -- The descriptor is read again, if the node opens; `none` is a write behind the end of a buffer.
  unfoldable pub fbsd_set_configuration : DevicePriv → K → ℕ → Option (DevicePriv × K × LibusbError)
  unfolding refresh after_set
  fbsd_set_configuration dev k config = after_set dev (d.set_config k config)

  -- The value is cut to a byte.
  unfoldable pub fbsd_get_configuration : K → K × Reply ℕ
  fbsd_get_configuration k =
      let (k', r) = d.get_config k in
      (k', elim r [ failed e ↦ failed e | answered v ↦ answered (v % 2 ^ 8) ])

  abbrev pub desc_reply : K × Reply (List ℕ) → K × List ℕ × LibusbError
  desc_reply (k, failed e) = (k, [], errno_to_libusb e)
  desc_reply (k, answered w) = (k, w, success)

  abbrev pub desc_of_node : ℕ → ℕ → K × Reply (Unit {0}) → K × List ℕ × LibusbError
  desc_of_node index len (k, failed e) = (k, [], errno_to_libusb e)
  desc_of_node index len (k, answered _) = desc_reply (d.full_desc k (min len 0xffff) index)

  -- The bytes that are written to the caller's buffer; their number is the value returned.
  unfoldable pub fbsd_get_config_descriptor : K → ℕ → ℕ → K × List ℕ × LibusbError
  fbsd_get_config_descriptor k index len = desc_of_node index len (open_node k d.o_rdonly)

-- What fbsd_get_active_config_descriptor gives: an error, or the bytes copied to the caller's buffer;
-- `none` is a read behind the end of the cached one.
unfoldable pub fbsd_get_active_config_descriptor : DevicePriv → ℕ → Option (LibusbError × List ℕ)
unfolding copy_out
fbsd_get_active_config_descriptor dev len = elim dev.cdesc [
  | none ↦ some (not_found, [])
  | some buf ↦ elim (copy_out (min len dev.cdesc_len) buf) [
    | none ↦ none
    | some bytes ↦ some (success, bytes)
  ]
]

unfoldable pub fbsd_destroy_device : DevicePriv → DevicePriv
fbsd_destroy_device dev = record dev { cdesc = none }
