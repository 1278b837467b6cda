-- ===== src/Ugen/Cached.antt =====
-- The cached descriptor stays within its buffer, and reading it gives what the kernel wrote.
use mathlib.Core.Path.{subst}
use android_sdk_custom.Prelude.{
  ap, zero, suc, le→leb, Option-cases, ℕ, ◌≤◌, ◌≡◌, refl, List, [], ◌∷◌, ◌++◌, Option, none, some,
  arith, length, length-append, take, drop, min, ltb, ◌||◌, ◌⊎◌, inl, inr, Bool-cases, ◌%◌, ◌^◌,
  ◌≢◌, sym,
}
use android_sdk_custom.Libusb.{LibusbError, success, not_found, io, no_mem}
use android_sdk_custom.Ugen.Errors.{
  Reply, failed, answered, errno_to_libusb, Errno, another, eio, eacces, enoent, enxio, enomem,
  etimedout, ebusy, einval,
}
use android_sdk_custom.Ugen.Descriptors.{
  copy_in, header_size, DevicePriv, Device, DeviceInfo, total_length, copy_out, store_blob,
  read_blob, read_header, with_info, cache_active_config_descriptor, refresh, after_set,
  fbsd_set_configuration, fbsd_get_active_config_descriptor, open_node,
}

-- The cached length is within the buffer.
abbrev pub InBuffer : Option (List ℕ) → ℕ → Type 0
InBuffer none n = Unit {0}
InBuffer (some buf) n = n ≤ length buf

abbrev pub Cached : DevicePriv → Type 0
Cached dev = InBuffer dev.cdesc dev.cdesc_len

-- The kernel writes no more than ugd_maxlen bytes, and malloc gives a buffer of the size asked for.
pub record Laws {K : Type 0} (d : Device K) : Type 0 where
  pub within : (k : K) (n i : ℕ) (w : List ℕ) → (d.full_desc k n i).1 ≡ answered w → length w ≤ n
  pub allocated : (k : K) (n : ℕ) (buf : List ℕ) → (d.malloc k n).1 ≡ some buf → length buf ≡ n

-- What a call left, which opens the node with this answer: the cache as it was, where the call or the
-- opening failed; or a new one, of a call that succeeded, in which the bytes stand first that the
-- kernel wrote when it was asked for as many as the header said, that it had written before.
pub data Refreshed {K : Type 0} (d : Device K) (node : Reply (Unit {0})) (old : Option (List ℕ))
    (old_len : ℕ) (new : DevicePriv) (err : LibusbError) : Type 0 where
  kept :
      (err ≢ success) ⊎ ((e : Errno) × (node ≡ failed e))
      → new.cdesc ≡ old
      → new.cdesc_len ≡ old_len
      → Refreshed d node old old_len new err
  renewed :
      (k m : K) (i : ℕ) (hdr w rest : List ℕ)
      → (d.full_desc k header_size i).1 ≡ answered hdr
      → (d.full_desc m (total_length hdr % 2 ^ 16) i).1 ≡ answered w
      → err ≡ success
      → new.cdesc ≡ some (w ++ rest)
      → new.cdesc_len ≡ length w
      → Refreshed d node old old_len new err

errno_to_libusb_failure : (e : Errno) → errno_to_libusb e ≢ success
unfolding errno_to_libusb
errno_to_libusb_failure eio = λ x. cc
errno_to_libusb_failure eacces = λ x. cc
errno_to_libusb_failure enoent = λ x. cc
errno_to_libusb_failure enxio = λ x. cc
errno_to_libusb_failure enomem = λ x. cc
errno_to_libusb_failure etimedout = λ x. cc
errno_to_libusb_failure ebusy = λ x. cc
errno_to_libusb_failure einval = λ x. cc
errno_to_libusb_failure (another n) = λ x. cc

copy_in_fits :
    (w buf : List ℕ) → length w ≤ length buf → copy_in w buf ≡ some (w ++ drop (length w) buf)
unfolding copy_in
copy_in_fits w buf h = rw (copy_in, le→leb (length w) (length buf) h) refl

-- A call that stays within its buffers, and what it leaves.
abbrev pub Settles :
    {K : Type 0}
    → Device K
    → Reply (Unit {0})
    → DevicePriv
    → Option (DevicePriv × K × LibusbError)
    → Type 0
Settles {K} d node dev o =
    (r : DevicePriv × K × LibusbError) × (o ≡ some r)
    × Cached r.0
    × Refreshed d node dev.cdesc dev.cdesc_len r.0 r.2

module _ {K : Type 0} (d : Device K) (laws : Laws d) (node : Reply (Unit {0})) where
  failing-Settles :
      (dev new : DevicePriv) (k : K) (err : LibusbError)
      → err ≢ success
      → new.cdesc ≡ dev.cdesc
      → new.cdesc_len ≡ dev.cdesc_len
      → Cached new
      → Settles d node dev (some (new, k, err))
  failing-Settles dev new k err ne p q h = ((new, k, err), refl, h, kept (inl ne) p q)

  store_blob-Settles :
      (dev : DevicePriv) (buf hdr : List ℕ) (k m : K) (i : ℕ) (r : K × Reply (List ℕ))
      → (d.full_desc k header_size i).1 ≡ answered hdr
      → length buf ≡ total_length hdr
      → d.full_desc m (total_length hdr % 2 ^ 16) i ≡ r
      → Cached dev
      → Settles d node dev (store_blob d dev buf r)
  unfolding store_blob
  store_blob-Settles dev buf hdr k m i (k', failed e) a z q h =
      failing-Settles dev dev k' _ (errno_to_libusb_failure e) refl refl h
  store_blob-Settles dev buf hdr k m i (k', answered w) a z q h =
      let writes = ap (λ x. x.1) q in
      let room : length w ≤ total_length hdr % 2 ^ 16 =
        laws.within m (total_length hdr % 2 ^ 16) i w writes in
      let fits : length w ≤ length buf = omega (arith, room, z) in
      rw (copy_in_fits w buf fits, store_blob)
        (
          _,
          refl,
          omega (arith, length-append w (drop (length w) buf)),
          renewed k m i hdr w (drop (length w) buf) a writes refl refl refl,
        )

  read_blob-Settles :
      (index : ℕ) (hdr : List ℕ) (dev : DevicePriv) (k m : K) (r : K × Option (List ℕ))
      → (d.full_desc k header_size index).1 ≡ answered hdr
      → d.malloc m (total_length hdr) ≡ r
      → Cached dev
      → Settles d node dev (read_blob d index (total_length hdr) dev r)
  unfolding read_blob
  read_blob-Settles index hdr dev k m (k', none) a q h =
      failing-Settles dev dev k' no_mem (λ x. cc) refl refl h
  read_blob-Settles index hdr dev k m (k', some buf) a q h =
      store_blob-Settles dev buf hdr k k' index _ a
        (laws.allocated m (total_length hdr) buf (ap (λ x. x.1) q)) refl h

  read_header-Settles :
      (index : ℕ) (dev : DevicePriv) (k : K) (r : K × Reply (List ℕ))
      → d.full_desc k header_size index ≡ r
      → Cached dev
      → Settles d node dev (read_header d index dev r)
  unfolding read_header
  read_header-Settles index dev k (k', failed e) q h =
      failing-Settles dev dev k' _ (errno_to_libusb_failure e) refl refl h
  read_header-Settles index dev k (k', answered hdr) q h =
      let a = ap (λ x. x.1) q in
      let room = laws.within k header_size index hdr a in
      elim (Bool-cases (ltb header_size (length hdr))) [
        | inl long ↦ absurd (ground (arith, room))
        | inr short ↦ elim (Bool-cases (ltb (length hdr) 4 || ltb (total_length hdr) 4)) [
          | inl b ↦ rw (short, b, read_header) (failing-Settles dev dev k' io (λ x. cc) refl refl h)
          | inr b ↦ rw (short, b, read_header) (read_blob-Settles index hdr dev k k' _ a refl h)
        ]
      ]

  with_info-Settles :
      (dev : DevicePriv) (r : K × Reply DeviceInfo)
      → Cached dev
      → Settles d node dev (with_info d dev r)
  unfolding with_info
  with_info-Settles dev (k, failed e) h =
      failing-Settles dev dev k _ (errno_to_libusb_failure e) refl refl h
  with_info-Settles dev (k, answered info) h =
      read_header-Settles info.config_index (record dev { cval = info.config_no }) k _ refl h

  refresh-Settles :
      (dev : DevicePriv) (r : K × Reply (Unit {0}))
      → r.1 ≡ node
      → Cached dev
      → Settles d node dev (refresh d dev r)
  unfolding refresh cache_active_config_descriptor
  refresh-Settles dev (k, failed e) q h =
      ((dev, k, success), refl, h, kept (inr (e, sym q)) refl refl)
  refresh-Settles dev (k, answered _) q h = with_info-Settles dev (d.device_info k) h

after_set-Settles :
    {K : Type 0} (d : Device K) (laws : Laws d) (dev : DevicePriv) (r : K × Reply (Unit {0}))
    → Cached dev
    → Settles d (open_node d r.0 d.o_rdonly).1 dev (after_set d dev r)
unfolding after_set
after_set-Settles d laws dev (k, failed e) h =
    failing-Settles d laws _ dev dev k _ (errno_to_libusb_failure e) refl refl h
after_set-Settles d laws dev (k, answered _) h =
    refresh-Settles d laws _ dev (open_node d k d.o_rdonly) refl h

-- With a kernel that writes at most ugd_maxlen bytes and a malloc that gives the size asked for,
-- setting a configuration writes nothing behind the end of a buffer, and leaves a device whose cached
-- descriptor lies within its buffer in such a state. Either the cache is as it was, and then the call
-- fails or the node cannot be opened; or the call succeeds, and the cache holds the bytes, with their
-- number, that the kernel wrote when it was asked for as many as the header before said.
pub fbsd_set_configuration_lem :
    {K : Type 0} (d : Device K) (dev : DevicePriv) (k : K) (config : ℕ)
    → Laws d
    → Cached dev
    → (r : DevicePriv × K × LibusbError) × (fbsd_set_configuration d dev k config ≡ some r)
      × Cached r.0
      × Refreshed d
          (open_node d (d.set_config k config).0 d.o_rdonly).1
          dev.cdesc
          dev.cdesc_len
          r.0
          r.2
unfolding fbsd_set_configuration
fbsd_set_configuration_lem d dev k config laws h =
    after_set-Settles d laws dev (d.set_config k config) h

take-append_le : (n : ℕ) (w rest : List ℕ) → n ≤ length w → take n (w ++ rest) ≡ take n w
take-append_le zero w rest h = refl
take-append_le (suc n) [] rest h = absurd (omega arith)
take-append_le (suc n) (x ∷ w) rest h = rw (take-append_le n w rest (omega arith))

-- Of a device whose cached descriptor lies within its buffer, fbsd_get_active_config_descriptor reads
-- nothing behind that buffer. Without a cached descriptor it answers LIBUSB_ERROR_NOT_FOUND; with one
-- it copies as many of the first bytes as the caller has room for and the cache counts.
pub get_active_lem :
    (dev : DevicePriv) (len : ℕ)
    → Cached dev
    → ((dev.cdesc ≡ none) × (fbsd_get_active_config_descriptor dev len ≡ some (not_found, [])))
      ⊎ ((buf : List ℕ) × (dev.cdesc ≡ some buf)
          × (fbsd_get_active_config_descriptor dev len
              ≡ some (success, take (min len dev.cdesc_len) buf)))
unfolding fbsd_get_active_config_descriptor copy_out
get_active_lem dev len h = elim (Option-cases dev.cdesc) [
  | inl n ↦ inl (n, simp (n, fbsd_get_active_config_descriptor))
  | inr (buf, n) ↦
      let room : dev.cdesc_len ≤ length buf = subst (λ x. InBuffer x dev.cdesc_len) n h in
      inr (
        buf,
        n,
        simp (
          n,
          fbsd_get_active_config_descriptor,
          le→leb (min len dev.cdesc_len) (length buf) (ground arith),
        ),
      )
]

-- After a call that renewed the cache, the active descriptor is read as the kernel wrote it, cut to
-- the caller's room.
pub renewed_read :
    (dev : DevicePriv) (len : ℕ) (w rest : List ℕ)
    → dev.cdesc ≡ some (w ++ rest)
    → dev.cdesc_len ≡ length w
    → fbsd_get_active_config_descriptor dev len ≡ some (success, take (min len (length w)) w)
unfolding fbsd_get_active_config_descriptor copy_out
renewed_read dev len w rest p q = simp (
  p,
  q,
  fbsd_get_active_config_descriptor,
  le→leb (min len (length w)) (length (w ++ rest)) (ground (arith, length-append w rest)),
  take-append_le (min len (length w)) w rest (ground arith),
)
