-- ===== src/Termux/Listener.antt =====
-- patches/termux/libtermuxadb/src/lib.rs: the devices that termux-usb hands over, and the files that
-- are opened through them. A path is of a type P with a test for equality, or the list of its names, as
-- in Termux.Directories; a HashMap is the list of its insertions, newest first.
pub mod Opens
use Prim.Native.Nat.{bit_and}
use android_sdk_custom.Prelude.{
  ℕ, zero, suc, List, [], ◌∷◌, Option, none, some, Bool, true, false, ◌==◌, ◌||◌, if◌then◌else◌,
  length, not, ◌>>=◌,
}
use android_sdk_custom.Termux.Directories.{Entry, same_path, update_dir_map}

-- What recv_with_fd gives: a message without a descriptor, one with its path and descriptor, an error.
pub data Message {ℓ} (P : Type ℓ) : Type ℓ where
  without_fd : Message P
  with_fd : P → ℕ → Message P
  receive_error : Message P

-- USB_FD_MAP and USB_SERIAL_MAP.
pub record Maps {ℓ} (P : Type ℓ) : Type ℓ where
  pub usb_fds : List (P × ℕ)
  pub serials : List (P × List ℕ)

-- The maps that the listener fills, with DIR_MAP; a path is the list of its names.
pub record Shared {ℓ} (N : Type ℓ) : Type ℓ where
  pub maps : Maps (List N)
  pub dirs : List (List N × List (Entry N))

-- The listener is done, waits for a message with so many still to come, or has panicked.
pub data Listening {ℓ} (N : Type ℓ) : Type ℓ where
  done : Shared N → Listening N
  blocked : ℕ → Shared N → Listening N
  panicked : Listening N

-- authorize_connected_devices returned an error at once; or it comes to what the listener comes to,
-- whose panic it passes on.
pub data Authorized {ℓ} (N : Type ℓ) : Type ℓ where
  refused : Authorized N
  joined : Listening N → Authorized N

-- What goes well before the devices are listed: termux-usb is found, the pair of sockets is created,
-- and the path of the executable is known.
pub record Setup : Type 0 where
  pub dependencies : Bool
  pub sockets : Bool
  pub executable : Bool

module _ {ℓ} {P : Type ℓ} (same : P → P → Bool) where
  unfoldable pub get {κ} : {V : Type κ} → P → List (P × V) → Option V
  get p [] = none
  get p ((q, v) ∷ m) = let rest = get p m in if same q p then some v else rest

  unfoldable pub known : P → List P → Bool
  known p [] = false
  known p (q ∷ qs) = same q p || known p qs

  -- The devices that request_usb_fds runs termux-usb for.
  unfoldable pub requested : List P → List P → List P
  unfolding known
  requested last [] = []
  requested last (p ∷ ps) = let rest = requested last ps in if known p last then rest else p ∷ rest

-- What the helpers of the devices send, in order; `none` where termux-usb runs no helper, or the
-- helper sends nothing.
unfoldable pub sent {ℓ} : {P : Type ℓ} → (P → Option (Message P)) → List P → List (Message P)
sent answer [] = []
sent answer (p ∷ ps) =
    let rest = sent answer ps in elim (answer p) [ none ↦ rest | some m ↦ m ∷ rest ]

-- init_libusb_device_serial of a descriptor, as log_warning_and_convert leaves it: the path of the
-- serial and the serial, if it succeeds; `none` where it panics.
module _ {ℓ} {N : Type ℓ} (same before : N → N → Bool) (base : List N)
    (serial_of : ℕ → Option (Option (List N × List ℕ))) where
  abbrev pub with_serial : Option (List N × List ℕ) → Maps (List N) → Maps (List N)
  with_serial none m = m
  with_serial (some s) m = record m { serials = s ∷ m.serials }

  -- A message; `none` is a panic, in update_dir_map or in the reading of the serial number.
  unfoldable pub received : Message (List N) → Shared N → Option (Shared N)
  received (with_fd p fd) w = update_dir_map same before base p w.dirs >>= λ dirs.
      serial_of fd >>= λ serial. some (record {
        maps = with_serial serial (record w.maps { usb_fds = (p, fd) ∷ w.maps.usb_fds });
        dirs = dirs;
      })
  received without_fd w = some w
  received receive_error w = some w

  -- start_socket_listener for a number of devices, along the messages that are sent.
  unfoldable pub listen : ℕ → List (Message (List N)) → Shared N → Listening N
  unfolding received
  listen zero messages w = done w
  listen (suc n) [] w = blocked (suc n) w
  listen (suc n) (msg ∷ messages) w = elim (received msg w) [
    | none ↦ panicked
    | some w' ↦ listen n messages w'
  ]

  -- authorize_connected_devices, with the list of termux-usb, to the end of the thread.
  unfoldable pub authorize :
      Setup → (List N → Option (Message (List N))) → List (List N) → Shared N → Authorized N
  unfolding requested sent listen
  authorize setup answer devices w =
      if not setup.dependencies
      then refused
      else if not setup.sockets
      then refused
      else if not setup.executable
      then refused
      else joined
          (listen (length devices) (sent answer (requested (same_path same before) [] devices)) w)

-- The system's calls: a file in memory, what a write of all bytes and a seek to its start give, and
-- libc's open without and with a mode. O_CREAT is the last field.
pub record Files {ℓ} (P S : Type ℓ) : Type ℓ where
  pub memfd_create : S → S × Option ℕ
  pub write_and_seek : ℕ → List ℕ → S → S × Bool
  pub seek : ℕ → S → S
  pub libc_open : Option P → ℕ → S → S × ℕ
  pub libc_open_mode : Option P → ℕ → ℕ → S → S × ℕ
  pub o_creat : ℕ

module _ {ℓ} {P S : Type ℓ} (f : Files P S) (same : P → P → Bool) where
  unfoldable pub open_native : Option P → ℕ → ℕ → S → S × ℕ
  open_native path flags mode s =
      if bit_and flags f.o_creat == 0
      then f.libc_open path flags s
      else f.libc_open_mode path flags mode s

  -- A serial number is read from a file in memory; where that fails the native open is tried.
  unfoldable pub open_serial : P → List ℕ → ℕ → ℕ → S → S × ℕ
  unfolding open_native
  open_serial path serial flags mode s =
      let (t, made) = f.memfd_create s in
      elim made [
        | none ↦ open_native (some path) flags mode t
        | some fd ↦
            let (u, ok) = f.write_and_seek fd serial t in
            let native = open_native (some path) flags mode u in if ok then (u, fd) else native
      ]

  -- `open` of a null pointer, or of a path.
  unfoldable pub open_hook : Maps P → Option P → ℕ → ℕ → S → S × ℕ
  unfolding open_native open_serial get
  open_hook m none flags mode s = open_native none flags mode s
  open_hook m (some path) flags mode s = elim (get same path m.usb_fds) [
    | some fd ↦ (f.seek fd s, fd)
    | none ↦ elim (get same path m.serials) [
      | some serial ↦ open_serial path serial flags mode s
      | none ↦ open_native (some path) flags mode s
    ]
  ]
