-- ===== src/Termux/Listener/Opens.antt =====
-- A device that is authorized is opened by its descriptor.
use mathlib.Core.List.{Memᴰ}
use mathlib.Core.Path.{ap}
use android_sdk_custom.Prelude.{
  ◌≡◌, refl, ℕ, List, [], ◌∷◌, ◌++◌, Option, none, some, Bool, true, ◌⊎◌, inl, inr, arith,
  Bool-cases, length, All, ap,
}
use android_sdk_custom.Termux.Directories.{same_path, update_dir_map}
use android_sdk_custom.Termux.Directories.Listed.{update_dir_map-Lists}
use android_sdk_custom.Termux.Listener.{
  Message, with_fd, Maps, Shared, done, joined, Setup, get, known, requested, sent, with_serial,
  received, listen, authorize, Files, open_hook,
}

module _ {ℓ} {N : Type ℓ} (same before : N → N → Bool)
    (same_sound : (a b : N) → same a b ≡ true → a ≡ b) (same_refl : (n : N) → same n n ≡ true)
    (b : N) (bs : List N) (serial_of : ℕ → Option (Option (List N × List ℕ)))
    (fd_of : List N → ℕ) where
  abbrev same_as : List N → List N → Bool
  same_as = same_path same before

  same_path_sound : (p q : List N) → same_as p q ≡ true → p ≡ q
  unfolding same_path
  same_path_sound [] [] e = refl
  same_path_sound [] (q ∷ qs) e = cc
  same_path_sound (p ∷ ps) [] e = cc
  same_path_sound (p ∷ ps) (q ∷ qs) e =
      let first : p ≡ q = same_sound p q (ground arith) in
      let rest : ps ≡ qs = same_path_sound ps qs (ground arith) in rw (first, rest) refl

  same_path_same : (p : List N) → same_as p p ≡ true
  unfolding same_path
  same_path_same [] = refl
  same_path_same (n ∷ p) = rw (same_refl n, same_path_same p) refl

  -- The path of a device under the base directory, and a descriptor of it at which nothing panics.
  abbrev pub Sound : List N → Type ℓ
  Sound p =
      ((c : N) × (ds : List N) × (p ≡ c ∷ (ds ++ b ∷ bs)))
      × ((s : Option (List N × List ℕ)) × (serial_of (fd_of p) ≡ some s))

  -- Each device answers with its descriptor.
  abbrev pub grants_all : List N → Option (Message (List N))
  grants_all p = some (with_fd p (fd_of p))

  get_next :
      (p q : List N) (m n : Maps (List N))
      → n.usb_fds ≡ (q, fd_of q) ∷ m.usb_fds
      → (get same_as p m.usb_fds ≡ some (fd_of p)) ⊎ (p ≡ q)
      → get same_as p n.usb_fds ≡ some (fd_of p)
  unfolding get
  get_next p q m n e h = elim (Bool-cases (same_as q p)) [
    | inl s ↦ let at : q ≡ p = same_path_sound q p s in rw (e, s, get) (ap (λ x. some (fd_of x)) at)
    | inr d ↦ elim h [
      | inl old ↦ rw (e, d, get) old
      | inr at ↦ let s : same_as q p ≡ true = rw at (same_path_same q) in cc
    ]
  ]

  with_serial_fds :
      (s : Option (List N × List ℕ)) (m : Maps (List N))
      → (with_serial same before (b ∷ bs) serial_of s m).usb_fds ≡ m.usb_fds
  with_serial_fds none m = refl
  with_serial_fds (some s) m = refl

  received-Sound :
      (q : List N) (w : Shared N)
      → Sound q
      → (w' : Shared N) × (received same before (b ∷ bs) serial_of (with_fd q (fd_of q)) w
          ≡ some w')
        × (w'.maps.usb_fds ≡ (q, fd_of q) ∷ w.maps.usb_fds)
  unfolding received
  received-Sound q w ((c, ds, at), (s, read)) =
      let (dirs, (e, named)) = update_dir_map-Lists same before same_refl c b ds bs w.dirs in
      let climbs : update_dir_map same before (b ∷ bs) q w.dirs ≡ some dirs = rw at e in
      rw (climbs, read, received) (_, refl, with_serial_fds s _)

  listen-Opens :
      (p : List N) (devices : List (List N)) (w : Shared N)
      → All Sound devices
      → (get same_as p w.maps.usb_fds ≡ some (fd_of p)) ⊎ Memᴰ p devices
      → (w' : Shared N) × (listen same before
            (b ∷ bs)
            serial_of
            (length devices)
            (sent grants_all devices)
            w
          ≡ done w')
        × (get same_as p w'.maps.usb_fds ≡ some (fd_of p))
  unfolding listen sent
  listen-Opens p [] w sound (inl e) = (w, refl, e)
  listen-Opens p [] w sound (inr m) = absurd (elim m [ ])
  listen-Opens p (q ∷ ds) w sound h =
      let (w', e, fds) = received-Sound q w sound.0 in
      let next : (get same_as p w'.maps.usb_fds ≡ some (fd_of p)) ⊎ Memᴰ p ds = elim h [
        | inl old ↦ inl (get_next p q w.maps w'.maps fds (inl old))
        | inr m ↦ elim m [
          | Memᴰ.head at ↦ inl (get_next p q w.maps w'.maps fds (inr at))
          | Memᴰ.tail later ↦ inr later
        ]
      ] in
      rw (e, listen, sent) (listen-Opens p ds w' sound.1 next)

  all_requested : (devices : List (List N)) → requested same_as [] devices ≡ devices
  unfolding requested known
  all_requested [] = refl
  all_requested (p ∷ ps) = rw (all_requested ps) refl

  -- With termux-usb, a pair of sockets and the path of the executable, each device that termux-usb
  -- lists lying under the base directory and answering with a descriptor, and no panic in the reading
  -- of the serial numbers: authorize_connected_devices comes to its end, and open of any of these
  -- devices then rewinds and returns the descriptor that came with it.
  pub authorize-open_hook :
      {S : Type ℓ} (f : Files (List N) S) (setup : Setup) (devices : List (List N)) (w : Shared N)
      (p : List N) (flags mode : ℕ) (s : S)
      → setup ≡ record { dependencies = true; sockets = true; executable = true }
      → All Sound devices
      → Memᴰ p devices
      → (w' : Shared N) × (authorize same before (b ∷ bs) serial_of setup grants_all devices w
          ≡ joined (done w'))
        × (open_hook f same_as w'.maps (some p) flags mode s ≡ (f.seek (fd_of p) s, fd_of p))
  unfolding authorize open_hook
  authorize-open_hook f setup devices w p flags mode s ready sound listed =
      let (w', e, found) = listen-Opens p devices w sound (inr listed) in
      (w', rw (ready, all_requested devices, authorize) (ap joined e), rw (found, open_hook) refl)
