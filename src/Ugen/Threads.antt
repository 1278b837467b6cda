-- ===== src/Ugen/Threads.antt =====
-- Several threads on one handle: the sections of _sync_gen_transfer under the lock, in any order.
use android_sdk_custom.Prelude.{
  ℕ, ◌≡◌, ◌≢◌, List, [], ◌∷◌, Option, some, Bool, false, ◌&&◌, if◌then◌else◌, ◌>>=◌, get_or,
}
use android_sdk_custom.Ugen.Errors.{failed, answered, ebusy, Errno}
use android_sdk_custom.Ugen.Slots.{HandlePriv, Driver, FsOpen, Completion, fs_drain}
use android_sdk_custom.Ugen.Transfer.{Request, idle, start}

-- The start of a transfer; a drain, with the look at the done flag of a slot; the stop of a slot, by a
-- timeout or an interrupt.
pub data Section : Type 0 where
  starts : Request → Section
  looks stops : ℕ → Section

module _ {K : Type 0} (d : Driver K) (fuel : ℕ) where
  abbrev pub looked : ℕ → HandlePriv × K × Bool → Option (HandlePriv × K)
  looked slot (h, k, ok) =
      some (if ok && get_or h.done slot false then (idle slot h, k) else (h, k))

  -- `none`: a drain is out of fuel.
  unfoldable pub section : Section → HandlePriv → K → Option (HandlePriv × K)
  section (starts r) h k = let (h', k', s) = start d r h k in some (h', k')
  section (looks slot) h k = fs_drain d fuel h k >>= looked slot
  section (stops slot) h k = fs_drain d fuel h (d.fs_stop k slot) >>= λ r. some (idle slot r.0, r.1)

  unfoldable pub sections : List Section → HandlePriv → K → Option (HandlePriv × K)
  unfolding section
  sections [] h k = some (h, k)
  sections (a ∷ rest) h k = section a h k >>= λ r. sections rest r.0 r.1

-- Where the kernel is with a slot: no transfer, one that runs, or one that is complete with this
-- status and length and has not been handed over.
pub data Port : Type 0 where
  unstarted running : Port
  finished : ℕ → ℕ → Port

-- What may become of a port when no call is made on its slot: a transfer that runs may complete.
abbrev pub Later : Port → Port → Type 0
Later unstarted q = q ≡ unstarted
Later running q = q ≢ unstarted
Later (finished s n) q = q ≡ finished s n

abbrev pub HandedOver : Port → Completion → Type 0
HandedOver unstarted c = ⊥
HandedOver running c = Unit {0}
HandedOver (finished s n) c = (c.status ≡ s) × (c.length ≡ n)

-- What is relied on of the kernel: USB_FS_COMPLETE hands over a transfer that was started, and then
-- the slot has none; it answers EBUSY only when no transfer is complete; and a call on one slot does
-- nothing to another.
pub record Ports {K : Type 0} (d : Driver K) : Type 0 where
  pub port : K → ℕ → Port
  pub own :
      (k : K) (c : Completion)
      → (d.fs_complete k).1 ≡ answered c
      → HandedOver (port k c.ep_index) c × (port (d.fs_complete k).0 c.ep_index ≡ unstarted)
  pub other :
      (k : K) (c : Completion) (j : ℕ)
      → (d.fs_complete k).1 ≡ answered c
      → c.ep_index ≢ j
      → Later (port k j) (port (d.fs_complete k).0 j)
  pub refused :
      (k : K) (e : Errno) (j : ℕ)
      → (d.fs_complete k).1 ≡ failed e
      → Later (port k j) (port (d.fs_complete k).0 j)
  pub busy : (k : K) (j s n : ℕ) → (d.fs_complete k).1 ≡ failed ebusy → port k j ≢ finished s n
  pub at_start : (k : K) (i j : ℕ) → i ≢ j → Later (port k j) (port (d.fs_start k i).0 j)
  pub at_stop : (k : K) (i j : ℕ) → i ≢ j → Later (port k j) (port (d.fs_stop k i) j)
  pub at_open :
      (k : K) (r : FsOpen) (j : ℕ) → r.ep_index ≢ j → Later (port k j) (port (d.fs_open k r).0 j)
  pub at_close : (k : K) (i j : ℕ) → i ≢ j → Later (port k j) (port (d.fs_close k i) j)
