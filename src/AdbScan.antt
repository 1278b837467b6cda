-- ===== src/AdbScan.antt =====
-- patches/sources/adb_libusb_scan.inc: the scan for USB devices. A round of its loop is a function of
-- what libusb_get_device_list returns; it gives the calls that it makes, in their order.
pub mod Counts
pub mod Known
pub mod Rounds
use android_sdk_custom.Prelude.{
  ℕ, List, [], ◌∷◌, ◌++◌, Option, none, some, Bool, true, false, map, ◌==◌, ◌||◌,
}

-- The calls: a list comes with a reference to each of its devices, and `free_list` drops them.
pub data Call : Type 0 where
  listing free_list : List ℕ → Call
  ref unref arrived left : ℕ → Call

pub record Scan : Type 0 where
  pub known : List ℕ
  pub released : List ℕ

abbrev pub start : Scan
start = record { known = []; released = [] }

-- std::find
abbrev pub elem : ℕ → List ℕ → Bool
elem d [] = false
elem d (x ∷ xs) = (x == d) || elem d xs

-- The loop over the devices that are there now.
unfoldable pub arrive_loop : List ℕ → List ℕ → List ℕ × List Call
arrive_loop [] known = (known, [])
arrive_loop (d ∷ now) known = elim (elem d known) [
  | true ↦ arrive_loop now known
  | false ↦
      let (known', calls) = arrive_loop now (known ++ (d ∷ [])) in
      (known', ref d ∷ arrived d ∷ calls)
]

-- One device of the loop over those that are known: whether it is there, and the rest of the loop.
abbrev pub leave : ℕ → Bool → List ℕ × List ℕ × List Call → List ℕ × List ℕ × List Call
leave d true (known, released, calls) = (d ∷ known, released, calls)
leave d false (known, released, calls) = (known, d ∷ released, left d ∷ calls)

-- What stays known, what is released, and the calls.
unfoldable pub leave_loop : List ℕ → List ℕ → List ℕ × List ℕ × List Call
leave_loop now [] = ([], [], [])
leave_loop now (d ∷ known) = leave d (elem d now) (leave_loop now known)

abbrev pub compared : List ℕ → List ℕ → Scan × List Call
compared now known =
    let (known', arrivals) = arrive_loop now known in
    let (kept, released, departures) = leave_loop now known' in
    (
      record { known = kept; released = released },
      listing now ∷ (arrivals ++ (departures ++ (free_list now ∷ []))),
    )

abbrev pub scanned : List ℕ → Option (List ℕ) → Scan × List Call
scanned known none = (record { known = known; released = [] }, [])
scanned known (some now) = compared now known

-- The devices that left in the last round are dropped first.
unfoldable pub round : Scan → Option (List ℕ) → Scan × List Call
unfolding arrive_loop leave_loop
round s found = let (s', calls) = scanned s.known found in (s', map unref s.released ++ calls)

unfoldable pub run : List (Option (List ℕ)) → Scan → Scan × List Call
unfolding round
run [] s = (s, [])
run (found ∷ rest) s =
    let (s', calls) = round s found in let (s'', later) = run rest s' in (s'', calls ++ later)
