-- ===== src/Examples/Scanning.antt =====
-- A device that is there at two scans and leaves at the third.
use android_sdk_custom.Prelude.{ℕ, ◌+◌, ◌≤◌, ◌≡◌, refl, List, [], ◌∷◌, Option, none, some, arith}
use android_sdk_custom.AdbScan.{
  listing, free_list, ref, unref, arrived, left, Scan, start, arrive_loop, leave_loop, round, run,
}
use android_sdk_custom.AdbScan.Counts.{count, taken, dropped, arrival, departure, total}
use android_sdk_custom.AdbScan.Rounds.{run-start_counts, round_lem}

abbrev scans : List (Option (List ℕ))
scans = some (7 ∷ []) ∷ none ∷ some (7 ∷ 8 ∷ []) ∷ some (8 ∷ []) ∷ none ∷ []

scans_test : run scans start ≡ (
  record { known = 8 ∷ []; released = [] },
  listing (7 ∷ [])
      ∷ ref 7
      ∷ arrived 7
      ∷ free_list (7 ∷ [])
      ∷ listing (7 ∷ 8 ∷ [])
      ∷ ref 8
      ∷ arrived 8
      ∷ free_list (7 ∷ 8 ∷ [])
      ∷ listing (8 ∷ [])
      ∷ left 7
      ∷ free_list (8 ∷ [])
      ∷ unref 7
      ∷ [],
)
unfolding run round arrive_loop leave_loop
scans_test = refl

run-start_counts_example :
    let (s, calls) = run scans start in
    (total (taken 7) calls ≡ total (dropped 7) calls + (count 7 s.known + count 7 s.released))
    × (total (arrival 7) calls ≡ total (departure 7) calls + count 7 s.known)
    × (count 7 s.known ≤ 1)
run-start_counts_example = run-start_counts scans 7

abbrev seven : Scan
seven = record { known = 7 ∷ []; released = [] }

round_lem_example :
    let (s', calls) = round seven (some (8 ∷ [])) in
    (count 7 s'.known ≡ 0) × (total (arrival 7) calls ≡ 0) × (total (departure 7) calls ≡ 1)
round_lem_example = round_lem seven (8 ∷ []) 7 (omega arith)
