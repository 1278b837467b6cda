-- ===== src/Examples/Wiping.antt =====
-- A kernel without MADV_WIPEONFORK, and a fork.
use mathlib.Core.List.{foldl}
use android_sdk_custom.Prelude.{
  ◌≡◌, refl, ℕ, List, [], ◌∷◌, Option, none, some, take, ◌==◌, if◌then◌else◌,
}
use android_sdk_custom.WipeOnFork.{
  Region, start, einval, madv_dontneed, madv_wipeonfork, max_regions, wipe_child, run,
}
use android_sdk_custom.WipeOnFork.Record.{refused}
use android_sdk_custom.WipeOnFork.Child.{dontneed, wipe_child_lem}

-- It remembers the ranges that were dropped.
abbrev old_kernel : List Region → ℕ → ℕ → ℕ → List Region × Option ℕ
old_kernel dropped addr len advice =
    if advice == madv_wipeonfork
    then (dropped, some einval)
    else (if advice == madv_dontneed
        then (record { p = addr; n = len } ∷ dropped, none)
        else (dropped, none))

abbrev calls : List (ℕ × ℕ × ℕ)
calls = (4096, 100, madv_wipeonfork) ∷ (8192, 50, madv_dontneed) ∷ (12288, 10, madv_wipeonfork) ∷ []

abbrev two_ranges : List Region
two_ranges = record { p = 4096; n = 100 } ∷ record { p = 12288; n = 10 } ∷ []

refused_test : refused old_kernel [] calls ≡ two_ranges
unfolding refused
refused_test = refl

wipe_child_lem_example :
    wipe_child old_kernel (run old_kernel (start [] 0) calls)
    ≡ some (
        foldl
          (dontneed old_kernel)
          (run old_kernel (start [] 0) calls)
          (take max_regions (refused old_kernel [] calls)))
wipe_child_lem_example = wipe_child_lem old_kernel [] 0 calls
