-- ===== src/Groups.antt =====
-- patches/sources/diagnose_usb_in_group.inc: whether a process is in a supplementary group. What the
-- two calls of getgroups give are arguments.
use mathlib.Core.Logic.{◌↔◌}
use mathlib.Core.List.{Mem, mem-cons_self, mem-cons_of_mem, not-mem-nil, mem_of_ne_of_mem}
use android_sdk_custom.Prelude.{
  ℕ, zero, suc, List, [], ◌∷◌, Option, none, some, Bool, true, false, ◌==◌, if◌then◌else◌, length,
  replicate, drop, ◌++◌, ◌≡◌, refl, arith, Bool-cases, inl, inr,
}

-- The vector after the second getgroups: its first entries are written, the others are still 0.
unfoldable pub written : ℕ → Option (List ℕ) → List ℕ
written n none = replicate n 0
written n (some groups) = groups ++ drop (length groups) (replicate n 0)

-- `for (int i = 0; i < n; ++i) if (groups[i] == gid) return true;` for the first n entries.
unfoldable pub scan : ℕ → ℕ → List ℕ → Bool
scan gid zero groups = false
scan gid (suc n) [] = false
scan gid (suc n) (g ∷ groups) = let rest = scan gid n groups in if g == gid then true else rest

-- The value of the second call, `none` for -1, as the bound of the loop.
abbrev pub bound : Option (List ℕ) → ℕ
bound none = 0
bound (some groups) = length groups

-- `first` is the number that getgroups(0, nullptr) gives, `none` for -1; `second` gives the groups
-- that the second call writes into a vector of that size, `none` for -1.
unfoldable pub sdk_in_group : Option ℕ → (ℕ → Option (List ℕ)) → ℕ → Bool
unfolding written scan
sdk_in_group none second gid = false
sdk_in_group (some zero) second gid = false
sdk_in_group (some (suc n)) second gid =
    scan gid (bound (second (suc n))) (written (suc n) (second (suc n)))

scan-Mem :
    (gid : ℕ) (groups rest : List ℕ)
    → scan gid (length groups) (groups ++ rest) ≡ true
    → Mem gid groups
unfolding scan
scan-Mem gid [] rest e = absurd (ground arith)
scan-Mem gid (g ∷ groups) rest e = elim (Bool-cases (g == gid)) [
  | inl b ↦ let same : gid ≡ g = ground arith in rw same mem-cons_self
  | inr b ↦
      let later : scan gid (length groups) (groups ++ rest) ≡ true = ground arith in
      mem-cons_of_mem g (scan-Mem gid groups rest later)
]

Mem-scan :
    (gid : ℕ) (groups rest : List ℕ)
    → Mem gid groups
    → scan gid (length groups) (groups ++ rest) ≡ true
unfolding scan
Mem-scan gid [] rest m = absurd (not-mem-nil m)
Mem-scan gid (g ∷ groups) rest m = elim (Bool-cases (g == gid)) [
  | inl b ↦ rw b refl
  | inr b ↦ rw b (Mem-scan gid groups rest (mem_of_ne_of_mem (λ same. absurd (ground arith)) m))
]

-- Where the system says that there are groups and then lists them, the process is in a group exactly
-- if it is one of those listed.
pub sdk_in_group-Mem :
    (n : ℕ) (second : ℕ → Option (List ℕ)) (groups : List ℕ) (gid : ℕ)
    → second (suc n) ≡ some groups
    → (sdk_in_group (some (suc n)) second gid ≡ true) ↔ Mem gid groups
unfolding sdk_in_group written
sdk_in_group-Mem n second groups gid e = rw e (scan-Mem gid groups _, Mem-scan gid groups _)
