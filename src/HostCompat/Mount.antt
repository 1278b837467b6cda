-- ===== src/HostCompat/Mount.antt =====
-- hasmntopt of patches/misc/host_compat.h; a string is its bytes without the terminator, and a place in
-- it a position.
use android_sdk_custom.Prelude.{
  ℕ, zero, suc, ◌+◌, ◌-◌, List, [], ◌∷◌, Option, none, some, Bool, true, false, ◌&&◌, ◌||◌, ◌==◌,
  drop, length, get_or,
}

abbrev pub begins : List ℕ → List ℕ → Bool
begins [] s = true
begins (c ∷ opt) [] = false
begins (c ∷ opt) (d ∷ s) = (c == d) && begins opt s

abbrev pub later : Option ℕ → Option ℕ
later none = none
later (some k) = some (suc k)

abbrev pub begins_end : Bool → Option ℕ
begins_end true = some 0
begins_end false = none

unfoldable pub strstr : List ℕ → List ℕ → Option ℕ
strstr [] opt = begins_end (begins opt [])
strstr (d ∷ s) opt = elim (begins opt (d ∷ s)) [ true ↦ some 0 | false ↦ later (strstr s opt) ]

unfoldable pub strchr : List ℕ → ℕ → Option ℕ
strchr [] c = none
strchr (d ∷ s) c = elim (d == c) [ true ↦ some 0 | false ↦ later (strchr s c) ]

-- The byte at a position; at the end it is the terminator.
abbrev pub byte : List ℕ → ℕ → ℕ
byte s i = get_or s i 0

abbrev pub ends : ℕ → Bool
ends c = (c == 0) || ((c == b',') || (c == b'='))

-- The test on `p`.
abbrev pub delimited : List ℕ → List ℕ → ℕ → Bool
delimited opts opt p =
    ((p == 0) || (byte opts (p - 1) == b',')) && ends (byte opts (p + length opt))

module _ (opts opt : List ℕ) where
  -- The loop, from the position `rest`, with fuel.
  unfoldable pub option_loop : ℕ → ℕ → Option (Option ℕ)
  unfolding strstr strchr
  option_loop zero rest = none
  option_loop (suc fuel) rest = elim (strstr (drop rest opts) opt) [
    | none ↦ some none
    | some k ↦ elim (delimited opts opt (rest + k)) [
      | true ↦ some (some (rest + k))
      | false ↦ elim (strchr (drop (rest + k) opts) b',') [
        | none ↦ some none
        | some j ↦ option_loop fuel (rest + k + j + 1)
      ]
    ]
  ]

  -- The position of the option, or `none` for a null pointer.
  unfoldable pub hasmntopt : Option (Option ℕ)
  unfolding option_loop
  hasmntopt = option_loop (length opts + 2) 0
