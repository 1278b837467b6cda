-- ===== src/HostCompat/MountFirst.antt =====
-- hasmntopt finds the first delimited place of the option.
use android_sdk_custom.HostCompat.Mount.{
  begins, strstr, strchr, byte, ends, delimited, option_loop, hasmntopt,
}
use android_sdk_custom.Prelude.{
  length-drop, ◌⊎◌, ℕ, zero, suc, ◌+◌, ◌-◌, ◌≤◌, ◌<◌, ◌≡◌, refl, sym, ap, ◌∙◌, List, none, some,
  Bool, true, false, ◌&&◌, ◌||◌, ◌==◌, drop, length, Bool-cases, Option-cases, inl, inr, arith,
  drop-drop,
}
use android_sdk_custom.HostCompat.Search.{
  first, Lacks, no_first, first_skip, first-none, byte-drop, strstr-none, strstr-some, strchr-none,
  strchr-some,
}

-- Where the option stands, delimited on both sides.
abbrev pub fits : List ℕ → List ℕ → ℕ → Bool
fits opts opt i = begins opt (drop i opts) && delimited opts opt i

missing :
    (opts opt : List ℕ) (i j : ℕ)
    → begins opt (drop j (drop i opts)) ≡ false
    → fits opts opt (i + j) ≡ false
missing opts opt i j e =
    ap (λ b. b && delimited opts opt (i + j)) (ap (begins opt) (sym (drop-drop i j opts)) ∙ e)

unfit : (b : Bool) (i : ℕ) (c e : Bool) → 0 < i → c ≡ false → (b && (((i == 0) || c) && e)) ≡ false
unfit b i c e lt f = ground (arith, lt, f)

-- Positions behind p and up to the next comma, of which no one is delimited.
between_commas :
    (opts opt : List ℕ) (p n : ℕ)
    → ((j : ℕ) → j < n → (byte (drop p opts) j == b',') ≡ false)
    → Lacks (fits opts opt) (p + 1) n
between_commas opts opt p n h j lt =
    let at : byte opts (p + 1 + j - 1) ≡ byte (drop p opts) j =
      ap (byte opts) (omega arith) ∙ sym (byte-drop p j opts) in
    let comma : (byte opts (p + 1 + j - 1) == b',') ≡ false = rw at (h j lt) in
    unfit (begins opt (drop (p + 1 + j) opts)) (p + 1 + j) (byte opts (p + 1 + j - 1) == b',')
      (ends (byte opts (p + 1 + j + length opt))) (omega arith) comma

-- What is left of the search behind a place that is not delimited.
skip_to_comma :
    (opts opt : List ℕ) (p : ℕ)
    → p ≤ length opts
    → fits opts opt p ≡ false
    → let found = first (fits opts opt) p (length opts + 1 - p) in
      ((strchr (drop p opts) b',' ≡ none) × (found ≡ none))
      ⊎ ((j : ℕ) × ((strchr (drop p opts) b',' ≡ some j)
            × (p + j < length opts)
            × (found ≡ first (fits opts opt) (p + j + 1) (length opts + 1 - (p + j + 1)))))
skip_to_comma opts opt p le f =
    let n = length opts - p in
    let size : length (drop p opts) ≡ n = omega (arith, length-drop p opts le) in
    let behind : first (fits opts opt) p (length opts + 1 - p) ≡ first (fits opts opt) (p + 1) n =
      let e : length opts + 1 - p ≡ suc n = omega (arith, le) in
      ap (first (fits opts opt) p) e ∙ no_first (fits opts opt) p n f in
    elim (Option-cases (strchr (drop p opts) b',')) [
      | inl e ↦ inl (
        e,
        behind
            ∙ first-none (fits opts opt) n (p + 1) (
                between_commas opts opt p n
                  (λ j lt. strchr-none (drop p opts) b',' j e (omega (arith, lt, size)))),
      )
      | inr (j, e) ↦
          let g = strchr-some (drop p opts) b',' j e in
          let split : n ≡ j + (length opts + 1 - (p + j + 1)) = omega (arith, g.within, size) in
          let start : p + 1 + j ≡ p + j + 1 = omega arith in
          inr (
            j,
            (
              e,
              omega (arith, g.within, size),
              behind
                  ∙ ap (first (fits opts opt) (p + 1)) split
                  ∙ first_skip (fits opts opt) j (p + 1) (length opts + 1 - (p + j + 1))
                      (between_commas opts opt p j g.before)
                  ∙ ap (λ m. first (fits opts opt) m (length opts + 1 - (p + j + 1))) start,
            ),
          )
    ]

-- The next place of the option, or none.
skip_to_place :
    (opts opt : List ℕ) (i : ℕ)
    → i ≤ length opts
    → let found = first (fits opts opt) i (length opts + 1 - i) in
      ((strstr (drop i opts) opt ≡ none) × (found ≡ none))
      ⊎ ((k : ℕ) × ((strstr (drop i opts) opt ≡ some k)
            × (i + k ≤ length opts)
            × (begins opt (drop (i + k) opts) ≡ true)
            × (found ≡ first (fits opts opt) (i + k) (length opts + 1 - (i + k)))))
skip_to_place opts opt i le =
    let size : length (drop i opts) ≡ length opts - i = omega (arith, length-drop i opts le) in
    elim (Option-cases (strstr (drop i opts) opt)) [
      | inl e ↦ inl (
        e,
        first-none (fits opts opt) (length opts + 1 - i) i (λ j lt.
            missing opts opt i j (strstr-none (drop i opts) opt j e (omega (arith, lt, size)))),
      )
      | inr (k, e) ↦
          let g = strstr-some (drop i opts) opt k e in
          let split : length opts + 1 - i ≡ k + (length opts + 1 - (i + k)) =
            omega (arith, g.within, size) in
          inr (
            k,
            (
              e,
              omega (arith, g.within, size),
              ap (begins opt) (sym (drop-drop i k opts)) ∙ g.here,
              ap (first (fits opts opt) i) split
                  ∙ first_skip (fits opts opt) k i (length opts + 1 - (i + k))
                      (λ j lt. missing opts opt i j (g.before j lt)),
            ),
          )
    ]

first_here : (p : ℕ → Bool) (i n : ℕ) → p i ≡ true → 0 < n → first p i n ≡ some i
first_here p i zero e lt = absurd (omega (arith, lt))
first_here p i (suc n) e lt = rw e refl

-- With enough fuel for the positions that are left, the loop finds the first of them that fits.
option_loop_lem :
    (opts opt : List ℕ) (fuel i : ℕ)
    → i ≤ length opts
    → length opts + 1 < fuel + i
    → option_loop opts opt fuel i ≡ some (first (fits opts opt) i (length opts + 1 - i))
unfolding option_loop
option_loop_lem opts opt zero i le h = absurd (omega (arith, le, h))
option_loop_lem opts opt (suc fuel) i le h = elim (skip_to_place opts opt i le) [
  | inl (e, f) ↦ rw (option_loop, e, f) refl
  | inr (k, (e, within, here, f)) ↦ elim (Bool-cases (delimited opts opt (i + k))) [
    | inl d ↦
        let g =
          first_here (fits opts opt) (i + k) (length opts + 1 - (i + k)) (rw (here, d) refl)
            (omega (arith, within)) in
        rw (option_loop, e, d, f, g) refl
    | inr d ↦ elim (skip_to_comma opts opt (i + k) within (rw (here, d) refl)) [
      | inl (c, g) ↦ rw (option_loop, e, d, c, f, g) refl
      | inr (j, (c, inside, g)) ↦
          rw (option_loop, e, d, c, f, g)
            (option_loop_lem opts opt fuel (i + k + j + 1) (omega (arith, inside))
              (omega (arith, h)))
    ]
  ]
]

-- hasmntopt returns the first position of the mount options at which the option stands, at their start
-- or behind a comma, and before their end, a comma or a `=`; it returns a null pointer when there is
-- none. Its loop ends.
pub hasmntopt_lem :
    (opts opt : List ℕ) → hasmntopt opts opt ≡ some (first (fits opts opt) 0 (length opts + 1))
unfolding hasmntopt
hasmntopt_lem opts opt =
    let all : length opts + 1 - 0 ≡ length opts + 1 = omega arith in
    option_loop_lem opts opt (length opts + 2) 0 (omega arith) (omega arith)
    ∙ ap (λ n. some (first (fits opts opt) 0 n)) all
