-- ===== src/WipeOnFork/Record.antt =====
-- Which ranges a process remembers.
use android_sdk_custom.Prelude.{
  ℕ, zero, suc, ◌+◌, ◌≤◌, ◌<◌, ◌≡◌, ◌≢◌, refl, sym, ap, ◌∙◌, List, [], ◌∷◌, ◌++◌, Option, none,
  some, Bool, true, false, inl, inr, arith, ◌==◌, if◌then◌else◌, length, set, take, Bool-cases,
  append_assoc, append-nil, length-set, length-append, lt→ltb, le→not-ltb, ==_iff, length-take-le,
  ◌⊎◌,
}
use native.Mathlib.Decide.{dec_lt}
use native.Mathlib.Numerals.{add-one}
use android_sdk_custom.WipeOnFork.{
  Region, Proc, start, einval, madv_wipeonfork, max_regions, call_real, wrap_madvise, run,
}

abbrev pub recorded : {K : Type 0} → Proc K → List Region
recorded p = take p.nregions p.regions

-- The array keeps its size and the count stays within it.
pub record IsValid {K : Type 0} (p : Proc K) : Type 0 where
  pub size : length p.regions ≡ max_regions
  pub bound : p.nregions ≤ max_regions

pub take-set :
    {A : Type 0} (xs : List A) (n : ℕ) (v : A)
    → n < length xs
    → take (suc n) (set xs n v) ≡ take n xs ++ v ∷ []
take-set [] n v h = absurd (omega arith)
take-set (x ∷ xs) zero v h = refl
take-set (x ∷ xs) (suc n) v h = ap (◌∷◌ x) (take-set xs n v (omega arith))

pub take-append : {A : Type 0} (n : ℕ) (xs ys : List A) → length xs ≡ n → take n (xs ++ ys) ≡ xs
take-append zero [] ys h = refl
take-append zero (x ∷ xs) ys h = absurd (omega arith)
take-append (suc n) [] ys h = absurd (omega arith)
take-append (suc n) (x ∷ xs) ys h = ap (◌∷◌ x) (take-append n xs ys (omega arith))

pub length-take_of_le : {A : Type 0} (n : ℕ) (xs : List A) → n ≤ length xs → length (take n xs) ≡ n
length-take_of_le zero xs h = refl
length-take_of_le (suc n) [] h = absurd (omega arith)
length-take_of_le (suc n) (x ∷ xs) h = ap suc (length-take_of_le n xs (omega arith))

take_all : {A : Type 0} (xs : List A) (n : ℕ) → length xs ≤ n → take n xs ≡ xs
take_all [] zero le = refl
take_all [] (suc n) le = refl
take_all (x ∷ xs) zero le = absurd (omega arith)
take_all (x ∷ xs) (suc n) le = ap (◌∷◌ x) (take_all xs n (omega arith))

module _ {K : Type 0} (real_madvise : K → ℕ → ℕ → ℕ → K × Option ℕ) where
  -- The requests that the kernel refuses with EINVAL, in the order of the calls.
  abbrev pub refusal : ℕ → ℕ → Bool → Option ℕ → List Region
  refusal addr len true (some e) = if e == einval then record { p = addr; n = len } ∷ [] else []
  refusal addr len true none = []
  refusal addr len false r = []

  unfoldable pub refused : K → List (ℕ × ℕ × ℕ) → List Region
  refused k [] = []
  refused k ((addr, len, advice) ∷ calls) =
      let (k', r) = real_madvise k addr len advice in
      refusal addr len (advice == madv_wipeonfork) r ++ refused k' calls

  abbrev Step : Proc K → ℕ → ℕ → ℕ → Type 0
  Step p addr len advice =
      let q = (wrap_madvise real_madvise p addr len advice).0 in
      let (k, r) = real_madvise p.kernel addr len advice in
      IsValid q
      × (q.kernel ≡ k)
      × (recorded q
          ≡ take max_regions (recorded p ++ refusal addr len (advice == madv_wipeonfork) r))

  module _ (p : Proc K) (addr len : ℕ) (v : IsValid p) where
    same : take max_regions (recorded p ++ []) ≡ recorded p
    same = rw (append-nil (recorded p)) (
        take_all (recorded p) max_regions
          (omega (arith, v.bound, length-take-le p.nregions p.regions)))

    abbrev region : Region
    region = record { p = addr; n = len }

    counted : length (recorded p) ≡ p.nregions
    counted = length-take_of_le p.nregions p.regions (omega (arith, v.bound, v.size))

    room :
        p.nregions < max_regions
        → take (p.nregions + 1) (set p.regions p.nregions region)
          ≡ take max_regions (recorded p ++ region ∷ [])
    room lt =
        rw
          (
            add-one p.nregions,
            take-set p.regions p.nregions region (omega (arith, v.size)),
            take_all (recorded p ++ region ∷ []) max_regions
                (omega (arith, counted, length-append (recorded p) (region ∷ []))),
          )
          refl

    full : max_regions ≤ p.nregions → recorded p ≡ take max_regions (recorded p ++ region ∷ [])
    full le =
        sym (take-append max_regions (recorded p) (region ∷ []) (omega (arith, counted, v.bound)))

    other-Step :
        (advice : ℕ) (r : K × Option ℕ)
        → real_madvise p.kernel addr len advice ≡ r
        → (advice == madv_wipeonfork) ≡ false
        → Step p addr len advice
    unfolding wrap_madvise
    other-Step advice (k, none) e ne =
        rw (ne, e) (record { size = v.size; bound = v.bound }, refl, sym same)
    other-Step advice (k, some err) e ne =
        rw (ne, e) (record { size = v.size; bound = v.bound }, refl, sym same)

    wipeonfork-Step :
        (r : K × Option ℕ)
        → real_madvise p.kernel addr len madv_wipeonfork ≡ r
        → Step p addr len madv_wipeonfork
    unfolding wrap_madvise
    wipeonfork-Step (k, none) e = rw e (record { size = v.size; bound = v.bound }, refl, sym same)
    wipeonfork-Step (k, some err) e = elim (Bool-cases (err == einval)) [
      | inl a ↦ elim (dec_lt p.nregions max_regions) [
        | yes lt ↦
            rw (e, a, lt→ltb p.nregions max_regions lt)
              (
                record {
                  size = length-set p.regions p.nregions region ∙ v.size;
                  bound = omega (arith, lt);
                },
                refl,
                room lt,
              )
        | no ge ↦
            rw (e, a, le→not-ltb max_regions p.nregions (omega (arith, ge)))
              (record { size = v.size; bound = v.bound }, refl, full (omega (arith, ge)))
      ]
      | inr a ↦ rw (e, a) (record { size = v.size; bound = v.bound }, refl, sym same)
    ]

  -- One call: what it does to the kernel, and what it appends to the record.
  wrap_madvise-Step : (p : Proc K) (addr len advice : ℕ) → IsValid p → Step p addr len advice
  wrap_madvise-Step p addr len advice v = elim (Bool-cases (advice == madv_wipeonfork)) [
    | inl h ↦
        rw ((==_iff advice madv_wipeonfork).0 h)
          (wipeonfork-Step p addr len v (real_madvise p.kernel addr len madv_wipeonfork) refl)
    | inr h ↦ other-Step p addr len v advice (real_madvise p.kernel addr len advice) refl h
  ]

take-append-take :
    {A : Type 0} (n : ℕ) (xs ys : List A) → take n (take n xs ++ ys) ≡ take n (xs ++ ys)
take-append-take zero xs ys = refl
take-append-take (suc n) [] ys = refl
take-append-take (suc n) (x ∷ xs) ys = ap (◌∷◌ x) (take-append-take n xs ys)

module _ {K : Type 0} (real_madvise : K → ℕ → ℕ → ℕ → K × Option ℕ) where
  run-recorded :
      (p : Proc K) (calls : List (ℕ × ℕ × ℕ))
      → IsValid p
      → IsValid (run real_madvise p calls)
        × (recorded (run real_madvise p calls)
            ≡ take max_regions (recorded p ++ refused real_madvise p.kernel calls))
  unfolding run refused
  run-recorded p [] v = (v, sym (same real_madvise p 0 0 v))
  run-recorded p ((addr, len, advice) ∷ calls) v =
      let step = wrap_madvise-Step real_madvise p addr len advice v in
      let rest = run-recorded (wrap_madvise real_madvise p addr len advice).0 calls step.0 in
      let next : List Region =
        refusal real_madvise addr len (advice == madv_wipeonfork)
          (real_madvise p.kernel addr len advice).1 in
      (
        rest.0,
        rest.1
            ∙ rw (step.1, step.2)
                (take-append-take max_regions (recorded p ++ next)
                    (refused real_madvise (real_madvise p.kernel addr len advice).0 calls)
                  ∙ ap (take max_regions) (
                      append_assoc (recorded p) next
                        (refused real_madvise (real_madvise p.kernel addr len advice).0 calls))),
      )

  -- Whatever the calls of madvise, a process remembers exactly the first 64 of the ranges that the
  -- kernel refused with EINVAL when they were to be wiped on fork, in the order of the calls; the
  -- array keeps its size and the count stays within it.
  pub run_lem :
      (k : K) (e : ℕ) (calls : List (ℕ × ℕ × ℕ))
      → IsValid (run real_madvise (start k e) calls)
        × (recorded (run real_madvise (start k e) calls)
            ≡ take max_regions (refused real_madvise k calls))
  unfolding start
  run_lem k e calls = run-recorded (start k e) calls (record { size = refl; bound = omega arith })

  -- The wrapper answers a request to wipe on fork with success and leaves errno as it was,
  -- whatever the kernel says; for any other advice the result, errno and the kernel's state are
  -- those of the real call, and nothing is remembered.
  pub wrap_madvise_result :
      (p : Proc K) (addr len advice : ℕ)
      → let (q, ret) = wrap_madvise real_madvise p addr len advice in
        ((advice ≡ madv_wipeonfork) × (ret ≡ true) × (q.errno ≡ p.errno))
        ⊎ ((advice ≢ madv_wipeonfork)
            × ((q, ret) ≡ call_real real_madvise p addr len advice)
            × (q.regions ≡ p.regions)
            × (q.nregions ≡ p.nregions))
  unfolding wrap_madvise
  wrap_madvise_result p addr len advice = ground arith
