-- ===== src/WipeOnFork/Child.antt =====
-- What the fork child drops.
use mathlib.Core.List.{foldl}
use native.Mathlib.Numerals.{add-one}
use android_sdk_custom.Prelude.{
  ℕ, zero, suc, ◌+◌, ◌≤◌, ◌≡◌, refl, sym, ap, ◌∙◌, List, [], ◌∷◌, Option, some, arith, length, take,
  drop, get_elem?,
}
use android_sdk_custom.WipeOnFork.{
  Region, Proc, start, max_regions, madv_dontneed, call_real, wipe_loop, wipe_child, run,
}
use android_sdk_custom.WipeOnFork.Record.{refused, run_lem}

get_elem?_of_drop :
    {A : Type 0} (i : ℕ) (x : A) (xs ys : List A) → x ∷ xs ≡ drop i ys → get_elem? ys i ≡ some x
get_elem?_of_drop zero x xs [] e = cc
get_elem?_of_drop zero x xs (y ∷ ys) e = cc
get_elem?_of_drop (suc i) x xs [] e = cc
get_elem?_of_drop (suc i) x xs (y ∷ ys) e = get_elem?_of_drop i x xs ys e

tail_of_drop :
    {A : Type 0} (i : ℕ) (x : A) (xs ys : List A) → x ∷ xs ≡ drop i ys → xs ≡ drop (suc i) ys
tail_of_drop zero x xs [] e = cc
tail_of_drop zero x xs (y ∷ ys) e = cc
tail_of_drop (suc i) x xs [] e = cc
tail_of_drop (suc i) x xs (y ∷ ys) e = tail_of_drop i x xs ys e

module _ {K : Type 0} (real_madvise : K → ℕ → ℕ → ℕ → K × Option ℕ) where
  -- MADV_DONTNEED for one range.
  abbrev pub dontneed : Proc K → Region → Proc K
  dontneed p r = (call_real real_madvise p r.p r.n madv_dontneed).0

  dontneed-regions : (p : Proc K) (r : Region) → (dontneed p r).regions ≡ p.regions
  unfolding call_real
  dontneed-regions p r = ground arith

  wipe_loop-foldl :
      (n i : ℕ) (p : Proc K) (rest : List Region)
      → rest ≡ drop i p.regions
      → n ≤ length rest
      → wipe_loop real_madvise n i p ≡ some (foldl dontneed p (take n rest))
  unfolding wipe_loop
  wipe_loop-foldl zero i p rest e le = refl
  wipe_loop-foldl (suc n) i p [] e le = absurd (omega arith)
  wipe_loop-foldl (suc n) i p (r ∷ rest) e le = rw (get_elem?_of_drop i r rest p.regions e) (
      wipe_loop-foldl n (i + 1) (dontneed p r) rest
        (rw (add-one i) (tail_of_drop i r rest p.regions e)
          ∙ ap (drop (i + 1)) (sym (dontneed-regions p r)))
        (omega arith))

  -- After any calls of madvise, the child of a fork reads only ranges that are in the array and
  -- gives exactly the first 64 refused ranges, in order, to madvise(MADV_DONTNEED).
  pub wipe_child_lem :
      (k : K) (e : ℕ) (calls : List (ℕ × ℕ × ℕ))
      → let p = run real_madvise (start k e) calls in
        wipe_child real_madvise p
        ≡ some (foldl dontneed p (take max_regions (refused real_madvise k calls)))
  unfolding wipe_child
  wipe_child_lem k e calls =
      let p = run real_madvise (start k e) calls in
      let (v, r) = run_lem real_madvise k e calls in
      rw (← r) (wipe_loop-foldl p.nregions 0 p p.regions refl (omega (arith, v.bound, v.size)))
