-- ===== src/Examples/Sorting.antt =====
-- qsort_r where the comparator of an array of two sorts two other cells first, and a call that two
-- signals interrupt.
use android_sdk_custom.Prelude.{
  ◌≡◌, refl, ℕ, ◌+◌, List, [], ◌∷◌, some, none, ◌==◌, ltb, if◌then◌else◌, get_or, set,
}
use android_sdk_custom.HostCompat.Retry.{Outcome, is_interrupted, retry}
use android_sdk_custom.HostCompat.Sort.{
  Sign, less, equal, greater, Process, returns, compares, Locals, sort_with, qsort_r, qsort_r_lem,
  nested-ActsAs,
}

abbrev order : ℕ → ℕ → Sign
order x y = if ltb x y then less else if x == y then equal else greater

abbrev cells : List ℕ → ℕ → ℕ → List ℕ × Sign
cells m a b = (m, order (get_or m a 0) (get_or m b 0))

abbrev exchanged : ℕ → List ℕ → List ℕ
exchanged a m = set (set m a (get_or m (a + 1) 0)) (a + 1) (get_or m a 0)

abbrev put_in_order : ℕ → List ℕ → Sign → Process (List ℕ)
put_in_order base m greater = returns (exchanged base m)
put_in_order base m _ = returns m

-- A sort of two entries.
abbrev sort_two : ℕ → ℕ → ℕ → List ℕ → Process (List ℕ)
sort_two base nmemb size m = compares m base (base + 1) (put_in_order base)

abbrev simple_call : ℕ → ℕ → ℕ → ℕ → Locals × List ℕ → (Locals × List ℕ) × Sign
simple_call f a b arg s = (s, (cells s.1 a b).1)

-- The function at address 1 compares two cells; the one at 2 first sorts the cells 2 and 3.
abbrev calls : ℕ → ℕ → ℕ → ℕ → Locals × List ℕ → (Locals × List ℕ) × Sign
calls f a b arg s =
    if f == 1
    then simple_call 1 a b arg s
    else (let t = qsort_r simple_call sort_two 2 2 1 1 0 s in (t, (cells t.1 a b).1))

abbrev idle_locals : Locals
idle_locals = record { cmp = 0; arg = 0 }

inner_sort :
    (s : Locals × List ℕ)
    → qsort_r simple_call sort_two 2 2 1 1 0 s ≡ qsort_r calls sort_two 2 2 1 1 0 s
inner_sort (l, m) =
    rw
      (
        qsort_r_lem simple_call sort_two 2 2 1 1 0 cells l m (λ a b l' m'. refl),
        qsort_r_lem calls sort_two 2 2 1 1 0 cells l m (λ a b l' m'. refl),
      )
      refl

outer_sorts :
    (a b : ℕ) (s : Locals × List ℕ)
    → calls 2 a b 0 s
      ≡ (qsort_r calls sort_two 2 2 1 1 0 s, (cells (qsort_r calls sort_two 2 2 1 1 0 s).1 a b).1)
outer_sorts a b s = rw (inner_sort s) refl

qsort_r_lem_example :
    qsort_r calls sort_two 0 2 1 2 0 (idle_locals, 5 ∷ 4 ∷ 9 ∷ 8 ∷ [])
    ≡ (idle_locals, 4 ∷ 5 ∷ 8 ∷ 9 ∷ [])
unfolding sort_with
qsort_r_lem_example =
    qsort_r_lem calls sort_two 0 2 1 2 0
      (λ m a b. let t = sort_with cells (sort_two 2 2 1 m) in (t, (cells t a b).1)) idle_locals
      (5 ∷ 4 ∷ 9 ∷ 8 ∷ [])
      (nested-ActsAs calls sort_two 2 2 1 1 0 2 0 cells (λ m a b. (cells m a b).1) outer_sorts
        (λ a b l m. refl))

-- Cell 0 counts the calls; errno is 4 for EINTR.
abbrev third_time : ℕ → ℕ × Outcome
third_time s = (
  s + 1,
  if ltb s 2 then record { value = none; errno = 4 } else record { value = some 7; errno = 4 },
)

retry_test : retry 4 third_time 5 0 ≡ some (3, record { value = some 7; errno = 4 })
unfolding retry is_interrupted
retry_test = refl
