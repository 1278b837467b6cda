-- ===== src/HostCompat/Sort.antt =====
-- qsort_r of patches/misc/host_compat.h. A function and an argument are addresses; a process is what
-- qsort does between the calls of its comparator, and M is the memory that both work on.
use android_sdk_custom.Prelude.{ℕ, ◌≡◌, refl}

-- A comparator's result: below zero, zero, above zero.
pub data Sign : Type 0 where
  less equal greater : Sign

-- qsort at work on an array: it returns, or calls its comparator with two addresses and goes on with
-- the memory and the sign that it is given.
pub data Process {ℓ} (M : Type ℓ) : Type ℓ where
  returns : M → Process M
  compares : M → ℕ → ℕ → (M → Sign → Process M) → Process M

-- `__host_compat_qsort_r_cmp` and `__host_compat_qsort_r_arg` of the thread.
pub record Locals : Type 0 where
  pub cmp : ℕ
  pub arg : ℕ

-- `qsort(base, nmemb, size, compar)` for a comparator that may change a state S beside the memory.
unfoldable pub run_sort {ℓ κ} :
    {M : Type ℓ} {S : Type κ} → (ℕ → ℕ → S × M → (S × M) × Sign) → Process M → S → S × M
run_sort comparator (returns m) s = (s, m)
run_sort comparator (compares m a b continue) s =
    let (t, sign) = comparator a b (s, m) in run_sort comparator (continue t.1 sign) t.0

-- The same, for a comparator of which only the effect on the memory is told.
unfoldable pub sort_with {ℓ} : {M : Type ℓ} → (M → ℕ → ℕ → M × Sign) → Process M → M
sort_with compare (returns m) = m
sort_with compare (compares m a b continue) =
    let (t, sign) = compare m a b in sort_with compare (continue t sign)

-- What a call of the function at an address does, with its three arguments, the locals and memory.
-- Also the library's qsort: the array, its length, and the size of an entry.
module _ {ℓ} {M : Type ℓ} (call : ℕ → ℕ → ℕ → ℕ → Locals × M → (Locals × M) × Sign)
    (qsort : ℕ → ℕ → ℕ → M → Process M) where
  -- `__host_compat_qsort_r_thunk`
  unfoldable pub thunk : ℕ → ℕ → Locals × M → (Locals × M) × Sign
  thunk a b s = call s.0.cmp a b s.0.arg s

  unfoldable pub qsort_r : ℕ → ℕ → ℕ → ℕ → ℕ → Locals × M → Locals × M
  qsort_r base nmemb size cmp arg s =
      let sorted : Locals × M =
        run_sort thunk (qsort base nmemb size s.1) (record { cmp = cmp; arg = arg }) in
      (record { cmp = s.0.cmp; arg = s.0.arg }, sorted.1)

  -- A function that acts as `compare` does when called with this argument, and that leaves the
  -- thread's locals as it finds them.
  abbrev pub ActsAs : ℕ → ℕ → (M → ℕ → ℕ → M × Sign) → Type ℓ
  ActsAs cmp arg compare =
      (a b : ℕ) (l : Locals) (m : M)
      → call cmp a b arg (l, m) ≡ ((l, (compare m a b).0), (compare m a b).1)

  run_sort-thunk :
      (cmp arg : ℕ) (compare : M → ℕ → ℕ → M × Sign) (p : Process M)
      → ActsAs cmp arg compare
      → run_sort thunk p (record { cmp = cmp; arg = arg })
        ≡ (record { cmp = cmp; arg = arg }, sort_with compare p)
  unfolding run_sort sort_with thunk
  run_sort-thunk cmp arg compare (returns m) acts = refl
  run_sort-thunk cmp arg compare (compares m a b continue) acts =
      rw (acts a b (record { cmp = cmp; arg = arg }) m)
        (run_sort-thunk cmp arg compare (continue (compare m a b).0 (compare m a b).1) acts)

  -- Where the comparator acts as a function on two addresses and the memory and leaves the thread's
  -- locals as it finds them, qsort_r does to the memory what qsort does with that function, and the
  -- locals are afterwards what they were before.
  pub qsort_r_lem :
      (base nmemb size cmp arg : ℕ) (compare : M → ℕ → ℕ → M × Sign) (l : Locals) (m : M)
      → ActsAs cmp arg compare
      → qsort_r base nmemb size cmp arg (l, m) ≡ (l, sort_with compare (qsort base nmemb size m))
  unfolding qsort_r
  qsort_r_lem base nmemb size cmp arg compare l m acts =
      rw (run_sort-thunk cmp arg compare (qsort base nmemb size m) acts) refl

  -- A comparator that sorts another array with qsort_r before it answers leaves the locals as it
  -- finds them as well: it can be given to qsort_r itself.
  pub nested-ActsAs :
      (base nmemb size inner inner_arg outer arg : ℕ) (compare : M → ℕ → ℕ → M × Sign)
      (answer : M → ℕ → ℕ → Sign)
      → ((a b : ℕ) (s : Locals × M)
          → call outer a b arg s ≡ (
            qsort_r base nmemb size inner inner_arg s,
            answer (qsort_r base nmemb size inner inner_arg s).1 a b,
          ))
      → ActsAs inner inner_arg compare
      → ActsAs outer arg
          (λ m a b. let t = sort_with compare (qsort base nmemb size m) in (t, answer t a b))
  nested-ActsAs base nmemb size inner inner_arg outer arg compare answer does acts a b l m =
      rw (does a b (l, m), qsort_r_lem base nmemb size inner inner_arg compare l m acts) refl
