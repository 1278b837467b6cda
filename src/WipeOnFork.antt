-- ===== src/WipeOnFork.antt =====
-- patches/misc/bionic_wipeonfork_compat.c: madvise(MADV_WIPEONFORK) on a kernel that lacks it. The
-- ranges are remembered and dropped in the fork child.
pub mod Record
pub mod Child
use android_sdk_custom.Prelude.{
  ℕ, zero, suc, ◌+◌, List, [], ◌∷◌, Option, none, some, Bool, true, false, ◌&&◌, ◌==◌,
  if◌then◌else◌, ltb, get_elem?, set, replicate, not, ◌>>=◌,
}

pub record Region : Type 0 where
  pub p : ℕ
  pub n : ℕ

-- Linux's values of the constants.
abbrev pub madv_dontneed : ℕ
madv_dontneed = 4

abbrev pub madv_wipeonfork : ℕ
madv_wipeonfork = 18

abbrev pub einval : ℕ
einval = 22

abbrev pub max_regions : ℕ
max_regions = 64

-- The process: the kernel's state, errno, and the file's static variables.
pub record Proc (K : Type 0) : Type 0 where
  pub kernel : K
  pub errno : ℕ
  pub regions : List Region
  pub nregions : ℕ

abbrev no_region : Region
no_region = record { p = 0; n = 0 }

module _ {K : Type 0} where
  pub start : K → ℕ → Proc K
  start k e = record {
    kernel = k;
    errno = e;
    regions = replicate max_regions no_region;
    nregions = 0;
  }

  -- What a call of madvise does to the process: 0 (true) or -1 (false), and then errno is set.
  returned : Proc K → K × Option ℕ → Proc K × Bool
  returned p (k, none) = (record p { kernel = k }, true)
  returned p (k, some e) = (record p { kernel = k; errno = e }, false)

  -- `regions[nregions] = (addr, len); nregions++`.
  remember : Proc K → ℕ → ℕ → Proc K
  remember p addr len = record p {
    regions = set p.regions p.nregions (record { p = addr; n = len });
    nregions = p.nregions + 1;
  }

-- `__real_madvise`, bionic's: the new state of the kernel, and the error if it fails.
module _ {K : Type 0} (real_madvise : K → ℕ → ℕ → ℕ → K × Option ℕ) where
  pub call_real : Proc K → ℕ → ℕ → ℕ → Proc K × Bool
  unfolding returned
  call_real p addr len advice = returned p (real_madvise p.kernel addr len advice)

  -- The rounds left, the index i, and the process; `none` is a read behind the array.
  pub wipe_loop : ℕ → ℕ → Proc K → Option (Proc K)
  wipe_loop zero i p = some p
  wipe_loop (suc n) i p =
      get_elem? p.regions i >>= λ r. wipe_loop n (i + 1) (call_real p r.p r.n madv_dontneed).0

  pub wipe_child : Proc K → Option (Proc K)
  unfolding wipe_loop
  wipe_child p = wipe_loop p.nregions 0 p

  pub wrap_madvise_wipeonfork : Proc K → ℕ → ℕ → Proc K × Bool
  unfolding call_real remember
  wrap_madvise_wipeonfork p addr len =
      let (q, done) = call_real p addr len madv_wipeonfork in
      if done
      then (q, true)
      else if q.errno == einval && ltb q.nregions max_regions
      then (record (remember q addr len) { errno = p.errno }, true)
      else (record q { errno = p.errno }, true)

  pub wrap_madvise : Proc K → ℕ → ℕ → ℕ → Proc K × Bool
  unfolding wrap_madvise_wipeonfork
  wrap_madvise p addr len advice =
      if not (advice == madv_wipeonfork)
      then call_real p addr len advice
      else wrap_madvise_wipeonfork p addr len

  -- A process that makes these calls: address, length, advice.
  pub run : Proc K → List (ℕ × ℕ × ℕ) → Proc K
  run p [] = p
  run p ((addr, len, advice) ∷ calls) = run (wrap_madvise p addr len advice).0 calls
