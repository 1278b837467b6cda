-- ===== src/ExePath.antt =====
-- patches/sources/libbase_bsd_exe_path.inc: the path of the running program on the BSDs. A string is
-- the list of its bytes; what the system calls answer is a record.
pub mod Directories
use android_sdk_custom.Prelude.{
  ℕ, zero, suc, ◌+◌, List, [], ◌∷◌, ◌++◌, Option, none, some, Bool, true, false, ◌||◌, ◌==◌, ltb,
  leb, if◌then◌else◌, ◌>>=◌, length, take, drop,
}

pub data Platform : Type 0 where
  free_bsd net_bsd open_bsd : Platform

-- `pathname`: what sysctl writes for KERN_PROC_PATHNAME, to its length, if it succeeds. `argv0`: the
-- argument that OpenBSD's two calls of sysctl give, if both succeed and it is not null.
pub record System : Type 0 where
  pub pathname : Option (List ℕ)
  pub argv0 : Option (List ℕ)
  pub progname : List ℕ
  pub path : Option (List ℕ)
  pub is_executable : List ℕ → Bool
  pub realpath : List ℕ → Option (List ℕ)

-- The bytes of a buffer before the terminator.
unfoldable pub c_string : List ℕ → List ℕ
c_string [] = []
c_string (c ∷ cs) = let rest = c_string cs in if c == 0 then [] else c ∷ rest

-- `find(c, 0)`, or the size if there is none.
unfoldable pub index_or_size : ℕ → List ℕ → ℕ
index_or_size c [] = 0
index_or_size c (x ∷ xs) = let rest = index_or_size c xs in if x == c then 0 else suc rest

abbrev pub is_empty : List ℕ → Bool
is_empty [] = true
is_empty (c ∷ cs) = false

abbrev pub candidate : List ℕ → List ℕ → List ℕ
candidate dir arg0 = (if is_empty dir then b'.' ∷ [] else dir) ++ b'/' ∷ arg0

-- `if (access(...) == 0 && realpath(...) != nullptr)`, with the path that realpath gives.
abbrev pub resolved : System → List ℕ → Option (List ℕ)
resolved sys path = if sys.is_executable path then sys.realpath path else none

-- The loop over PATH from `start`; without a result if it is out of fuel.
unfoldable pub search_path : System → List ℕ → List ℕ → ℕ → ℕ → Option (List ℕ)
search_path sys arg0 paths zero start = none
search_path sys arg0 paths (suc fuel) start =
    let n = index_or_size b':' (drop start paths) in
    let dir = take n (drop start paths) in
    let rest = search_path sys arg0 paths fuel (start + n + 1) in
    if leb start (length paths)
    then elim (resolved sys (candidate dir arg0)) [ none ↦ rest | some path ↦ some path ]
    else some arg0

-- `env ? env : "/usr/bin:/bin"`
abbrev pub default_path : List ℕ
default_path =
    b'/' ∷ b'u' ∷ b's' ∷ b'r' ∷ b'/' ∷ b'b' ∷ b'i' ∷ b'n' ∷ b':' ∷ b'/' ∷ b'b' ∷ b'i' ∷ b'n' ∷ []

abbrev pub search_list : System → List ℕ
search_list sys = elim sys.path [ none ↦ default_path | some p ↦ p ]

-- The sysctl that FreeBSD and NetBSD have: the path, if it has more than the terminator.
abbrev pub from_kernel : Platform → System → Option (List ℕ)
from_kernel open_bsd sys = none
from_kernel _ sys = sys.pathname >>= λ buf. if ltb 1 (length buf) then some (c_string buf) else none

-- `arg0` before the test for an empty string.
abbrev pub raw_argument : Platform → System → List ℕ
raw_argument open_bsd sys = elim sys.argv0 [ none ↦ [] | some a ↦ a ]
raw_argument _ sys = []

abbrev pub argument : Platform → System → List ℕ
argument p sys = if is_empty (raw_argument p sys) then sys.progname else raw_argument p sys

-- What is done with `arg0`.
unfoldable pub resolve_argument : System → ℕ → List ℕ → Option (List ℕ)
unfolding search_path
resolve_argument sys fuel arg0 =
    if ltb (index_or_size b'/' arg0) (length arg0)
    then elim (sys.realpath arg0) [ none ↦ some arg0 | some path ↦ some path ]
    else search_path sys arg0 (search_list sys) fuel 0

unfoldable pub sdk_bsd_executable_path : Platform → System → ℕ → Option (List ℕ)
unfolding resolve_argument
sdk_bsd_executable_path p sys fuel = elim (from_kernel p sys) [
  | some path ↦ some path
  | none ↦ resolve_argument sys fuel (argument p sys)
]
