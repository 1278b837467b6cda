-- ===== src/HostCompat/Stubs.antt =====
-- The short functions of patches/misc/host_compat.h for a system that lacks them. Memory is a parameter where a
-- call of the C library changes it.
use android_sdk_custom.Prelude.{
  ℕ, ◌+◌, List, [], ◌∷◌, Option, none, some, ◌==◌, if◌then◌else◌, ◌>>=◌,
}
use android_sdk_custom.Strl.{store}

-- What a getlogin_r gives: the number of an error, or 0.
pub data LoginResult : Type 0 where
  erange success : LoginResult

-- The buffer, and the value returned; `none` where bufsize lies and buf has no first byte.
unfoldable pub getlogin_r : List ℕ → ℕ → Option (List ℕ × LoginResult)
unfolding store
getlogin_r buf bufsize =
    let written = store buf 0 0 >>= λ b. some (b, success) in
    if bufsize == 0 then some (buf, erange) else written

-- memcpy is the library's: the memory after it, and the address that it returns.
unfoldable pub mempcpy {ℓ} : {M : Type ℓ} → (ℕ → ℕ → ℕ → M → M × ℕ) → ℕ → ℕ → ℕ → M → M × ℕ
mempcpy memcpy dst src n m = let (m', at) = memcpy dst src n m in (m', at + n)

-- The three functions for macOS ignore their arguments: path or descriptor, name, value, size,
-- position, options.
abbrev pub setxattr : List ℕ → List ℕ → ℕ → ℕ → ℕ → ℕ → ℕ
setxattr path name value size position options = 0

abbrev pub lsetxattr : List ℕ → List ℕ → ℕ → ℕ → ℕ → ℕ → ℕ
lsetxattr path name value size position options = 0

abbrev pub fsetxattr : ℕ → List ℕ → ℕ → ℕ → ℕ → ℕ → ℕ
fsetxattr fd name value size position options = 0

-- The first argument; the list is that of _NSGetArgv.
abbrev pub getprogname : List (List ℕ) → Option (List ℕ)
getprogname [] = none
getprogname (arg ∷ args) = some arg

abbrev pub getuid : ℕ
getuid = 0

abbrev pub geteuid : ℕ
geteuid = 0

abbrev pub getgid : ℕ
getgid = 0

abbrev pub getegid : ℕ
getegid = 0
