-- ===== src/HostCompat/Effects.antt =====
-- Reading host_compat.h twice, and reading it where nothing is missing.
use Prim.Native.String.{String}
use text.Mathlib.Text.{◌==◌}
use android_sdk_custom.Prelude.{◌≡◌, refl, [], ◌∷◌, some, true, false}
use android_sdk_custom.HostCompat.Preprocessor.{Body, Macros, lookup, run}
use android_sdk_custom.HostCompat.Header.{sections, host_compat}
use android_sdk_custom.HostCompat.Analysis.{Known, spares, Agrees, Holding}
use android_sdk_custom.HostCompat.Sound.{run-Holding}
use android_sdk_custom.HostCompat.Once.{guarded_twice}

abbrev pub guard : String
guard = "HOST_COMPAT_H"

sections_spare_guard : spares ((guard, true) ∷ []) guard sections ≡ true
unfolding sections spares
sections_spare_guard = refl

-- Where the system's headers leave the include guard of host_compat.h alone once it is defined, a
-- second reading of the header changes nothing.
pub host_compat_twice :
    (system : String → Macros → Macros) (s : Macros)
    → ((b : Body) (h : String) (t : Macros)
        → lookup guard t ≡ some b
        → lookup guard (system h t) ≡ some b)
    → run system host_compat (run system host_compat s) ≡ run system host_compat s
unfolding host_compat
host_compat_twice system s keeps = guarded_twice guard sections system s sections_spare_guard keeps

-- What is known on Linux with glibc.
abbrev pub glibc : Known
glibc =
    ("__linux__", true)
    ∷ ("__GLIBC__", true)
    ∷ ("__BIONIC__", false)
    ∷ ("__FreeBSD__", false)
    ∷ ("__NetBSD__", false)
    ∷ ("__OpenBSD__", false)
    ∷ ("__APPLE__", false)
    ∷ ("_WIN32", false)
    ∷ []

glibc-spares : (x : String) → guard == x ≡ false → spares glibc x host_compat ≡ true
unfolding host_compat spares
glibc-spares x e = rw e refl

-- On Linux with glibc, and of a macro other than the include guard that the system's headers leave
-- alone: host_compat.h leaves it alone, defined or not. Where glibc has everything, the header defines
-- nothing.
pub host_compat-glibc :
    (system : String → Macros → Macros) (x : String) (s : Macros)
    → ((h : String) (t : Macros)
        → Holding glibc x (lookup x s) t
        → Holding glibc x (lookup x s) (system h t))
    → guard == x ≡ false
    → Agrees glibc s
    → lookup x (run system host_compat s) ≡ lookup x s
host_compat-glibc system x s keeps other known =
    (run-Holding glibc x (lookup x s) system keeps host_compat s (glibc-spares x other)
      (record { agrees = known; stands = refl })).stands
