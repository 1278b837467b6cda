-- ===== src/Examples/Headers.antt =====
-- host_compat.h on a system whose headers define nothing.
use Prim.Native.String.{String}
use android_sdk_custom.Prelude.{◌≡◌, refl, [], ◌∷◌, some}
use android_sdk_custom.HostCompat.Preprocessor.{number, tokens, Macros, lookup, holds, run}
use android_sdk_custom.HostCompat.Header.{sections, host_compat}
use android_sdk_custom.HostCompat.Guards.{host_compat_keeps}
use android_sdk_custom.HostCompat.Effects.{host_compat_twice}

abbrev silent : String → Macros → Macros
silent h s = s

-- FreeBSD, with a pread64 of its own.
abbrev freebsd_host : Macros
freebsd_host = record {
  macros = ("__FreeBSD__", number 14) ∷ ("pread64", tokens "freebsd_pread64") ∷ [];
  declared = [];
}

host_compat_test : lookup "mmap64" (run silent host_compat freebsd_host) ≡ some (tokens "mmap")
unfolding run host_compat sections holds
host_compat_test = refl

host_compat_keeps_example :
    lookup "pread64" (run silent host_compat freebsd_host) ≡ some (tokens "freebsd_pread64")
host_compat_keeps_example =
    host_compat_keeps silent "pread64" (tokens "freebsd_pread64") freebsd_host (λ h t e. e) refl
      refl

host_compat_twice_example :
    run silent host_compat (run silent host_compat freebsd_host)
    ≡ run silent host_compat freebsd_host
host_compat_twice_example = host_compat_twice silent freebsd_host (λ b h t e. e)
