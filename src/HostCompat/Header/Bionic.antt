-- ===== src/HostCompat/Header/Bionic.antt =====
-- The sections of host_compat.h for bionic and the last ones for Windows.
use android_sdk_custom.HostCompat.Preprocessor.{
  tokens, Condition, defined, below, negation, both, either, Line, declare, include, done, ◌▸◌,
  when, define_new,
}
use android_sdk_custom.Prelude.{ℕ}
use android_sdk_custom.HostCompat.Header.Bsd.{any_bsd, one}
use android_sdk_custom.HostCompat.Header.Foreign.{windows, macos}

abbrev pub failure_retry : Line
failure_retry =
    when
      (either (either macos windows) (
        either any_bsd (
          both (defined "__linux__")
            (both (negation (defined "__GLIBC__")) (negation (defined "__BIONIC__"))))))
      (define_new "TEMP_FAILURE_RETRY" (
          tokens
            "(expression) (({ long int __result; do __result = (long int)(expression); while (__result == -1 && errno == EINTR); __result; }))")
        ▸ done)

-- Below an API level, or with none.
abbrev pub older : ℕ → Condition
older n = either (negation (defined "__ANDROID_API__")) (below "__ANDROID_API__" n)

abbrev pub properties : Line
properties = when (below "__ANDROID_API__" 26) (
    include "stdbool.h"
    ▸ include "stdint.h"
    ▸ include "sys/system_properties.h"
    ▸ include "time.h"
    ▸ declare "__system_property_read_callback"
    ▸ declare "__system_property_wait"
    ▸ done)

abbrev pub bionic_backtrace : Line
bionic_backtrace = when (below "__ANDROID_API__" 33) (declare "backtrace" ▸ done)

abbrev pub bionic_qsort_r : Line
bionic_qsort_r = when (below "__ANDROID_API__" 36) (
    include "stdlib.h"
    ▸ declare "__host_compat_qsort_r_cmp"
    ▸ declare "__host_compat_qsort_r_arg"
    ▸ declare "__host_compat_qsort_r_thunk"
    ▸ declare "qsort_r"
    ▸ done)

abbrev pub bionic_hasmntopt : Line
bionic_hasmntopt =
    when (older 26) (include "mntent.h" ▸ include "string.h" ▸ declare "hasmntopt" ▸ done)

abbrev pub bionic_getlogin_r : Line
bionic_getlogin_r =
    when (older 28) (include "unistd.h" ▸ include "errno.h" ▸ declare "getlogin_r" ▸ done)

abbrev pub bionic : Line
bionic =
    when (defined "__BIONIC__")
      (properties ▸ bionic_backtrace ▸ bionic_qsort_r ▸ bionic_hasmntopt ▸ bionic_getlogin_r ▸ done)

abbrev pub windows_identity : Line
windows_identity =
    when windows
      (declare "getuid" ▸ declare "geteuid" ▸ declare "getgid" ▸ declare "getegid" ▸ done)

abbrev pub windows_devices : Line
windows_devices = when windows (
    define_new "makedev" (tokens "(maj, min) (((maj) << 8) + (min))")
    ▸ define_new "major" (tokens "(dev) ((int)(((dev) >> 8) & 0xff))")
    ▸ define_new "minor" (tokens "(dev) ((int)((dev) & 0xff))")
    ▸ done)

abbrev pub windows_headers : Line
windows_headers = when (both windows (defined "__cplusplus")) (
    define_new "_POSIX_THREAD_SAFE_FUNCTIONS" one
    ▸ include "algorithm"
    ▸ include "atomic"
    ▸ include "functional"
    ▸ include "iterator"
    ▸ include "map"
    ▸ include "memory"
    ▸ include "mutex"
    ▸ include "optional"
    ▸ include "set"
    ▸ include "string"
    ▸ include "string_view"
    ▸ include "unordered_map"
    ▸ include "utility"
    ▸ include "vector"
    ▸ done)
