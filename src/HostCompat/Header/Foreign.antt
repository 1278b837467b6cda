-- ===== src/HostCompat/Header/Foreign.antt =====
-- The sections of host_compat.h for Windows and macOS.
use Prim.Native.String.{String}
use android_sdk_custom.HostCompat.Preprocessor.{
  number, tokens, Condition, defined, below, negation, both, either, Line, define, declare, include,
  done, ◌▸◌, when, define_new,
}
use android_sdk_custom.Prelude.{ℕ}
use android_sdk_custom.HostCompat.Header.Bsd.{freebsd, netbsd, openbsd, one}

abbrev pub windows : Condition
windows = defined "_WIN32"

abbrev pub macos : Condition
macos = defined "__APPLE__"

-- Bionic, before the API level.
abbrev pub bionic_below : ℕ → Condition
bionic_below n = both (defined "__BIONIC__") (below "__ANDROID_API__" n)

abbrev pub wincrypt : Line
wincrypt = when (both windows (negation (defined "NOCRYPT"))) (define "NOCRYPT" (tokens "") ▸ done)

abbrev pub rand_s : Line
rand_s = when (both windows (negation (defined "rand_s"))) (declare "rand_s" ▸ done)

-- `typedef` under a macro of its own.
abbrev pub type_new : String → String → Line
type_new name guard =
    when (negation (defined guard)) (declare name ▸ define guard (tokens "") ▸ done)

abbrev pub windows_ids : Line
windows_ids =
    when windows (type_new "uid_t" "uid_t_defined" ▸ type_new "gid_t" "gid_t_defined" ▸ done)

abbrev pub darwin_source : Line
darwin_source =
    when macos
      (define_new "_DARWIN_C_SOURCE" (tokens "") ▸ define_new "__APPLE_USE_RFC_3542" one ▸ done)

abbrev pub xattr : Line
xattr = when macos (
    define_new "XATTR_CREATE" (number 0x0002)
    ▸ include "sys/types.h"
    ▸ declare "setxattr"
    ▸ declare "lsetxattr"
    ▸ declare "fsetxattr"
    ▸ done)

abbrev pub progname : Line
progname = when macos (include "crt_externs.h" ▸ declare "getprogname" ▸ done)

abbrev pub unlocked : Line
unlocked =
    when
      (both (either (either macos windows) (either (bionic_below 28) (either netbsd openbsd)))
        (negation freebsd))
      (define_new "fgets_unlocked" (tokens "(buf, size, fp) fgets(buf, size, fp)")
        ▸ define_new "fputs_unlocked" (tokens "(s, f) fputs((s), (f))")
        ▸ define_new "fread_unlocked" (tokens "(p, sz, n, f) fread((p), (sz), (n), (f))")
        ▸ define_new "fwrite_unlocked" (tokens "(p, sz, n, f) fwrite((p), (sz), (n), (f))")
        ▸ define_new "fgetc_unlocked" (tokens "(f) fgetc((f))")
        ▸ define_new "fputc_unlocked" (tokens "(c, f) fputc((c), (f))")
        ▸ define_new "fflush_unlocked" (tokens "(f) fflush((f))")
        ▸ done)

abbrev pub windows_sockets : Line
windows_sockets = when windows (
    define_new "SHUT_RD" (tokens "SD_RECEIVE")
    ▸ define_new "SHUT_WR" (tokens "SD_SEND")
    ▸ define_new "SHUT_RDWR" (tokens "SD_BOTH")
    ▸ done)

abbrev pub windows_stat : Line
windows_stat = when windows (
    define_new "S_IFSOCK" (number 0xC000)
    ▸ define_new "S_ISSOCK" (tokens "(m) (((m) & S_IFMT) == S_IFSOCK)")
    ▸ when (negation (defined "ADB_HOST")) (
        define_new "S_IFLNK" (number 0xA000)
        ▸ define_new "S_ISLNK" (tokens "(m) (((m) & S_IFMT) == S_IFLNK)")
        ▸ define_new "lstat" (tokens "stat")
        ▸ done)
    ▸ done)

abbrev pub windows_getline : Line
windows_getline =
    when (both windows (negation (defined "HAVE_GETLINE"))) (
      include "stdio.h" ▸ include "stdlib.h" ▸ declare "getline" ▸ define "HAVE_GETLINE" one ▸ done)
