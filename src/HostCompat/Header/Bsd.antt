-- ===== src/HostCompat/Header/Bsd.antt =====
-- The sections of host_compat.h for the BSDs.
use android_sdk_custom.HostCompat.Preprocessor.{
  Body, number, tokens, Condition, defined, negation, both, either, Line, define, declare, include,
  done, ◌▸◌, when, define_new,
}

abbrev pub freebsd : Condition
freebsd = defined "__FreeBSD__"

abbrev pub netbsd : Condition
netbsd = defined "__NetBSD__"

abbrev pub openbsd : Condition
openbsd = defined "__OpenBSD__"

abbrev pub any_bsd : Condition
any_bsd = either freebsd (either netbsd openbsd)

abbrev pub one : Body
one = number 1

abbrev pub netbsd_source : Line
netbsd_source = when netbsd (define_new "_NETBSD_SOURCE" one ▸ done)

abbrev pub bsd_visible : Line
bsd_visible =
    when (either freebsd openbsd)
      (define_new "__BSD_VISIBLE" one ▸ when openbsd (define_new "_BSD_SOURCE" one ▸ done) ▸ done)

abbrev pub lfs64 : Line
lfs64 = when any_bsd (
    define_new "lseek64" (tokens "lseek")
    ▸ define_new "mmap64" (tokens "mmap")
    ▸ define_new "pread64" (tokens "pread")
    ▸ define_new "pwrite64" (tokens "pwrite")
    ▸ define_new "ftruncate64" (tokens "ftruncate")
    ▸ done)

abbrev pub off64 : Line
off64 = when (either netbsd openbsd) (define_new "off64_t" (tokens "off_t") ▸ done)

abbrev pub enodata : Line
enodata =
    when (both (either freebsd openbsd) (negation (defined "ENODATA")))
      (define "ENODATA" (tokens "ENOATTR") ▸ done)

abbrev pub pshared_netbsd : Line
pshared_netbsd = when (both netbsd (negation (defined "_PTHREAD_PSHARED"))) (
    define "pthread_rwlockattr_setpshared" (tokens "(attr, val) (0)")
    ▸ define "pthread_mutexattr_setpshared" (tokens "(attr, val) (0)")
    ▸ define "pthread_condattr_setpshared" (tokens "(attr, val) (0)")
    ▸ done)

abbrev pub pshared_openbsd : Line
pshared_openbsd = when openbsd (
    define "pthread_mutexattr_setpshared" (tokens "(attr, val) (0)")
    ▸ define "pthread_condattr_setpshared" (tokens "(attr, val) (0)")
    ▸ done)

abbrev pub bsd_sockets : Line
bsd_sockets =
    when any_bsd (include "sys/socket.h" ▸ include "sys/time.h" ▸ include "netinet/in.h" ▸ done)

abbrev pub pthread_np : Line
pthread_np = when openbsd (include "pthread_np.h" ▸ done)

abbrev pub ip_mreqn : Line
ip_mreqn =
    when (both netbsd (negation (defined "IP_MULTICAST_IFINDEX")))
      (include "netinet/in.h" ▸ declare "struct ip_mreqn" ▸ done)

abbrev pub in_pktinfo : Line
in_pktinfo = when (both (either freebsd openbsd) (negation (defined "IP_PKTINFO"))) (
    include "netinet/in.h"
    ▸ declare "struct in_pktinfo"
    ▸ define "IP_PKTINFO" (tokens "IP_RECVDSTADDR")
    ▸ done)

abbrev pub bsd_mempcpy : Line
bsd_mempcpy =
    when (both openbsd (negation (defined "mempcpy")))
      (include "string.h" ▸ declare "mempcpy" ▸ done)

abbrev pub map_32bit : Line
map_32bit = when any_bsd (define_new "MAP_32BIT" (number 0) ▸ done)
