-- ===== src/HostCompat/Header.antt =====
-- patches/misc/host_compat.h as the preprocessor reads it, section by section.
pub mod Bsd
pub mod Foreign
pub mod Bionic
use android_sdk_custom.HostCompat.Preprocessor.{
  Body, tokens, Condition, defined, negation, Line, define, include, Lines, done, ◌▸◌, when,
}
use android_sdk_custom.HostCompat.Header.Bsd.{
  netbsd_source, bsd_visible, lfs64, off64, enodata, pshared_netbsd, pshared_openbsd, bsd_sockets,
  pthread_np, ip_mreqn, in_pktinfo, bsd_mempcpy, map_32bit,
}
use android_sdk_custom.HostCompat.Header.Foreign.{
  wincrypt, rand_s, windows_ids, darwin_source, xattr, progname, unlocked, windows_sockets,
  windows_stat, windows_getline,
}
use android_sdk_custom.HostCompat.Header.Bionic.{
  failure_retry, bionic, windows_identity, windows_devices, windows_headers,
}

-- What stands inside of the include guard.
unfoldable pub sections : Lines
sections =
    netbsd_source
    ▸ bsd_visible
    ▸ lfs64
    ▸ off64
    ▸ enodata
    ▸ pshared_netbsd
    ▸ pshared_openbsd
    ▸ include "stdint.h"
    ▸ bsd_sockets
    ▸ pthread_np
    ▸ ip_mreqn
    ▸ in_pktinfo
    ▸ bsd_mempcpy
    ▸ map_32bit
    ▸ wincrypt
    ▸ rand_s
    ▸ windows_ids
    ▸ darwin_source
    ▸ xattr
    ▸ progname
    ▸ unlocked
    ▸ windows_sockets
    ▸ windows_stat
    ▸ windows_getline
    ▸ failure_retry
    ▸ bionic
    ▸ windows_identity
    ▸ windows_devices
    ▸ windows_headers
    ▸ done

-- The header, with its include guard.
unfoldable pub host_compat : Lines
unfolding sections
host_compat =
    when (negation (defined "HOST_COMPAT_H")) (define "HOST_COMPAT_H" (tokens "") ▸ sections) ▸ done
