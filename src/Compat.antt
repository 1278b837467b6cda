-- ===== src/Compat.antt =====
-- The small headers that the builds put in front of or beside a system's own, as the preprocessor
-- reads them: patches/bsd-compat/byteswap.h and malloc.h, patches/compat/musl/sys/cdefs.h,
-- patches/misc/force-int-ll64.h and libcxx_transitive.h. `#pragma once` is not among the lines: each
-- of them stands for one reading.
pub mod Kept
use Prim.Native.String.{String}
use android_sdk_custom.HostCompat.Preprocessor.{
  tokens, Condition, defined, negation, either, Lines, define, declare, include, choose, done, ◌▸◌,
  when, define_new,
}
use android_sdk_custom.HostCompat.Once.{guarded}

unfoldable pub byteswap : Lines
byteswap =
    when (either (either (defined "__FreeBSD__") (defined "__NetBSD__")) (defined "__OpenBSD__"))
      (include "sys/endian.h" ▸ done)
    ▸ define_new "bswap_16" (tokens "bswap16")
    ▸ define_new "bswap_32" (tokens "bswap32")
    ▸ define_new "bswap_64" (tokens "bswap64")
    ▸ done

-- The second is the system's malloc.h, by include_next.
unfoldable pub malloc : Lines
malloc =
    choose (defined "__OpenBSD__") (include "stdlib.h" ▸ done) (include "malloc.h" ▸ done) ▸ done

abbrev pub cdefs_guard : String
cdefs_guard = "SDK_COMPAT_SYS_CDEFS_H"

unfoldable pub cdefs_sections : Lines
cdefs_sections =
    choose (defined "__cplusplus")
      (define "__BEGIN_DECLS" (tokens "extern \"C\" {") ▸ define "__END_DECLS" (tokens "}") ▸ done)
      (define "__BEGIN_DECLS" (tokens "") ▸ define "__END_DECLS" (tokens "") ▸ done)
    ▸ define_new "__INTRODUCED_IN" (tokens "")
    ▸ done

unfoldable pub cdefs : Lines
unfolding cdefs_sections
cdefs = guarded cdefs_guard cdefs_sections

abbrev pub int_l64_guard : String
int_l64_guard = "_ASM_GENERIC_INT_L64_H"

unfoldable pub int_ll64_sections : Lines
int_ll64_sections =
    when (negation (defined "__ASSEMBLY__")) (
      declare "__s8"
      ▸ declare "__u8"
      ▸ declare "__s16"
      ▸ declare "__u16"
      ▸ declare "__s32"
      ▸ declare "__u32"
      ▸ declare "__s64"
      ▸ declare "__u64"
      ▸ done)
    ▸ done

unfoldable pub force_int_ll64 : Lines
unfolding int_ll64_sections
force_int_ll64 = guarded int_l64_guard int_ll64_sections

unfoldable pub libcxx_transitive : Lines
libcxx_transitive =
    when (defined "__cplusplus") (
      include "algorithm"
      ▸ include "atomic"
      ▸ include "cstdlib"
      ▸ include "cstring"
      ▸ include "functional"
      ▸ include "iterator"
      ▸ include "memory"
      ▸ include "mutex"
      ▸ include "optional"
      ▸ include "string"
      ▸ include "utility"
      ▸ include "vector"
      ▸ done)
    ▸ done
