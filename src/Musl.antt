-- ===== src/Musl.antt =====
-- patches/musl/zig/lib/libc/musl/src: the functions of musl that are replaced, so that they also work
-- on Android.
pub mod ResolvConf
pub mod TempName
pub mod Faccessat
