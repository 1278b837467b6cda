-- ===== src/Ugen.antt =====
-- patches/sources/libusb_freebsd_usb.c: the FreeBSD backend over ugen(4).
pub mod Errors
pub mod Slots
pub mod Binding
pub mod Choice
pub mod Transfer
pub mod Drain
pub mod Wait
pub mod Backend
pub mod Cancel
pub mod Threads
pub mod Ready
pub mod Others
pub mod Interference
pub mod Handover
pub mod Descriptors
pub mod Cached
pub mod Control
pub mod Listing
pub mod References
