-- ===== src/Aq.antt =====
-- patches/sources/libusb_bsd_async.inc: asynchronous transfers over a synchronous backend.
pub mod State
pub mod Handlers
pub mod Steps
pub mod Lookup
pub mod Cases
pub mod Fit
pub mod Invariant
pub mod Load
pub mod Account
pub mod Line
pub mod Order
pub mod Reports
