-- ===== src/Lib.antt =====
-- Verification library of android-sdk-custom: the C code that the repository adds to the Android
-- tools for systems that they were not written for.
--
-- The parts, the files that model them and the sources they stand for:
-- * Aq (patches/sources/libusb_bsd_async.inc): asynchronous USB transfers over a synchronous
--   backend. Aq.State holds the queues, results and helper threads as a record; Aq.Handlers has one
--   function for each function of the source, and where the source gives up its lock one for each
--   critical section (sdk_aq_submit is submit, sdk_aq_cancel is cancel, sdk_aq_worker is
--   worker_section and execute, sdk_aq_kicker is kick, sdk_aq_on_signal is deliver,
--   sdk_aq_handle_completion is handle_completion). Aq.Steps runs them in any order. A failing
--   malloc or pthread_create and the code of the backend's transfer are arguments of the functions.
--   Memory that is freed is not modelled, and a chain of items is a list without its tail pointer.
-- * Ugen (patches/sources/libusb_freebsd_usb.c): the FreeBSD backend that the queues call.
--   Ugen.Errors has its tables, Ugen.Slots fbsd_open, fbsd_close, _fs_slot and _fs_drain, and
--   Ugen.Transfer _sync_gen_transfer. The kernel is a record of operations on a state of its own,
--   Driver; the clock, poll and the interrupt flag are the looks of the wait loop, one for each of its
--   rounds. What other threads do under the lock between two rounds is a list of sections, in
--   Ugen.Threads, with what is relied on of the kernel as Ports. The drain has fuel: the kernel has one
--   completion for a slot at most, so one more than the number of slots is enough. Ugen.Backend puts
--   Aq on top: a transfer's way from the worker through _sync_gen_transfer to libusb; Ugen.Cancel
--   that of a cancel to the loop that it interrupts. Ugen.Listing has
--   fbsd_get_device_list, with libusb's device table as a record of operations, Context.
--   Ugen.Descriptors has the cached descriptor, where a write behind the end of a buffer gives no
--   result, and Ugen.Control the control requests, for hosts of both byte orders.
-- * WipeOnFork (patches/misc/bionic_wipeonfork_compat.c): madvise with MADV_WIPEONFORK. The real
--   madvise is a parameter.
-- * Strl (patches/misc/strl_compat.h): strlcpy and strlcat. An access outside of an array gives no
--   result. The qsort_r of this header is not modelled.
-- * Musl.ResolvConf (patches/musl/zig/lib/libc/musl/src/network/resolvconf.c): __get_resolv_conf.
--   The parser of address literals and the largest unsigned long are parameters. Its loop has fuel;
--   each round reads a byte at least, so one more than the length of the file is enough.
-- * Musl.TempName (patches/musl/zig/lib/libc/musl/src/stdio/tmpfile.c and tmpnam.c): tmpfile and
--   tmpnam. The local buffer is a list of bytes; the system's calls are a record, System.
-- * Musl.Faccessat (patches/musl/zig/lib/libc/musl/src/unistd/faccessat.c): faccessat. The kernel's
--   check is a function of the ids that it is made with; pipes and signals are not modelled.
-- * HostCompat (patches/misc/host_compat.h): HostCompat.Header has every section of the header as
--   the preprocessor reads it, and HostCompat.Preprocessor runs it on a set of macros; the headers of
--   the system are a function on that set. HostCompat itself has getline, with malloc and realloc as
--   parameters, HostCompat.Devices the device numbers, and HostCompat.Mount hasmntopt; its loop has
--   fuel, and each round goes on behind a comma, so two more than the number of bytes are enough.
--   HostCompat.Sort has qsort_r, where the library's qsort is a process that calls its comparator;
--   HostCompat.Retry TEMP_FAILURE_RETRY, with fuel for its evaluations; and HostCompat.Stubs the
--   functions of a line or two.
-- * Fastboot (patches/sources/fastboot_usb_libusb.cpp): fastboot's transport over libusb. Fastboot
--   has the class LibusbTransport and fill_ifc_info, Fastboot.Open usb_open with one function for each
--   of its loops. libusb is a record of operations, Usb, on a state of its own; what is relied on of
--   its bulk transfers is Fastboot.Stream.Pipe, and of what its calls take and give back
--   Fastboot.Resources.Counted. The loop of a write has fuel; each round sends a byte at least, so one
--   more than the number of bytes is enough.
-- * Interfaces (patches/sources/openscreen_network_interface_bsd.cc): the network interfaces of a BSD.
--   Interfaces.Prefix has ToPrefixLength, Interfaces GetAllInterfaces; the system calls are a record,
--   System. The loop over the bits of a byte has fuel: after eight shifts the byte is 0, so nine rounds
--   are enough.
-- * AdbScan (patches/sources/adb_libusb_scan.inc): the scan for USB devices, sdk_scan_usb_devices. A
--   round of its loop is a function of the devices that libusb finds, with the calls it makes as a list.
-- * ExePath (patches/sources/libbase_bsd_exe_path.inc): sdk_bsd_executable_path. What the system calls
--   answer is a record, System. The loop over PATH has fuel; each round goes on behind a colon, so two
--   more than the number of bytes are enough.
-- * Termux (patches/termux/termux_adb.h and termux_fastboot.h): enabled, unix_open and
--   ReadFileToString. The Rust library and libbase are a record of functions, Library.
--   Termux.Listener (patches/termux/libtermuxadb/src/lib.rs) has authorize_connected_devices with its
--   listener, start_socket_listener, and the open hook; a panic ends the listener.
--   Termux.Directories has update_dir_map and the virtual directories. The scan of termuxadb_start and libusb are not modelled.
-- * Groups (patches/sources/diagnose_usb_in_group.inc): sdk_in_group.
-- * AdbWin (patches/sources/adbwinapi_static.cpp and patches/compat/adbwinapi/atlbase.h):
--   AdbWinUsbApiInstantiateWinUsbInterface and CComAutoCriticalSection.
-- * AdbUsb (patches/sources/adb_usb_bsd.cpp): usb_init and usb_cleanup.
-- * Compat (patches/bsd-compat/byteswap.h and malloc.h, patches/compat/musl/sys/cdefs.h,
--   patches/misc/force-int-ll64.h and libcxx_transitive.h): small headers, as the preprocessor of
--   HostCompat reads them once; HostCompat.Once reads a guarded header twice.
-- * Flags (include/com_android_art_native_flags.h, include/com_android_art_rw_flags.h and
--   include/android_content_res.h): constant functions.
-- Libusb has the enumerations of libusb that Aq and Ugen share, and Prelude the tests and lemmas on
-- numbers and lists. Examples runs the functions on concrete inputs.
--
-- Not modelled: the build generator and the scripts (Python and shell), the patches of sources that
-- are not in the repository, and headers copied from other projects.
pub mod AdbScan
pub mod AdbUsb
pub mod AdbWin
pub mod Aq
pub mod Compat
pub mod Examples
pub mod ExePath
pub mod Fastboot
pub mod Flags
pub mod Groups
pub mod HostCompat
pub mod Interfaces
pub mod Libusb
pub mod Musl
pub mod Prelude
pub mod Strl
pub mod Termux
pub mod Ugen
pub mod WipeOnFork
