-- ===== src/Examples.antt =====
-- Runs on concrete inputs, for each part.
mod Strings
mod Wiping
mod Queues
mod Endpoints
mod Resolver
mod Devices
mod Files
mod Listing
mod Lines
mod Fastboot
mod Headers
mod Interfaces
mod Scanning
mod Mounts
mod Sorting
mod Programs
mod Kernel
mod Threads
