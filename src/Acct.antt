-- ===== src/Acct.antt =====
-- The accounting pseudo-device of 1.acct-driver-obsd/src/acct.c and acct.h: hooks in the kernel log
-- process and file events to a queue, /dev/acct hands them to a reader, and ioctls choose what is
-- logged. Each child is one part of the driver, with its proofs below it.
pub mod Types
pub mod Kernel
pub mod Track
pub mod Log
pub mod Hooks
pub mod Ioctl
pub mod Read
mod Sample
mod Tests
