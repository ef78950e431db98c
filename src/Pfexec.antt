-- ===== src/Pfexec.antt =====
-- The system call of 0.syscall-pfexec-obsd, by which a program asks to be run as another user: the
-- kernel's part in src/kern/kern_pfexec.c, the daemon that decides in src/pfexecd/pfexecd.c, and the
-- packets between them, of src/kern/pfexecvar.h and pfexec.h.
pub mod Packet
pub mod Kernel
pub mod Daemon
pub mod Whole
mod Tests
