-- ===== src/Pfexec/Kernel.antt =====
-- kern_pfexec.c: the system call, from its arguments to the program that is run. Request has what is
-- sent, Socket the exchange with the daemon, and the others what holds of them.
pub mod Request
pub mod Socket
pub mod Call
