-- ===== src/Rudp.antt =====
-- The server of 2.0.ReliableUDP, which sends a file in numbered packets, one at a time: its header,
-- with the check sum and the encryption of a message, the queue of a connection, and what it does with
-- a request. The comments name the files of that directory.
pub mod Hdr
pub mod Queue
pub mod Process
pub mod Serve
pub mod Client
mod Tests
