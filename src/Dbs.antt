-- ===== src/Dbs.antt =====
-- src/dbs.c, the server that broadcasts a recording of Quake to watchers. What the sockets, the
-- clock and the C library give is an input of the functions here.
pub mod Packet
pub mod Transfer
pub mod Server
pub mod Runtime
pub mod Client
