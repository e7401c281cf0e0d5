-- ===== src/Dem.antt =====
-- src/udem.c and src/udem.h: Quake recordings, as blocks of messages and as trees of nodes.
pub mod Token
pub mod State
pub mod Read
pub mod Write
pub mod Analyze
pub mod Edit
pub mod Forward
pub mod Block
pub mod RoundTrip
