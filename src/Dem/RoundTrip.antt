-- ===== src/Dem/RoundTrip.antt =====
-- src/udem.c: what a reader makes of the bytes of a message, its writer turns into these bytes.
pub mod Table
pub mod Value
pub mod Special
pub mod Message
pub mod Agrees
pub mod Simple
pub mod Block
pub mod Written
