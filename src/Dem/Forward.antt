-- ===== src/Dem/Forward.antt =====
-- src/udem.c: no reader of a message moves the cursor back.
pub mod Plain
pub mod Vector
pub mod Names
pub mod World
pub mod Client
pub mod Message
