-- ===== src/Dem/Write.antt =====
-- src/udem.c: the writers of the messages.
pub mod Special
pub mod Entity
pub mod Client
pub mod Block
