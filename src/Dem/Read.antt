-- ===== src/Dem/Read.antt =====
-- src/udem.c: the readers of the messages, and the choice by the first byte.
pub mod Plain
pub mod Vector
pub mod World
pub mod Client
pub mod Entity
pub mod Message
