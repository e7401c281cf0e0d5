-- ===== src/Examples.antt =====
-- The theorems at concrete inputs, and tests of the definitions.
mod Bytes
mod Tree
mod Demo
mod Cutter
mod Quake
mod Server
mod Duke
