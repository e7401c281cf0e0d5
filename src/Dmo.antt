-- ===== src/Dmo.antt =====
-- src/udmo.c, the recordings of Duke Nukem 3D and Redneck Rampage. A file is the list of its bytes,
-- each below 256; `unsigned long` has 64 bits. `uncompress`, which is taken from the game's own
-- source, is a parameter.
pub mod Tail
pub mod Header
pub mod Macro
use lmpc.Base.{ℕ, ◌+◌, ◌*◌, ◌^◌, List, get_or}

abbrev pub header_duke_old : ℕ
header_duke_old = 0x009

abbrev pub header_duke_new : ℕ
header_duke_new = 0x018

abbrev pub header_duke_14plus : ℕ
header_duke_14plus = 0x2a2

abbrev pub header_redneck_base : ℕ
header_redneck_base = 0x21E

abbrev pub chunk_header_size : ℕ
chunk_header_size = 6

abbrev pub dmo_tic : ℕ
dmo_tic = 10

abbrev pub maxtics : ℕ
maxtics = 2520

abbrev pub duke_old : ℕ
duke_old = 128

abbrev pub duke_new : ℕ
duke_new = 256

abbrev pub redneck : ℕ
redneck = 512

abbrev pub duke_14plus : ℕ
duke_14plus = 32768

-- Two and four bytes of a buffer, the low byte first.
abbrev pub short_at : List ℕ → ℕ → ℕ
short_at b i = get_or b i 0 + get_or b (i + 1) 0 * 2 ^ 8

abbrev pub long_at : List ℕ → ℕ → ℕ
long_at b i =
    get_or b i 0
    + get_or b (i + 1) 0 * 2 ^ 8
    + get_or b (i + 2) 0 * 2 ^ 16
    + get_or b (i + 3) 0 * 2 ^ 24
