-- ===== src/Lmp/Game.antt =====
-- src/ulmp.h: the games as bits of a set, and the sizes of headers and tics.
use lmpc.Base.{ℕ, ◌+◌, ◌-◌, ◌%◌, Bool, ◌==◌, nonzero, bit_and, bit_xor}

abbrev pub unknown : ℕ
unknown = 0

abbrev pub doom_old : ℕ
doom_old = 1

abbrev pub doom_new : ℕ
doom_new = 2

abbrev pub doom2 : ℕ
doom2 = 4

abbrev pub heretic : ℕ
heretic = 8

abbrev pub hexen_old : ℕ
hexen_old = 16

abbrev pub hexen_new : ℕ
hexen_new = 32

abbrev pub strife : ℕ
strife = 64

abbrev pub header_doom_old : ℕ
header_doom_old = 7

abbrev pub header_doom_new : ℕ
header_doom_new = 13

abbrev pub header_heretic : ℕ
header_heretic = 7

abbrev pub header_hexen_old : ℕ
header_hexen_old = 11

abbrev pub header_hexen_new : ℕ
header_hexen_new = 19

abbrev pub header_strife : ℕ
header_strife = 16

abbrev pub short_tic : ℕ
short_tic = 4

abbrev pub long_tic : ℕ
long_tic = 6

-- `game & mask`, as a test.
abbrev pub has_game : ℕ → ℕ → Bool
has_game game mask = nonzero (bit_and game mask)

-- `game & ~mask`; a set of games has seven bits.
abbrev pub without : ℕ → ℕ → ℕ
without game mask = bit_and game (bit_xor 127 mask)

-- `(filesize-1-header) % tic == 0`. The difference may be negative in the source; 24 is a multiple
-- of both tic sizes, so adding it first leaves the test as it is.
unfoldable pub fits : ℕ → ℕ → ℕ → Bool
fits filesize header tic = (filesize + 24 - 1 - header) % tic == 0
