-- ===== src/Lmp.antt =====
-- src/ulmp.c and src/ulmp.h: the demo files of the DOOM engine games. A file is the list of its
-- bytes; `year` is the year of its last change. `players` holds the `playernum` entries of `num`
-- and `playerclass` that are in use. Names, `FILE*` and the playing time, a double, are left out.
pub mod Game
pub mod Determine
pub mod Header
pub mod Stat
pub mod Version
use lmpc.Base.{ℕ, List}
use lmpc.Base.Int.{ℤ}

pub record Player : Type 0 where
  pub num : ℕ
  pub playerclass : ℕ

-- LMP_t
pub record Lmp : Type 0 where
  pub header : List ℕ
  pub headersize : ℕ
  pub game : ℕ
  pub versionbyte : ℕ
  pub skill : ℕ
  pub episode : ℕ
  pub map : ℕ
  pub multirule : ℕ
  pub respawn : ℕ
  pub fast : ℕ
  pub nomonsters : ℕ
  pub mainplayer : ℕ
  pub players : List Player
  pub maxplayer : ℕ
  pub file : List ℕ
  pub filesize : ℕ
  pub datasize : ℤ
  pub year : ℕ
  pub tics : ℤ
  pub stics : ℤ
  pub incomplete : ℤ
  pub ticsize : ℕ
  pub gs : List (List ℕ)
  pub ns : List (List ℕ)

-- TIC_t; a short tic is the first four of its bytes.
pub record Tic : Type 0 where
  pub go : ℕ
  pub strafe : ℕ
  pub turn : ℕ
  pub use_byte : ℕ
  pub fl : ℕ
  pub art : ℕ
