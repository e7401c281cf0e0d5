-- ===== src/Dmo/Header.antt =====
-- src/udmo.c, `DMO_readheader`. `d->time`, which is the number of tics by 26.0, is left out.
pub mod Recognised
pub mod Laws
use lmpc.Base.{
  ℕ, zero, suc, ◌+◌, ◌-◌, ◌*◌, ◌/◌, ◌%◌, ◌^◌, List, [], ◌∷◌, ◌==◌, ltb, leb, if◌then◌else◌, length,
  take, drop, get_or,
}
use lmpc.Base.Result.{Error}
use lmpc.Base.Text.{codes}
use lmpc.Dmo.{
  header_duke_old, header_duke_new, header_duke_14plus, header_redneck_base, duke_old, duke_new,
  redneck, duke_14plus, short_at, long_at,
}

-- The fields of `DMO_t` that the function sets.
pub record Dmo : Type 0 where
  pub header : List ℕ
  pub headersize : ℕ
  pub game : ℕ
  pub gs : List ℕ
  pub vs : List ℕ
  pub version : ℕ
  pub tics : ℕ
  pub incomplete : ℕ
  pub datasize : ℕ
  pub skill : ℕ
  pub episode : ℕ
  pub map : ℕ
  pub m_coop : ℕ
  pub m_ffire : ℕ
  pub max_players : ℕ
  pub user_name_length : ℕ
  pub playernum : ℕ
  pub m_monsters_off : ℕ
  pub m_respawn_monsters : ℕ
  pub m_respawn_items : ℕ
  pub m_respawn_inventory : ℕ
  pub playerai : ℕ
  pub name : List ℕ
  pub user_name : List (List ℕ)
  pub auto_run : ℕ
  pub boardfilename : List ℕ
  pub aim_mode : List ℕ

-- `DMO_init` sets every field to zero.
abbrev pub empty : Dmo
empty = record {
  header = [];
  headersize = 0;
  game = 0;
  gs = [];
  vs = [];
  version = 0;
  tics = 0;
  incomplete = 0;
  datasize = 0;
  skill = 0;
  episode = 0;
  map = 0;
  m_coop = 0;
  m_ffire = 0;
  max_players = 0;
  user_name_length = 0;
  playernum = 0;
  m_monsters_off = 0;
  m_respawn_monsters = 0;
  m_respawn_items = 0;
  m_respawn_inventory = 0;
  playerai = 0;
  name = [];
  user_name = [];
  auto_run = 0;
  boardfilename = [];
  aim_mode = [];
}

pub data Reader : Type 0 where
  done : Dmo → Reader
  exits : Error → Reader
  divides_by_zero overflows : Reader

-- `header[HEADER_DUKE_14PLUS+16]`
abbrev pub header_room : ℕ
header_room = header_duke_14plus + 16

-- `fread` of the header up to `size`; what is there already has been read from the same place.
unfoldable pub read_to : ℕ → List ℕ → Dmo → (Dmo → Reader) → Reader
read_to size f d rest =
    if ltb header_room (length (take size f))
    then overflows
    else if ltb (length f) size
    then exits Error.firead
    else rest (record d { header = take size f; headersize = size })

abbrev pub old_fields : Dmo → Dmo
old_fields d = record d {
  game = duke_old;
  gs = codes "Duke Nukem 3D";
  vs = codes "1.0 or 1.1";
  episode = (get_or d.header 4 0 + 1) % 256;
  map = (get_or d.header 5 0 + 1) % 256;
  skill = get_or d.header 6 0;
  playernum = short_at d.header 7;
}

abbrev pub new_fields : Dmo → Dmo
new_fields d = record d {
  game = duke_new;
  gs = codes "Duke Nukem 3D";
  vs = codes "1.3D";
  episode = (get_or d.header 0x04 0 + 1) % 256;
  map = (get_or d.header 0x05 0 + 1) % 256;
  skill = get_or d.header 0x06 0;
  m_coop = get_or d.header 0x07 0;
  playernum = short_at d.header 0x08;
  m_monsters_off = short_at d.header 0x0A;
  m_respawn_monsters = long_at d.header 0x0C;
  m_respawn_items = long_at d.header 0x10;
  m_respawn_inventory = long_at d.header 0x14;
}

abbrev pub version_string : ℕ → List ℕ
version_string v =
    if v == 116 then codes "1.4" else if v == 117 then codes "1.5" else codes "unknown"

abbrev pub plus_fields : Dmo → Dmo
plus_fields d = record d {
  game = duke_14plus;
  gs = codes "Duke Nukem 3D";
  max_players = 16;
  user_name_length = 32;
  version = get_or d.header 0x04 0;
  vs = version_string (get_or d.header 0x04 0);
  episode = (get_or d.header 0x05 0 + 1) % 256;
  map = (get_or d.header 0x06 0 + 1) % 256;
  skill = get_or d.header 0x07 0;
  m_coop = get_or d.header 0x08 0;
  m_ffire = get_or d.header 0x09 0;
  playernum = short_at d.header 0x0A;
}

-- `for (i=0;i<d->max_players;i++,ho+=d->user_name_length)`
unfoldable pub user_names : ℕ → ℕ → List ℕ → List (List ℕ)
user_names zero ho header = []
user_names (suc k) ho header = take 32 (drop ho header) ∷ user_names k (ho + 32) header

abbrev pub more_plus_fields : Dmo → Dmo
more_plus_fields d = record d {
  m_monsters_off = short_at d.header 0x0C;
  m_respawn_monsters = long_at d.header 0x0E;
  m_respawn_items = long_at d.header 0x12;
  m_respawn_inventory = long_at d.header 0x16;
  playerai = long_at d.header 0x1A;
  user_name = user_names d.max_players 0x1E d.header;
  auto_run = long_at d.header (0x1E + 32 * 16);
  boardfilename = take 128 (drop (0x1E + 32 * 16 + 4) d.header);
}

abbrev pub redneck_fields : Dmo → Dmo
redneck_fields d = record d {
  game = redneck;
  gs = codes "Redneck Rampage";
  vs = codes "0.7 alpha";
  episode = 1;
  skill = get_or d.header 0x07 0;
  m_coop = (get_or d.header 0x08 0 + 1) % 256;
  map = get_or d.header 0x09 0;
  playernum = short_at d.header 0x0A;
  m_monsters_off = short_at d.header 0x0C;
  m_respawn_monsters = long_at d.header 0x0E;
  m_respawn_items = long_at d.header 0x12;
  m_respawn_inventory = long_at d.header 0x16;
  playerai = long_at d.header 0x1A;
}

-- The statements behind the switch; `datasize` is an unsigned difference.
unfoldable pub count : List ℕ → Dmo → Reader
count f d =
    if d.playernum == 0
    then divides_by_zero
    else done (record d {
      incomplete = d.tics % d.playernum;
      tics = d.tics / d.playernum;
      datasize = (length f + 2 ^ 64 - d.headersize) % 2 ^ 64;
    })

abbrev pub aim_modes : Dmo → Dmo
aim_modes d = record d { aim_mode = take d.playernum (drop header_duke_14plus d.header) }

-- The cases of the switch, after the first nine bytes.
abbrev pub new_header : List ℕ → Dmo → Reader
new_header f d = read_to header_duke_new f d (λ d1. count f (new_fields d1))

abbrev pub plus_players : List ℕ → Dmo → Reader
plus_players f d =
    if ltb d.max_players d.playernum
    then exits Error.wdmo
    else read_to (header_duke_14plus + d.playernum) f (more_plus_fields d)
        (λ d1. count f (aim_modes d1))

-- No byte behind the nine is an error of the system.
abbrev pub plus_header : List ℕ → Dmo → Reader
plus_header f d =
    if leb (length f) d.headersize
    then exits Error.errno
    else read_to header_duke_14plus f d (λ d1. plus_players f (plus_fields d1))

-- `name` points into the header.
abbrev pub redneck_players : List ℕ → Dmo → Reader
redneck_players f d =
    read_to (header_redneck_base + d.playernum) f d
      (λ d1. count f (record d1 { name = drop 0x1E d1.header }))

abbrev pub redneck_header : List ℕ → Dmo → Reader
redneck_header f d = read_to header_redneck_base f d (λ d1. redneck_players f (redneck_fields d1))

abbrev pub game_header : ℕ → List ℕ → Dmo → Reader
game_header game f d =
    if game == duke_old
    then count f (old_fields d)
    else if game == duke_new
    then new_header f d
    else if game == duke_14plus
    then plus_header f d
    else if game == redneck
    then redneck_header f d
    else exits Error.wdmo

-- The header of the game that has been set before.
unfoldable pub dmo_readheader : ℕ → List ℕ → Reader
unfolding count read_to
dmo_readheader game f =
    read_to header_duke_old f empty
      (λ d. game_header game f (record d { tics = long_at d.header 0 }))
