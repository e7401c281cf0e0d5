-- ===== src/Lmp/Header.antt =====
-- src/ulmp.c, `LMP_readheader` and `LMP_writeheader`, and the tics behind the header.
pub mod Players
use lmpc.Base.{
  ℕ, zero, suc, ◌+◌, ◌-◌, ◌*◌, ◌/◌, ◌%◌, ◌||◌, List, [], ◌∷◌, ◌++◌, ◌==◌, length, get_or, set, take,
  replicate, leb, if◌then◌else◌, bit_or, nonzero, Option, none, some,
}
use lmpc.Base.Int.{ℤ, pos, negsuc, sub_ℕ, pos_part, neg_part}
use lmpc.Base.Result.{Result, Error, ok, ◌>>=◌, ◌>>◌, fail_if}
use lmpc.Lmp.{Lmp, Player, Tic}
use lmpc.Lmp.Game.{
  doom_old, doom_new, doom2, heretic, hexen_old, hexen_new, strife, header_doom_old,
  header_doom_new, header_heretic, header_hexen_old, header_hexen_new, header_strife, short_tic,
  long_tic, has_game, fits,
}
use lmpc.Lmp.Determine.{overlay, read_header_bytes, header_at}
use lmpc.Lmp.Version.{getversion}

-- What the switch over the game sets: headersize, ticsize and maxplayer. A set that is no case of
-- the switch sets nothing.
unfoldable pub layout : ℕ → Option (ℕ × ℕ × ℕ)
layout game =
    if game == doom_old
    then some (header_doom_old, short_tic, 4)
    else if game == heretic
    then some (header_heretic, long_tic, 4)
    else if game == hexen_old
    then some (header_hexen_old, long_tic, 4)
    else if game == hexen_new
    then some (header_hexen_new, long_tic, 8)
    else if game == doom_new
    then some (header_doom_new, short_tic, 4)
    else if game == doom2
    then some (header_doom_new, short_tic, 4)
    else if game == bit_or doom_new doom2
    then some (header_doom_new, short_tic, 4)
    else if game == strife
    then some (header_strife, long_tic, 8)
    else none

unfoldable pub set_layout : Lmp → Lmp
unfolding layout
set_layout l = elim (layout l.game) [
  | none ↦ l
  | some (h, t, m) ↦ record l { headersize = h; ticsize = t; maxplayer = m }
]

-- The two sets that the first lines of the source decide by themselves.
unfoldable pub settle_game : Lmp → Result Lmp
settle_game l =
    if l.game == bit_or doom_old doom_new
    then (do
      l' ← read_header_bytes 1 l
      ok (record l' { game = if leb 104 (header_at l' 0) then doom_new else doom_old }))
    else if l.game == bit_or hexen_old hexen_new
    then ok (record l {
      game = if fits l.filesize header_hexen_old long_tic then hexen_old else hexen_new;
    })
    else ok l

-- The switch over the size of the header. A size of 7 is that of DOOM_old and of HERETIC.
unfoldable pub parse_fields : Lmp → Lmp
parse_fields l =
    if (l.headersize == header_doom_old)
      || (l.headersize == header_hexen_old)
      || (l.headersize == header_hexen_new)
    then record l {
      versionbyte = if (l.game == doom_old) || (l.game == heretic) then 0 else l.game;
      skill = header_at l 0;
      episode = header_at l 1;
      map = header_at l 2;
      multirule = 0;
      respawn = 0;
      fast = 0;
      nomonsters = 0;
      mainplayer = 0;
    }
    else if l.headersize == header_doom_new
    then record l {
      versionbyte = header_at l 0;
      skill = header_at l 1;
      episode = header_at l 2;
      map = header_at l 3;
      multirule = header_at l 4;
      respawn = header_at l 5;
      fast = header_at l 6;
      nomonsters = header_at l 7;
      mainplayer = header_at l 8;
    }
    else if l.headersize == header_strife
    then record l {
      versionbyte = header_at l 0;
      skill = header_at l 1;
      episode = 1;
      map = header_at l 2;
      multirule = header_at l 3;
      respawn = header_at l 4;
      fast = header_at l 5;
      nomonsters = header_at l 6;
      mainplayer = header_at l 7;
    }
    else l

abbrev pub player : ℕ → ℕ → Player
player n c = record { num = n; playerclass = c }

-- The loops over the player bytes of a header, from `base` on: `k` players are left, the next is
-- `i`. A HEXEN header has two bytes for each player, the flag and the class; the other games leave
-- `playerclass` alone, which is 0 here.
unfoldable pub read_players : List ℕ → ℕ → ℕ → ℕ → List Player
read_players header base i zero = []
read_players header base i (suc k) =
    let rest = read_players header base (i + 1) k in
    if nonzero (get_or header (base + i) 0) then player i 0 ∷ rest else rest

unfoldable pub read_hexen_players : List ℕ → ℕ → ℕ → ℕ → List Player
read_hexen_players header base i zero = []
read_hexen_players header base i (suc k) =
    let rest = read_hexen_players header base (i + 1) k in
    if nonzero (get_or header (base + i * 2) 0)
    then player i (get_or header (base + i * 2 + 1) 0) ∷ rest
    else rest

unfoldable pub parse_players : Lmp → List Player
parse_players l =
    if has_game l.game (bit_or hexen_old hexen_new)
    then read_hexen_players l.header (l.headersize - l.maxplayer * 2) 0 l.maxplayer
    else read_players l.header (l.headersize - l.maxplayer) 0 l.maxplayer

-- `/` and `%` of C, which round towards zero, by a positive number.
abbrev signed : ℤ → ℕ → ℤ
signed (pos n) m = pos m
signed (negsuc n) m = sub_ℕ 0 m

unfoldable pub quotient : ℤ → ℕ → ℤ
quotient a d = signed a ((pos_part a + neg_part a) / d)

unfoldable pub remainder : ℤ → ℕ → ℤ
remainder a d = signed a ((pos_part a + neg_part a) % d)

-- The counts of tics behind the header.
unfoldable pub count_tics : Lmp → Result Lmp
unfolding quotient remainder
count_tics l = do
  let datasize = sub_ℕ l.filesize (l.headersize + 1)
  fail_if (nonzero ((pos_part datasize + neg_part datasize) % l.ticsize)) Error.wlmp
  let stics = quotient datasize l.ticsize
  ok (record l {
    datasize = datasize;
    stics = stics;
    tics = quotient stics (length l.players);
    incomplete = remainder stics (length l.players);
  })

unfoldable pub lmp_readheader : Lmp → Result Lmp
lmp_readheader l = do
  l1 ← settle_game l
  let l2 = set_layout l1
  l3 ← read_header_bytes l2.headersize l2
  let l4 = parse_fields l3
  let l5 = record l4 { players = parse_players l4 }
  fail_if (length l5.players == 0) Error.wlmp
  let l6 = record l5 {
    gs = (getversion l5.versionbyte l5.game).0;
    ns = (getversion l5.versionbyte l5.game).1;
  }
  count_tics l6

-- `LMP_writeheader`: the fields that it puts in front of the player bytes.
unfoldable pub put_fields : Lmp → List ℕ
put_fields l =
    if (l.headersize == header_doom_old)
      || (l.headersize == header_hexen_old)
      || (l.headersize == header_hexen_new)
    then l.skill ∷ l.episode ∷ l.map ∷ []
    else if l.headersize == header_doom_new
    then l.versionbyte ∷ l.skill ∷ l.episode ∷ l.map ∷ l.multirule ∷ l.respawn ∷ l.fast
      ∷ l.nomonsters ∷ l.mainplayer ∷ []
    else if l.headersize == header_strife
    then l.versionbyte ∷ l.skill ∷ l.map ∷ l.multirule ∷ l.respawn ∷ l.fast ∷ l.nomonsters
      ∷ l.mainplayer ∷ []
    else []

-- The player bytes have been set to 0 with the rest of the header.
unfoldable pub put_players : List Player → ℕ → List ℕ → List ℕ
put_players [] base header = header
put_players (p ∷ ps) base header = put_players ps base (set header (base + p.num) 1)

unfoldable pub put_hexen_players : List Player → ℕ → List ℕ → List ℕ
put_hexen_players [] base header = header
put_hexen_players (p ∷ ps) base header =
    put_hexen_players ps base
      (set (set header (base + p.num * 2) 1) (base + p.num * 2 + 1) p.playerclass)

-- The header goes to the end of the file. `LMP_writeheader` leaves `ticsize` as it is.
unfoldable pub lmp_writeheader : Lmp → Lmp
unfolding set_layout
lmp_writeheader l =
    let l' = record (set_layout l) { ticsize = l.ticsize } in
    let fields = overlay (put_fields l') (overlay (replicate l'.headersize 0) l'.header) in
    let header =
      (if has_game l'.game (bit_or hexen_old hexen_new)
        then put_hexen_players l'.players (l'.headersize - l'.maxplayer * 2) fields
        else put_players l'.players (l'.headersize - l'.maxplayer) fields) in
    record l' { header = header; file = l'.file ++ take l'.headersize header }

abbrev tic_bytes : Tic → List ℕ
tic_bytes t = t.go ∷ t.strafe ∷ t.turn ∷ t.use_byte ∷ t.fl ∷ t.art ∷ []

unfoldable pub lmp_putgametic : Lmp → Tic → Lmp
lmp_putgametic l t = record l { file = l.file ++ take l.ticsize (tic_bytes t) }

unfoldable pub lmp_writequitbyte : Lmp → Lmp
lmp_writequitbyte l = record l { file = l.file ++ (0x80 ∷ []) }
