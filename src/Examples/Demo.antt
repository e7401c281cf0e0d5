-- ===== src/Examples/Demo.antt =====
-- Tests of src/ulmp.c.
use lmpc.Base.{ℕ, zero, suc, ◌<◌, true, List, [], ◌∷◌, ◌++◌, ◌≡◌, refl, arith, replicate, get_or}
use lmpc.Base.Int.{pos}
use lmpc.Base.Result.{ok}
use lmpc.Lmp.{Lmp, Player}
use lmpc.Lmp.Header.{player, read_players, put_players}
use lmpc.Lmp.Header.Players.{read_players-put_players}
use lmpc.Lmp.Determine.{determine_new, lmp_self_determine_type, read_header_bytes, size_game}
use lmpc.Lmp.Determine.Laws.{lmp_self_determine_type-fits}
use lmpc.Lmp.Determine.Sets.{is_result, fits_game}
use lmpc.Lmp.Stat.{Stat, stat_calc}
use lmpc.Lmp.Stat.Laws.{Ranked, Placed, stat_calc-Ranked}

-- A recording of DOOM 1.9 for one player, of one tic.
abbrev recording : Lmp
recording = record {
  header = replicate 19 0;
  headersize = 0;
  game = 0;
  versionbyte = 0;
  skill = 0;
  episode = 0;
  map = 0;
  multirule = 0;
  respawn = 0;
  fast = 0;
  nomonsters = 0;
  mainplayer = 0;
  players = [];
  maxplayer = 0;
  file = 109 ∷ 2 ∷ 1 ∷ 1 ∷ 0 ∷ 0 ∷ 0 ∷ 0 ∷ 0 ∷ 1 ∷ 0 ∷ 0 ∷ 0 ∷ 25 ∷ 0 ∷ 0 ∷ 0 ∷ 128 ∷ [];
  filesize = 18;
  datasize = pos 0;
  year = 1995;
  tics = pos 0;
  stics = pos 0;
  incomplete = pos 0;
  ticsize = 4;
  gs = [];
  ns = [];
}

abbrev turns : Stat
turns = record {
  hist = 0 ∷ 0 ∷ 5 ∷ 1 ∷ 9 ∷ replicate 122 0 ++ (3 ∷ []);
  sum = 0;
  command = [];
  maxm = 3;
  m0 = 0;
  m1 = 0;
  m2 = 0;
  control = 0;
  last = 0;
}

stat_calc-Ranked_example :
    Ranked (stat_calc turns)
    × ((j : ℕ) → j < 128 → Placed (stat_calc turns) j)
    × ((stat_calc turns).hist ≡ turns.hist)
stat_calc-Ranked_example = stat_calc-Ranked turns refl

abbrev determined : Lmp
determined = record recording {
  header = 109 ∷ 2 ∷ 1 ∷ 1 ∷ 0 ∷ 0 ∷ 0 ∷ 0 ∷ 0 ∷ 1 ∷ replicate 9 0;
  game = 6;
}

recording_run : lmp_self_determine_type recording ≡ ok determined
unfolding lmp_self_determine_type read_header_bytes determine_new size_game
recording_run = refl

lmp_self_determine_type-fits_example :
    (is_result determined.game ≡ true)
    × (fits_game determined.filesize determined.game ≡ true)
    × (determined.filesize ≡ recording.filesize)
lmp_self_determine_type-fits_example =
    lmp_self_determine_type-fits recording determined recording_run

get_or-zeros : (n j : ℕ) → get_or {A = ℕ} (replicate n 0) j 0 ≡ 0
get_or-zeros zero j = refl
get_or-zeros (suc n) zero = refl
get_or-zeros (suc n) (suc j) = get_or-zeros n j

-- The first and the third of four players, in a header of seven bytes.
abbrev two_players : List Player
two_players = player 0 0 ∷ player 2 0 ∷ []

read_players-put_players_example :
    read_players (put_players two_players 3 (replicate 7 0)) 3 0 4 ≡ two_players
read_players-put_players_example =
    read_players-put_players 4 3 two_players (replicate 7 0)
      (omega arith, omega arith, refl, (omega arith, omega arith, refl, tt))
      (λ j h m. get_or-zeros 7 j) (omega arith)
