-- ===== src/Lmp/Version.antt =====
-- src/ulmp.c: version numbers. `gs` and `ns` are kept as the lists of the parts that the source
-- joins by " or ".
use lmpc.Base.{
  ℕ, ◌%◌, Bool, true, false, not, ◌&&◌, List, [], ◌∷◌, ◌++◌, ◌==◌, length, ltb, if◌then◌else◌,
  bit_and, bit_or, nonzero, Option, none, some, take,
}
use lmpc.Base.Result.{Result, Error, ok, err}
use lmpc.Node.Token.{string_eq}
use lmpc.Lmp.Game.{doom_old, doom_new, doom2, heretic, hexen_old, hexen_new, strife, has_game}

-- VK
pub record VersionKey : Type 0 where
  pub versionstring : List ℕ
  pub game : ℕ
  pub versionbyte : ℕ
  pub string_no : ℕ

abbrev key : List ℕ → ℕ → ℕ → ℕ → VersionKey
key s g b n = record { versionstring = s; game = g; versionbyte = b; string_no = n }

-- Three characters and four.
abbrev v3 : ℕ → ℕ → ℕ → List ℕ
v3 a b c = a ∷ b ∷ c ∷ []

abbrev v4 : ℕ → ℕ → ℕ → ℕ → List ℕ
v4 a b c d = a ∷ b ∷ c ∷ d ∷ []

abbrev beta : ℕ → List ℕ
beta a = v3 b'1' b'.' a ++ v4 b'b' b'e' b't' b'a'

abbrev v1_666 : List ℕ
v1_666 = v3 b'1' b'.' b'6' ++ (b'6' ∷ b'6' ∷ [])

-- VersionKey, 23 entries.
abbrev pub version_key : List VersionKey
version_key =
    key (v3 b'1' b'.' b'0') heretic 0 1
    ∷ key (v3 b'1' b'.' b'1') doom_old 0 1
    ∷ key (v3 b'1' b'.' b'2') doom_old 0 2
    ∷ key (v4 b'<' b'1' b'.' b'4') doom_old 0 4
    ∷ key (v3 b'1' b'.' b'0') strife 101 1
    ∷ key (beta b'4') doom_new 104 1
    ∷ key (beta b'5') doom_new 105 1
    ∷ key (beta b'6') doom_new 106 1
    ∷ key v1_666 doom_new 106 2
    ∷ key v1_666 doom2 106 2
    ∷ key (v3 b'1' b'.' b'7') doom2 107 1
    ∷ key (v4 b'1' b'.' b'7' b'a') doom_new 107 2
    ∷ key (v4 b'1' b'.' b'7' b'a') doom2 107 2
    ∷ key (v3 b'1' b'.' b'8') doom_new 108 1
    ∷ key (v3 b'1' b'.' b'8') doom2 108 1
    ∷ key (v3 b'1' b'.' b'9') doom_new 109 1
    ∷ key (v3 b'1' b'.' b'9') doom2 109 1
    ∷ key (v4 b'1' b'.' b'1' b'0') doom_new 110 1
    ∷ key (v4 b'1' b'.' b'1' b'0') doom2 110 1
    ∷ key (v3 b'1' b'.' b'0') hexen_old hexen_old 1
    ∷ key (v3 b'1' b'.' b'0') (bit_or hexen_old hexen_new) hexen_old 1
    ∷ key (v3 b'1' b'.' b'1') hexen_new hexen_new 1
    ∷ key (v3 b'1' b'.' b'1') (bit_or hexen_old hexen_new) hexen_new 1
    ∷ []

-- The loop of `getversion`: the strings of the entries with the byte and one of the games, each
-- string number once; `n` collects the numbers that have been used.
unfoldable pub version_names : List VersionKey → ℕ → ℕ → ℕ → List (List ℕ)
version_names [] versionbyte game n = []
version_names (k ∷ ks) versionbyte game n =
    let used =
      (k.versionbyte == versionbyte)
      && has_game k.game game
      && not (nonzero (bit_and n k.string_no)) in
    let rest = version_names ks versionbyte game (if used then bit_or n k.string_no else n) in
    if used then k.versionstring ∷ rest else rest

abbrev pub doom_name : List ℕ
doom_name = v4 b'D' b'O' b'O' b'M'

abbrev pub doom2_name : List ℕ
doom2_name = doom_name ++ v3 b' ' b']' b'['

abbrev pub heretic_name : List ℕ
heretic_name = v4 b'H' b'E' b'R' b'E' ++ v3 b'T' b'I' b'C'

abbrev pub hexen_name : List ℕ
hexen_name = b'H' ∷ v4 b'E' b'X' b'E' b'N'

abbrev pub strife_name : List ℕ
strife_name = v3 b'S' b'T' b'R' ++ v3 b'I' b'F' b'E'

abbrev name_if : Bool → List ℕ → List (List ℕ)
name_if true name = name ∷ []
name_if false name = []

unfoldable pub game_names : ℕ → List (List ℕ)
game_names game =
    name_if (has_game game (bit_or doom_old doom_new)) doom_name
    ++ name_if (has_game game doom2) doom2_name
    ++ name_if (has_game game heretic) heretic_name
    ++ name_if (has_game game (bit_or hexen_old hexen_new)) hexen_name
    ++ name_if (has_game game strife) strife_name

unfoldable pub getversion : ℕ → ℕ → List (List ℕ) × List (List ℕ)
unfolding game_names version_names
getversion versionbyte game = (game_names game, version_names version_key versionbyte game 0)

-- `strncmp(a, b, l) == 0` with l the greater of the two lengths, cut to 3.
unfoldable pub same_start : List ℕ → List ℕ → Bool
unfolding string_eq
same_start a b =
    let l = if ltb (length b) (length a) then length a else length b in
    let l' = if ltb 3 l then 3 else l in string_eq (take l' a) (take l' b)

-- The loop of `strtoversionbyte`.
unfoldable pub find_version : List VersionKey → List ℕ → ℕ → Option ℕ
unfolding same_start
find_version [] s game = none
find_version (k ∷ ks) s game =
    if same_start k.versionstring s && (if game == 0 then true else has_game k.game game)
    then some k.versionbyte
    else find_version ks s game

-- `strtol` is the C library's: its value, if it takes the whole string, is an argument.
unfoldable pub strtoversionbyte : (List ℕ → Option ℕ) → List ℕ → ℕ → Result ℕ
unfolding find_version
strtoversionbyte strtol s game = elim (find_version version_key s game) [
  | some b ↦ ok b
  | none ↦ elim (strtol s) [ some i ↦ ok (i % 256) | none ↦ err Error.einval ]
]
