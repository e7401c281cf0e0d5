-- ===== src/Dmo/Header/Laws.antt =====
-- src/udmo.c: what the header of a file gives that has been recognised.
use mathlib.Core.Path.{subst}
use lmpc.Base.Result.{Error}
use lmpc.Base.{
  leb, if◌then◌else◌, ap, ℕ, zero, suc, ◌+◌, ◌*◌, ◌^◌, ◌<◌, ◌≤◌, ◌≡◌, ◌≢◌, some, All, refl, sym,
  ◌∙◌, inl, inr, false, ◌==◌, List, [], ◌∷◌, ltb, length, take, drop, get_or, arith, length-take,
}
use lmpc.Dmo.{
  duke_old, duke_new, redneck, duke_14plus, header_duke_old, header_duke_14plus,
  header_redneck_base, short_at, long_at,
}
use lmpc.Dmo.Tail.{is_dmo}
use lmpc.Dmo.Tail.Laws.{IsByte}
use lmpc.Dmo.Header.{
  Dmo, Reader, done, exits, divides_by_zero, overflows, read_to, count, dmo_readheader, header_room,
  game_header, empty, redneck_players, redneck_fields, plus_players, plus_fields, more_plus_fields,
  aim_modes,
}
use lmpc.Dmo.Header.Recognised.{
  Checked, plus-Checked, redneck-Checked, is_dmo-later, Checked-inside,
}

-- A first header of the oldest game that names no player ends the program by a division by zero,
-- though `isDMO` takes such a file.
pub dmo_readheader-no_player :
    (b0 b1 b2 b3 b4 b5 b6 : ℕ) (rest : List ℕ)
    → dmo_readheader duke_old (b0 ∷ b1 ∷ b2 ∷ b3 ∷ b4 ∷ b5 ∷ b6 ∷ 0 ∷ 0 ∷ rest) ≡ divides_by_zero
unfolding dmo_readheader read_to count
dmo_readheader-no_player b0 b1 b2 b3 b4 b5 b6 rest = ground arith

get_or-take : (n i : ℕ) (xs : List ℕ) → i < n → get_or (take n xs) i 0 ≡ get_or xs i 0
get_or-take zero i xs h = elim h [ ]
get_or-take (suc n) i [] h = refl
get_or-take (suc n) zero (x ∷ xs) h = refl
get_or-take (suc n) (suc i) (x ∷ xs) h = get_or-take n i xs (omega arith)

-- A header of which the file and the buffer have enough is read.
read_to-enough :
    (size : ℕ) (f : List ℕ) (d : Dmo) (rest : Dmo → Reader)
    → size ≤ length f
    → size ≤ header_room
    → read_to size f d rest ≡ rest (record d { header = take size f; headersize = size })
unfolding read_to
read_to-enough size f d rest enough fits =
    let room : ltb header_room (length (take size f)) ≡ false =
      ground (arith, length-take size f) in
    let all_read : ltb (length f) size ≡ false = ground arith in rw (room, all_read)

short_at-take : (n i : ℕ) (f : List ℕ) → i + 1 < n → short_at (take n f) i ≡ short_at f i
short_at-take n i f h = omega (arith, get_or-take n i f (omega arith), get_or-take n (i + 1) f h)

long_at-take : (n : ℕ) (f : List ℕ) → 3 < n → long_at (take n f) 0 ≡ long_at f 0
long_at-take n f h = omega (
  arith,
  get_or-take n 0 f (omega arith),
  get_or-take n 1 f (omega arith),
  get_or-take n 2 f (omega arith),
  get_or-take n 3 f h,
)

-- The header with the game, one to sixteen players, and the tics shared out among them.
abbrev pub Counts : ℕ → ℕ → Reader → Type 0
Counts game total (done d) =
    (d.game ≡ game)
    × (0 < d.playernum)
    × (d.playernum ≤ 16)
    × (d.incomplete < d.playernum)
    × (d.tics * d.playernum + d.incomplete ≡ total)
Counts game total (exits e) = ⊥
Counts game total divides_by_zero = ⊥
Counts game total overflows = ⊥

count-Counts :
    (f : List ℕ) (d : Dmo) (game total : ℕ)
    → d.game ≡ game
    → 0 < d.playernum
    → d.playernum ≤ 16
    → d.tics ≡ total
    → Counts game total (count f d)
unfolding count
count-Counts f d game total same some_players few all =
    let one : (d.playernum == 0) ≡ false = ground arith in
    rw one (same, some_players, few, grind arith, grind arith)

redneck_players-Counts :
    (f : List ℕ) (d : Dmo) (total : ℕ)
    → d.game ≡ redneck
    → 0 < d.playernum
    → d.playernum ≤ 8
    → d.tics ≡ total
    → header_redneck_base + d.playernum ≤ length f
    → Counts redneck total (redneck_players f d)
redneck_players-Counts f d total same some_players few all long =
    let rest : Dmo → Reader = λ d1. count f (record d1 { name = drop 0x1E d1.header }) in
    subst (Counts redneck total)
      (sym (read_to-enough (header_redneck_base + d.playernum) f d rest long (omega arith)))
      (count-Counts f _ redneck total same some_players (omega arith) all)

plus_players-Counts :
    (f : List ℕ) (d : Dmo) (total : ℕ)
    → d.game ≡ duke_14plus
    → d.max_players ≡ 16
    → 0 < d.playernum
    → d.playernum ≤ 16
    → d.tics ≡ total
    → header_duke_14plus + d.playernum ≤ length f
    → Counts duke_14plus total (plus_players f d)
plus_players-Counts f d total same most some_players few all long =
    let rest : Dmo → Reader = λ d1. count f (aim_modes d1) in
    let fits : ltb d.max_players d.playernum ≡ false = ground arith in
    rw fits (
      subst (Counts duke_14plus total)
        (sym (
          read_to-enough (header_duke_14plus + d.playernum) f (more_plus_fields d) rest long
            (omega arith)))
        (count-Counts f _ duke_14plus total same some_players few all))

-- The first nine bytes.
abbrev first_nine : List ℕ → Dmo
first_nine f = record empty {
  header = take header_duke_old f;
  headersize = header_duke_old;
  tics = long_at (take header_duke_old f) 0;
}

nine_bytes :
    (game : ℕ) (f : List ℕ)
    → header_duke_old ≤ length f
    → dmo_readheader game f ≡ game_header game f (first_nine f)
unfolding dmo_readheader
nine_bytes game f h =
    read_to-enough header_duke_old f empty
      (λ d. game_header game f (record d { tics = long_at d.header 0 })) h (omega arith)

redneck-Counts :
    (f : List ℕ)
    → All IsByte f
    → length f < 2 ^ 48
    → header_duke_old ≤ length f
    → Checked f header_redneck_base
    → short_at f 0x0A ≤ 8
    → Counts redneck (long_at f 0) (dmo_readheader redneck f)
redneck-Counts f bytes small nine checked few =
    let (long, some_players, most, tail) = checked in
    let d = record (first_nine f) {
      header = take header_redneck_base f;
      headersize = header_redneck_base;
    } in
    let players = short_at-take header_redneck_base 0x0A f (omega arith) in
    let inside = Checked-inside f header_redneck_base bytes small checked in
    subst (Counts redneck (long_at f 0))
      (sym (
        nine_bytes redneck f nine
        ∙ read_to-enough header_redneck_base f (first_nine f)
            (λ d1. redneck_players f (redneck_fields d1)) long (omega arith)))
      (redneck_players-Counts f (redneck_fields d) (long_at f 0) refl (omega (arith, players))
        (omega (arith, players)) (long_at-take header_duke_old f (omega arith))
        (omega (arith, players, inside)))

leb-false : (a b : ℕ) → b < a → leb a b ≡ false
leb-false a b h = ground arith

plus-Counts :
    (f : List ℕ)
    → All IsByte f
    → length f < 2 ^ 48
    → header_duke_old ≤ length f
    → Checked f header_duke_14plus
    → Counts duke_14plus (long_at f 0) (dmo_readheader duke_14plus f)
plus-Counts f bytes small nine checked =
    let (long, some_players, most, tail) = checked in
    let d = record (first_nine f) {
      header = take header_duke_14plus f;
      headersize = header_duke_14plus;
    } in
    let players = short_at-take header_duke_14plus 0x0A f (omega arith) in
    let inside = Checked-inside f header_duke_14plus bytes small checked in
    let more_left : leb (length f) header_duke_old ≡ false =
      leb-false (length f) header_duke_old (omega arith) in
    subst (Counts duke_14plus (long_at f 0))
      (sym (
        nine_bytes duke_14plus f nine
        ∙ ap
            (λ b.
              if b
              then exits Error.errno
              else read_to header_duke_14plus f (first_nine f)
                  (λ d1. plus_players f (plus_fields d1)))
            more_left
        ∙ read_to-enough header_duke_14plus f (first_nine f) (λ d1. plus_players f (plus_fields d1))
            long (omega arith)))
      (plus_players-Counts f (plus_fields d) (long_at f 0) refl refl (omega (arith, players))
        (omega (arith, players)) (long_at-take header_duke_old f (omega arith))
        (omega (arith, players, inside)))

-- The header of a file of less than 2 ^ 48 bytes that has been recognised as one of the two newer
-- games is read, with no division by zero and no access outside: it has one player to sixteen, and
-- the tics of the file are shared out among them, with fewer left over than there are players.
pub dmo_readheader-is_dmo :
    (f : List ℕ) (game : ℕ)
    → All IsByte f
    → length f < 2 ^ 48
    → is_dmo f ≡ some game
    → game ≢ 0
    → game ≢ duke_old
    → game ≢ duke_new
    → Counts game (long_at f 0) (dmo_readheader game f)
dmo_readheader-is_dmo f game bytes small h zero_not old_not new_not =
    let (nine, later) = is_dmo-later f game h zero_not old_not new_not in
    elim (plus-Checked f game later) [
      | inl (e, checked) ↦
          subst (λ g. Counts g (long_at f 0) (dmo_readheader g f)) (sym e)
            (plus-Counts f bytes small nine checked)
      | inr last ↦
          let (e, checked, few) = redneck-Checked f game last zero_not in
          subst (λ g. Counts g (long_at f 0) (dmo_readheader g f)) (sym e)
            (redneck-Counts f bytes small nine checked few)
    ]
