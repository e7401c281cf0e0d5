-- ===== src/Lmp/Determine/Sets.antt =====
-- src/ulmp.c: the sets of games that the size of a file allows.
use lmpc.Base.{
  ℕ, ◌<◌, ◌≡◌, ◌∙◌, Bool, true, false, ◌||◌, ◌⊎◌, inl, inr, List, ◌==◌, arith, bit_and, bit_or,
  if◌then◌else◌, some, none,
}
use lmpc.Base.Result.{ok}
use lmpc.Lmp.Game.{fits}
use lmpc.Lmp.Header.{layout}
use lmpc.Lmp.Determine.{size_game, guess}

-- The sets that a determination can end with.
abbrev pub is_result : ℕ → Bool
is_result g =
    (g == 1) || (g == 2) || (g == 4) || (g == 6) || (g == 8) || (g == 16) || (g == 32) || (g == 64)

abbrev pub subset : ℕ → ℕ → Bool
subset g h = bit_and g h == g

abbrev pub sized : Bool → Bool → Bool → Bool → Bool → Bool → ℕ
sized a b c d e f =
    bit_or
      (bit_or
        (bit_or (bit_or (bit_or (if a then 1 else 0) (if b then 6 else 0)) (if c then 8 else 0))
          (if d then 16 else 0))
        (if e then 32 else 0))
      (if f then 64 else 0)

pub sized-lt : (a b c d e f : Bool) → sized a b c d e f < 128
sized-lt a b c d e f = ground arith

-- The four games of the old headers.
abbrev pub is_old : ℕ → Bool
is_old r = (r == 1) || (r == 8) || (r == 16) || (r == 32)

pub guess-subset :
    (game year : ℕ) (buffer : List ℕ) (r : ℕ)
    → guess game year buffer ≡ ok r
    → (is_old r ≡ true) × (subset r game ≡ true)
unfolding guess
guess-subset game year buffer r h = ground arith

-- Which of the six size tests a game stands on.
abbrev fitting : ℕ → Bool → Bool → Bool → Bool → Bool → Bool → Bool
fitting r a b c d e f =
    if r == 1
    then a
    else if r == 8
    then c
    else if r == 16
    then d
    else if r == 32
    then e
    else if r == 64
    then f
    else b

-- One game of the eight that is a subset of the games of a size has passed its size test: at each
-- of the eight, and then at any.
SubsetFits : ℕ → Type 0
SubsetFits r =
    (a b c d e f : Bool) → subset r (sized a b c d e f) ≡ true → fitting r a b c d e f ≡ true

SubsetFits-1 : SubsetFits 1
unfolding SubsetFits
SubsetFits-1 a b c d e f h = ground arith

SubsetFits-2 : SubsetFits 2
unfolding SubsetFits
SubsetFits-2 a b c d e f h = ground arith

SubsetFits-4 : SubsetFits 4
unfolding SubsetFits
SubsetFits-4 a b c d e f h = ground arith

SubsetFits-6 : SubsetFits 6
unfolding SubsetFits
SubsetFits-6 a b c d e f h = ground arith

SubsetFits-8 : SubsetFits 8
unfolding SubsetFits
SubsetFits-8 a b c d e f h = ground arith

SubsetFits-16 : SubsetFits 16
unfolding SubsetFits
SubsetFits-16 a b c d e f h = ground arith

SubsetFits-32 : SubsetFits 32
unfolding SubsetFits
SubsetFits-32 a b c d e f h = ground arith

SubsetFits-64 : SubsetFits 64
unfolding SubsetFits
SubsetFits-64 a b c d e f h = ground arith

-- The eight sets by their numbers.
IsOne : ℕ → Type 0
IsOne r =
    (r ≡ 1) ⊎ ((r ≡ 2) ⊎ ((r ≡ 4) ⊎ ((r ≡ 6) ⊎ ((r ≡ 8) ⊎ ((r ≡ 16) ⊎ ((r ≡ 32) ⊎ (r ≡ 64)))))))

is_result→IsOne : (r : ℕ) → is_result r ≡ true → IsOne r
unfolding IsOne
is_result→IsOne r h = grind arith

subset_fits : (r : ℕ) → is_result r ≡ true → SubsetFits r
subset_fits r h =
    unfold IsOne in
    elim (is_result→IsOne r h) [
      | inl e ↦ rw e SubsetFits-1
      | inr (inl e) ↦ rw e SubsetFits-2
      | inr (inr (inl e)) ↦ rw e SubsetFits-4
      | inr (inr (inr (inl e))) ↦ rw e SubsetFits-6
      | inr (inr (inr (inr (inl e)))) ↦ rw e SubsetFits-8
      | inr (inr (inr (inr (inr (inl e))))) ↦ rw e SubsetFits-16
      | inr (inr (inr (inr (inr (inr (inl e)))))) ↦ rw e SubsetFits-32
      | inr (inr (inr (inr (inr (inr (inr e)))))) ↦ rw e SubsetFits-64
    ]

-- The size test of the game that a file is taken for: its header and tics fill the file but for the
-- closing byte.
unfoldable pub fits_game : ℕ → ℕ → Bool
unfolding layout
fits_game filesize game = elim (layout game) [
  | none ↦ false
  | some (headersize, ticsize, maxplayer) ↦ fits filesize headersize ticsize
]

fits_game-fitting :
    (r filesize : ℕ)
    → is_result r ≡ true
    → fits_game filesize r
      ≡ fitting r
          (fits filesize 7 4)
          (fits filesize 13 4)
          (fits filesize 7 6)
          (fits filesize 11 6)
          (fits filesize 19 6)
          (fits filesize 16 6)
fits_game-fitting r filesize h =
    unfold IsOne fits_game in
    elim (is_result→IsOne r h) [
      | inl e ↦ rw e
      | inr (inl e) ↦ rw e
      | inr (inr (inl e)) ↦ rw e
      | inr (inr (inr (inl e))) ↦ rw e
      | inr (inr (inr (inr (inl e)))) ↦ rw e
      | inr (inr (inr (inr (inr (inl e))))) ↦ rw e
      | inr (inr (inr (inr (inr (inr (inl e)))))) ↦ rw e
      | inr (inr (inr (inr (inr (inr (inr e)))))) ↦ rw e
    ]

pub fits_of_subset :
    (r filesize : ℕ)
    → is_result r ≡ true
    → subset r (size_game filesize) ≡ true
    → fits_game filesize r ≡ true
unfolding size_game SubsetFits
fits_of_subset r filesize k h = fits_game-fitting r filesize k ∙ subset_fits r k _ _ _ _ _ _ h
