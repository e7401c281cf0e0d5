-- ===== src/Dem/Analyze.antt =====
-- src/udem.c, `areDEMblocks`, `analyzeDEM`, `isDEMbin` and `isDEMtxt`: is a file a recording, binary
-- or as text? The file can be opened and is the list of its bytes. A loop that does not end within
-- its fuel is `none`.
pub mod Laws
pub mod Endless
pub mod Source
use lmpc.Base.{
  ℕ, zero, suc, ◌+◌, ◌*◌, ◌^◌, Bool, true, false, not, ◌||◌, List, [], ◌∷◌, Option, none, some,
  ◌==◌, ltb, if◌then◌else◌, drop, take, length,
}
use lmpc.Base.Int.{ℤ, pos, negsuc, ◌+ℤ◌, ltb_ℤ}
use lmpc.Base.Text.{codes}
use lmpc.Binblock.Number.{signed_long}

-- BBB_MAX and MAX_TRACK_SIZE
abbrev pub dem_max_message_size : ℕ
dem_max_message_size = 65536

abbrev pub max_track_size : ℕ
max_track_size = 10

-- `fread(buffer,1,4,file)` and the sum of the four bytes, whose shift by 24 fills the sign.
unfoldable pub blocksize_of : List ℕ → Option ℤ
blocksize_of (b0 ∷ b1 ∷ b2 ∷ b3 ∷ rest) =
    some (signed_long (b0 + b1 * 2 ^ 8 + b2 * 2 ^ 16 + b3 * 2 ^ 24))
blocksize_of (b0 ∷ b1 ∷ b2 ∷ []) = none
blocksize_of (b0 ∷ b1 ∷ []) = none
blocksize_of (b0 ∷ []) = none
blocksize_of [] = none

-- `fseek` to an offset: in front of the file it fails.
abbrev seek : ℤ → Option ℕ
seek (pos p) = some p
seek (negsuc n) = none

-- One round of the loop: the offset behind the block at `p`.
unfoldable pub next_block : List ℕ → ℕ → Option ℕ
unfolding blocksize_of
next_block bytes p = elim (blocksize_of (drop p bytes)) [
  | none ↦ none
  | some blocksize ↦
      if ltb_ℤ (pos dem_max_message_size) blocksize then none else seek (pos (p + 16) +ℤ blocksize)
]

-- `some none` is -1.
unfoldable pub blocks_loop : ℕ → List ℕ → ℕ → ℕ → ℕ → Option (Option ℕ)
blocks_loop zero bytes p tooffset tics = none
blocks_loop (suc fuel) bytes p tooffset tics = elim (ltb p tooffset) [
  | true ↦ elim (next_block bytes p) [
    | none ↦ some none
    | some q ↦ blocks_loop fuel bytes q tooffset (tics + 1)
  ]
  | false ↦ some (if p == tooffset then some tics else none)
]

unfoldable pub are_dem_blocks : ℕ → List ℕ → ℕ → ℕ → Option (Option ℕ)
are_dem_blocks fuel bytes fromoffset tooffset = blocks_loop fuel bytes fromoffset tooffset 0

-- The loop over `datastart`, with the rounds that are left: where the blocks start, and how many
-- there are.
unfoldable pub find_datastart : ℕ → ℕ → List ℕ → ℕ → Option (Option (ℕ × ℕ))
find_datastart zero fuel bytes datastart = some none
find_datastart (suc k) fuel bytes datastart =
    elim (are_dem_blocks fuel bytes datastart (length bytes)) [
      | none ↦ none
      | some none ↦ find_datastart k fuel bytes (datastart + 1)
      | some (some tics) ↦ some (some (datastart, tics))
    ]

unfoldable pub analyze_dem : ℕ → List ℕ → Option (Option (ℕ × ℕ))
analyze_dem fuel bytes = find_datastart max_track_size fuel bytes 0

abbrev tics_of : Option (Option (ℕ × ℕ)) → Option ℕ
tics_of none = none
tics_of (some none) = some 0
tics_of (some (some (datastart, tics))) = some tics

unfoldable pub is_dem_bin : ℕ → List ℕ → Option ℕ
is_dem_bin fuel bytes = tics_of (analyze_dem fuel bytes)

-- `strncmp(p,word,n)==0` for a word of n characters. Behind what was read the buffer is not set: no
-- character there counts as equal.
abbrev pub starts : List ℕ → List ℕ → Bool
starts [] cs = true
starts (w ∷ ws) [] = false
starts (w ∷ ws) (c ∷ cs) = if w == c then starts ws cs else false

abbrev pub is_blank : ℕ → Bool
is_blank c = c == 32 || (c == 9 || (c == 13 || (c == 10 || c == 12)))

-- The loop over `p`; the flag is the state 1, a comment.
unfoldable pub text_loop : Bool → List ℕ → Bool
text_loop comment [] = false
text_loop true (c ∷ cs) = text_loop (not (c == 10)) cs
text_loop false (c ∷ cs) =
    if starts (codes "track") (c ∷ cs)
    then true
    else if starts (codes "//") (c ∷ cs) || is_blank c
    then text_loop (starts (codes "//") (c ∷ cs)) cs
    else false

unfoldable pub is_dem_txt : List ℕ → Bool
is_dem_txt bytes =
    let buffer = take 1000 bytes in if ltb (length buffer) 20 then false else text_loop false buffer
