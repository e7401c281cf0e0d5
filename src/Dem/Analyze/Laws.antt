-- ===== src/Dem/Analyze/Laws.antt =====
-- src/udem.c: a file of a track and blocks is recognised, and its blocks are counted.
use lmpc.Base.{
  drop-drop, ℕ, zero, suc, ◌+◌, ◌*◌, ◌^◌, ◌%◌, ◌/◌, ◌<◌, ◌≤◌, ◌≡◌, ap, ◌∙◌, List, [], ◌∷◌, ◌++◌,
  some, arith, drop, length, All, length-append, drop-append, lt→ltb,
}
use lmpc.Base.Int.{pos, ◌+ℤ◌}
use lmpc.Binblock.Number.{signed_long}
use lmpc.Dem.Analyze.{blocksize_of, next_block, blocks_loop, are_dem_blocks}

-- A block of a recording: three view angles of twelve bytes, and messages.
pub record Raw : Type 0 where
  pub angles : List ℕ
  pub messages : List ℕ

pub record IsRaw (r : Raw) : Type 0 where
  pub twelve : length r.angles ≡ 12
  pub fits : length r.messages ≤ 65536

-- The length of the messages stands in front, in four bytes, lowest first.
abbrev pub size_bytes : ℕ → List ℕ
size_bytes n = (n % 256) ∷ (n / 256 % 256) ∷ (n / 2 ^ 16 % 256) ∷ (n / 2 ^ 24) ∷ []

abbrev pub raw_bytes : Raw → List ℕ
raw_bytes r = size_bytes (length r.messages) ++ (r.angles ++ r.messages)

abbrev pub file_bytes : List Raw → List ℕ
file_bytes [] = []
file_bytes (r ∷ rs) = raw_bytes r ++ file_bytes rs

size_value :
    (n : ℕ)
    → n ≤ 65536
    → signed_long
        (n % 256 + n / 256 % 256 * 256 + n / 65536 % 256 * 65536 + n / 16777216 * 16777216)
      ≡ pos n
unfolding signed_long
size_value n h = ground arith

next_block-raw :
    (r : Raw) (rest bytes : List ℕ) (p : ℕ)
    → IsRaw r
    → drop p bytes ≡ raw_bytes r ++ rest
    → next_block bytes p ≡ some (p + length (raw_bytes r))
unfolding next_block blocksize_of ◌+ℤ◌
next_block-raw r rest bytes p h e =
    rw (e, next_block)
      (rw (size_value (length r.messages) h.fits)
        (ground (arith, length-append r.angles r.messages, h.twelve, h.fits)))

drop-raw :
    (r : Raw) (rest bytes : List ℕ) (p : ℕ)
    → drop p bytes ≡ raw_bytes r ++ rest
    → drop (p + length (raw_bytes r)) bytes ≡ rest
drop-raw r rest bytes p e =
    drop-drop p (length (raw_bytes r)) bytes
    ∙ ap (drop (length (raw_bytes r))) e
    ∙ drop-append (raw_bytes r) rest

blocks_loop-file :
    (rs : List Raw) (fuel : ℕ) (bytes : List ℕ) (p tooffset tics : ℕ)
    → All IsRaw rs
    → length rs < fuel
    → drop p bytes ≡ file_bytes rs
    → tooffset ≡ p + length (file_bytes rs)
    → blocks_loop fuel bytes p tooffset tics ≡ some (some (tics + length rs))
unfolding blocks_loop
blocks_loop-file rs zero bytes p t tics h few e end = elim few [ ]
blocks_loop-file [] (suc fuel) bytes p t tics h few e end = ground arith
blocks_loop-file (r ∷ rs) (suc fuel) bytes p t tics (h, hs) few e end =
    let split = length-append (raw_bytes r) (file_bytes rs) in
    rw (lt→ltb p t (omega arith), blocks_loop)
      (rw (next_block-raw r (file_bytes rs) bytes p h e) (
        blocks_loop-file rs fuel bytes (p + length (raw_bytes r)) t (tics + 1) hs (omega arith)
          (drop-raw r (file_bytes rs) bytes p e) (omega arith)
        ∙ ap (λ n. some (some n)) (omega arith)))

-- With fuel above the number of blocks, `areDEMblocks` accepts a file from behind its track to its
-- end and counts its blocks, where each block is its length in four bytes, twelve bytes of angles
-- and at most 65536 bytes of messages.
pub are_dem_blocks-file :
    (fuel : ℕ) (track : List ℕ) (rs : List Raw)
    → All IsRaw rs
    → length rs < fuel
    → are_dem_blocks fuel (track ++ file_bytes rs) (length track) (length (track ++ file_bytes rs))
      ≡ some (some (length rs))
unfolding are_dem_blocks
are_dem_blocks-file fuel track rs h few =
    blocks_loop-file rs fuel (track ++ file_bytes rs) (length track) _ 0 h few
      (drop-append track (file_bytes rs)) (length-append track (file_bytes rs))
    ∙ ap (λ n. some (some n)) (omega arith)
