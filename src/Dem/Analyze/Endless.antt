-- ===== src/Dem/Analyze/Endless.antt =====
-- src/udem.c: the loop of `areDEMblocks` does not end at a block that gives its length as -16.
use lmpc.Base.{ℕ, zero, suc, ◌+◌, ◌<◌, ◌≡◌, refl, List, ◌∷◌, none, some, arith, drop, lt→ltb}
use lmpc.Base.Int.{◌+ℤ◌}
use lmpc.Binblock.Number.{signed_long}
use lmpc.Dem.Analyze.{blocksize_of, next_block, blocks_loop}

next_block-itself :
    (bytes rest : List ℕ) (p : ℕ)
    → drop p bytes ≡ 0xF0 ∷ 0xFF ∷ 0xFF ∷ 0xFF ∷ rest
    → next_block bytes p ≡ some p
unfolding next_block blocksize_of signed_long ◌+ℤ◌
next_block-itself bytes rest p e = rw (e, next_block) (ground arith)

-- Where the four bytes at an offset in front of the end give the length -16, the loop from there
-- uses up every fuel, whatever has been counted: it comes back to this offset for ever.
pub blocks_loop-Endless :
    (fuel : ℕ) (bytes rest : List ℕ) (p tooffset tics : ℕ)
    → drop p bytes ≡ 0xF0 ∷ 0xFF ∷ 0xFF ∷ 0xFF ∷ rest
    → p < tooffset
    → blocks_loop fuel bytes p tooffset tics ≡ none
unfolding blocks_loop
blocks_loop-Endless zero bytes rest p t tics e h = refl
blocks_loop-Endless (suc fuel) bytes rest p t tics e h =
    rw (lt→ltb p t h, blocks_loop)
      (rw (next_block-itself bytes rest p e)
        (blocks_loop-Endless fuel bytes rest p t (tics + 1) e h))
