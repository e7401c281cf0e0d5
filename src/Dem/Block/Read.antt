-- ===== src/Dem/Block/Read.antt =====
-- src/udem.c, `DEM_block_read_bin`: the block that is read, and where the buffer is too small.
use lmpc.Base.{
  drop-drop, ℕ, ◌+◌, ◌*◌, ◌/◌, ◌%◌, ◌^◌, ◌<◌, ◌≤◌, ◌≡◌, ◌∙◌, refl, ap, sym, List, [], ◌∷◌, ◌++◌,
  arith, drop, length, ltb, lt→ltb, set, length-append, drop-append, take-append, false,
}
use mathlib.Core.List.{append_assoc}
use mathlib.Core.Path.{subst}
use lmpc.Base.Int.{pos, ◌+ℤ◌}
use lmpc.Binblock.{Block, and_then, pure, ◌>>◌, ok, fault, shift_left, signed_char}
use lmpc.Binblock.Bytes.{splice, Holds, splice-Holds, length-splice, skip}
use lmpc.Binblock.Number.{get_next_long}
use lmpc.Binblock.RoundTrip.{get_next_long-Holds}
use lmpc.Dem.Analyze.Laws.{Raw, IsRaw, raw_bytes, size_bytes}
use lmpc.Dem.Block.{place, read_into, dem_block_read_bin}

not_ltb : (a b : ℕ) → b ≤ a → ltb a b ≡ false
not_ltb a b h = ground arith

-- Bytes that the file has and the buffer has room for are read in full; without room they run over.
read_into-fits :
    (at' n : ℕ) (bs rest file : List ℕ) (m : Block)
    → n ≡ length bs
    → file ≡ bs ++ rest
    → at' + n ≤ length m.buffer
    → read_into at' n file m ≡ ok tt (record m { buffer = splice m.buffer at' bs })
unfolding read_into
read_into-fits at' n bs rest file m e f h =
    rw (e, f, take-append bs rest, read_into)
      (rw
        (
          not_ltb (length m.buffer) (at' + length bs) (omega arith),
          not_ltb (length bs) (length bs) (omega arith),
        )
        refl)

read_into-overflows :
    (at' n : ℕ) (bs rest file : List ℕ) (m : Block)
    → n ≡ length bs
    → file ≡ bs ++ rest
    → length m.buffer < at' + n
    → read_into at' n file m ≡ fault
unfolding read_into
read_into-overflows at' n bs rest file m e f h =
    rw (e, f, take-append bs rest, read_into)
      (rw (lt→ltb (length m.buffer) (at' + length bs) (omega arith)) refl)

splice-append :
    (xs ys buf : List ℕ) (i : ℕ)
    → splice buf i (xs ++ ys) ≡ splice (splice buf i xs) (i + length xs) ys
splice-append [] ys buf i = ap (λ k. splice buf k ys) (omega arith)
splice-append (x ∷ xs) ys buf i =
    splice-append xs ys (set buf i x) (i + 1)
    ∙ ap (λ k. splice (splice (set buf i x) (i + 1) xs) k ys) (omega arith)

-- The first sixteen bytes.
abbrev head_of : Raw → List ℕ
head_of r = size_bytes (length r.messages) ++ r.angles

size_value :
    (n : ℕ)
    → n ≤ 65536
    → pos (n % 256 + n / 256 % 256 * 2 ^ 8 + n / 2 ^ 16 % 256 * 2 ^ 16)
        +ℤ shift_left (signed_char (n / 2 ^ 24)) (2 ^ 24)
      ≡ pos n
unfolding shift_left signed_char ◌+ℤ◌
size_value n h = ground arith

four :
    (buf : List ℕ) (i a b c d : ℕ) (bs : List ℕ)
    → Holds buf i (a ∷ b ∷ c ∷ d ∷ bs)
    → Holds buf i (a ∷ b ∷ c ∷ d ∷ [])
four buf i a b c d bs (h0, (h1, (h2, (h3, _)))) = (h0, (h1, (h2, (h3, tt))))

-- The head of a block, and the length that is read from it.
module _ (r : Raw) (h : IsRaw r) (file rest : List ℕ) (offset : ℕ) (m : Block)
    (here : drop offset file ≡ raw_bytes r ++ rest) (room : 16 ≤ length m.buffer) where
  split_head : drop offset file ≡ head_of r ++ (r.messages ++ rest)
  split_head =
      here ∙ ap (λ l. size_bytes (length r.messages) ++ l) (append_assoc r.angles r.messages rest)

  sixteen : 16 ≡ length (head_of r)
  sixteen = omega (arith, h.twelve)

  behind_head : drop (offset + 16) file ≡ r.messages ++ rest
  behind_head =
      drop-drop offset 16 file
      ∙ ap (λ l. drop 16 l) split_head
      ∙ ap (λ n. drop n (head_of r ++ (r.messages ++ rest))) sixteen
      ∙ drop-append (head_of r) (r.messages ++ rest)

  abbrev after_head : Block
  after_head = record m {
    size = 16;
    p = 0;
    end = 16;
    base = offset;
    buffer = splice m.buffer 0 (head_of r);
  }

  head_read :
      read_into 0 16 (drop offset file) (record m { base = offset })
      ≡ ok tt (record m { base = offset; buffer = splice m.buffer 0 (head_of r) })
  head_read =
      read_into-fits 0 16 (head_of r) (r.messages ++ rest) (drop offset file)
        (record m { base = offset }) (omega (arith, h.twelve)) split_head room

  size_read : get_next_long after_head ≡ ok (pos (length r.messages)) (skip 4 after_head)
  size_read =
      get_next_long-Holds _ _ _ _ after_head (
        four (splice m.buffer 0 (head_of r)) 0 _ _ _ _ r.angles
          (splice-Holds (head_of r) m.buffer 0 (omega (arith, h.twelve))))
      ∙ ap (λ v. ok v (skip 4 after_head)) (size_value (length r.messages) h.fits)

  -- With the length known, the block is what the second read makes of it.
  abbrev head_left : Block
  head_left = skip 4 after_head

  block_read :
      dem_block_read_bin file offset m
      ≡ and_then (read_into 16 (length r.messages) (drop (offset + 16) file) head_left) (λ done.
        place (length r.messages + 16) (length r.messages + 16)
        >> pure (offset + 16 + length r.messages))
  unfolding dem_block_read_bin
  block_read =
      rw (head_read, dem_block_read_bin)
        (rw size_read
          (rw (not_ltb (65536 + 0) (length r.messages + 0) (omega (arith, h.fits))) refl))

  abbrev filled : Block
  filled = record m {
    size = length r.messages + 16;
    p = 0;
    end = length r.messages + 16;
    base = offset;
    buffer = splice (splice m.buffer 0 (head_of r)) 16 r.messages;
  }

  filled_buffer : filled.buffer ≡ splice m.buffer 0 (raw_bytes r)
  filled_buffer =
      ap (λ n. splice (splice m.buffer 0 (head_of r)) n r.messages) (sixteen ∙ omega arith)
      ∙ sym (splice-append (head_of r) r.messages m.buffer 0)

  -- A block whose sixteen bytes of head and whose messages, 65536 bytes at most, stand in the file,
  -- but do not fit the buffer together, is written past its end.
  pub dem_block_read_bin-overflows :
      length m.buffer < length r.messages + 16 → dem_block_read_bin file offset m ≡ fault
  dem_block_read_bin-overflows big = rw block_read (
      rw
        (read_into-overflows 16 (length r.messages) r.messages rest (drop (offset + 16) file)
          head_left refl behind_head (omega (arith, length-splice (head_of r) m.buffer 0)))
        refl)

  -- A block whose messages are 65536 bytes at most, and which fits the buffer, is read in full: the
  -- buffer holds its bytes from the start on, the cursor stands there, the end and the size are behind
  -- the block, the base is its offset, and the file is left behind it.
  pub dem_block_read_bin-raw :
      length r.messages + 16 ≤ length m.buffer
      → (m' : Block) × (dem_block_read_bin file offset m ≡ ok (offset + length (raw_bytes r)) m')
        × Holds m'.buffer 0 (raw_bytes r)
        × (m'.p ≡ 0)
        × (m'.end ≡ length (raw_bytes r))
        × (m'.size ≡ length (raw_bytes r))
        × (m'.base ≡ offset)
  dem_block_read_bin-raw fits =
      let joined = length-append r.angles r.messages in
      (
        filled,
        rw block_read (
            rw
              (read_into-fits 16 (length r.messages) r.messages rest (drop (offset + 16) file)
                head_left refl behind_head (omega (arith, length-splice (head_of r) m.buffer 0)))
              (ap (λ n. ok n filled) (omega (arith, h.twelve)))),
        subst (λ b. Holds b 0 (raw_bytes r)) (sym filled_buffer)
            (splice-Holds (raw_bytes r) m.buffer 0 (omega (arith, h.twelve))),
        refl,
        omega (arith, h.twelve),
        omega (arith, h.twelve),
        refl,
      )
