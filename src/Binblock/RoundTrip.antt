-- ===== src/Binblock/RoundTrip.antt =====
-- src/binblock.c: what the `put_` functions write, the `get_next_` functions read back.
use lmpc.Base.{ℕ, ◌+◌, ◌-◌, ◌*◌, ◌^◌, ◌<◌, ◌≤◌, ◌≡◌, ap, ◌∙◌, List, [], ◌∷◌, arith, length}
use lmpc.Base.Int.{ℤ, pos, negsuc, ◌+ℤ◌, ◌≤ℤ◌}
use lmpc.Binblock.{Block, ok, low_byte, shift_left, shift_right, signed_char, put_signed_char}
use lmpc.Binblock.Number.{
  signed_long, get_next_short, put_short, get_next_long, put_long, get_next_float, put_float,
  read_long_be, write_long_be,
}
use lmpc.Binblock.Bytes.{
  Holds, written, skip, get_next_unsigned_char-Holds, get_next_signed_char-Holds, put_bytes-written,
  RoundTrips, round_trip,
}

pub long_value :
    (a : ℤ)
    → negsuc (2 ^ 31 - 1) ≤ℤ a
    → a ≤ℤ pos (2 ^ 31 - 1)
    → pos (
          low_byte a
          + low_byte (shift_right a (2 ^ 8)) * 2 ^ 8
          + low_byte (shift_right a (2 ^ 16)) * 2 ^ 16)
        +ℤ shift_left (signed_char (low_byte (shift_right a (2 ^ 24)))) (2 ^ 24)
      ≡ a
unfolding low_byte shift_right shift_left signed_char ◌+ℤ◌
long_value (pos n) lo hi = ground arith
long_value (negsuc n) lo hi = ground arith

pub short_value :
    (a : ℤ)
    → negsuc (2 ^ 15 - 1) ≤ℤ a
    → a ≤ℤ pos (2 ^ 15 - 1)
    → pos (low_byte a) +ℤ shift_left (signed_char (low_byte (shift_right a 256))) 256 ≡ a
unfolding low_byte shift_right shift_left signed_char ◌+ℤ◌
short_value (pos n) lo hi = ground arith
short_value (negsuc n) lo hi = ground arith

low_byte-low_byte : (a : ℤ) → low_byte (pos (low_byte a)) ≡ low_byte a
unfolding low_byte
low_byte-low_byte (pos n) = omega arith
low_byte-low_byte (negsuc n) = omega arith

-- The bytes of a `short` and of a `long`, lowest first.
abbrev pub short_bytes : ℤ → List ℕ
short_bytes a = low_byte a ∷ low_byte (shift_right a 256) ∷ []

abbrev pub long_bytes : ℤ → List ℕ
long_bytes a =
    low_byte a
    ∷ low_byte (shift_right a (2 ^ 8))
    ∷ low_byte (shift_right a (2 ^ 16))
    ∷ low_byte (shift_right a (2 ^ 24))
    ∷ []

pub put_long-written :
    (a : ℤ) (m : Block)
    → m.p + 4 ≤ length m.buffer
    → put_long a m ≡ ok tt (written (long_bytes a) m)
unfolding put_long put_signed_char
put_long-written a m h = rw low_byte-low_byte (put_bytes-written (long_bytes a) m h)

pub put_short-written :
    (a : ℤ) (m : Block)
    → m.p + 2 ≤ length m.buffer
    → put_short a m ≡ ok tt (written (short_bytes a) m)
unfolding put_short put_signed_char
put_short-written a m h = rw low_byte-low_byte (put_bytes-written (short_bytes a) m h)

pub get_next_long-Holds :
    (b0 b1 b2 b3 : ℕ) (m : Block)
    → Holds m.buffer m.p (b0 ∷ b1 ∷ b2 ∷ b3 ∷ [])
    → get_next_long m
      ≡ ok (pos (b0 + b1 * 2 ^ 8 + b2 * 2 ^ 16) +ℤ shift_left (signed_char b3) (2 ^ 24)) (skip 4 m)
unfolding get_next_long
get_next_long-Holds b0 b1 b2 b3 m (h0, (h1, (h2, (h3, _)))) = rw (
  get_next_unsigned_char-Holds m h0,
  get_next_unsigned_char-Holds (skip 1 m) h1,
  get_next_unsigned_char-Holds (skip 2 m) h2,
  get_next_signed_char-Holds (skip 3 m) h3,
)

pub get_next_short-Holds :
    (b0 b1 : ℕ) (m : Block)
    → Holds m.buffer m.p (b0 ∷ b1 ∷ [])
    → get_next_short m ≡ ok (pos b0 +ℤ shift_left (signed_char b1) 256) (skip 2 m)
unfolding get_next_short
get_next_short-Holds b0 b1 m (h0, (h1, _)) =
    rw (get_next_unsigned_char-Holds m h0, get_next_signed_char-Holds (skip 1 m) h1)

-- `get_next_long` reads back what `put_long` wrote of every 32-bit signed value, with room for four
-- bytes: both move the cursor by four, and the other bytes of the block stay.
pub get_next_long-put_long :
    (a : ℤ) (m : Block)
    → negsuc (2 ^ 31 - 1) ≤ℤ a
    → a ≤ℤ pos (2 ^ 31 - 1)
    → m.p + 4 ≤ length m.buffer
    → RoundTrips (put_long a) get_next_long a 4 m
get_next_long-put_long a m lo hi room =
    round_trip (put_long a) get_next_long a (long_bytes a) m (put_long-written a m room) room
      λ m' h. get_next_long-Holds _ _ _ _ m' h ∙ ap (λ v. ok v (skip 4 m')) (long_value a lo hi)

-- `get_next_short` reads back what `put_short` wrote of every 16-bit signed value, with room for two
-- bytes: both move the cursor by two, and the other bytes of the block stay.
pub get_next_short-put_short :
    (a : ℤ) (m : Block)
    → negsuc (2 ^ 15 - 1) ≤ℤ a
    → a ≤ℤ pos (2 ^ 15 - 1)
    → m.p + 2 ≤ length m.buffer
    → RoundTrips (put_short a) get_next_short a 2 m
get_next_short-put_short a m lo hi room =
    round_trip (put_short a) get_next_short a (short_bytes a) m (put_short-written a m room) room
      λ m' h. get_next_short-Holds _ _ m' h ∙ ap (λ v. ok v (skip 2 m')) (short_value a lo hi)

pub float_value :
    (w : ℕ)
    → w < 2 ^ 32
    → low_byte (signed_long w)
        + low_byte (shift_right (signed_long w) (2 ^ 8)) * 2 ^ 8
        + low_byte (shift_right (signed_long w) (2 ^ 16)) * 2 ^ 16
        + low_byte (shift_right (signed_long w) (2 ^ 24)) * 2 ^ 24
      ≡ w
unfolding low_byte shift_right signed_long
float_value w h = ground arith

pub get_next_float-Holds :
    (b0 b1 b2 b3 : ℕ) (m : Block)
    → Holds m.buffer m.p (b0 ∷ b1 ∷ b2 ∷ b3 ∷ [])
    → get_next_float m ≡ ok (b0 + b1 * 2 ^ 8 + b2 * 2 ^ 16 + b3 * 2 ^ 24) (skip 4 m)
unfolding get_next_float
get_next_float-Holds b0 b1 b2 b3 m (h0, (h1, (h2, (h3, _)))) = rw (
  get_next_unsigned_char-Holds m h0,
  get_next_unsigned_char-Holds (skip 1 m) h1,
  get_next_unsigned_char-Holds (skip 2 m) h2,
  get_next_unsigned_char-Holds (skip 3 m) h3,
)

-- `get_next_float` reads back the bit pattern that `put_float` wrote of every float, NaNs and signed
-- zeros included, with room for four bytes; the other bytes of the block stay.
pub get_next_float-put_float :
    (w : ℕ) (m : Block)
    → w < 2 ^ 32
    → m.p + 4 ≤ length m.buffer
    → RoundTrips (put_float w) get_next_float w 4 m
unfolding put_float
get_next_float-put_float w m h room =
    round_trip (put_long (signed_long w)) get_next_float w (long_bytes (signed_long w)) m
      (put_long-written (signed_long w) m room) room
      λ m' hs. get_next_float-Holds _ _ _ _ m' hs ∙ ap (λ v. ok v (skip 4 m')) (float_value w h)

big_endian_value :
    (n : ℕ)
    → n < 2 ^ 32
    → low_byte (shift_right (pos n) (2 ^ 24)) * 2 ^ 24
        + low_byte (shift_right (pos n) (2 ^ 16)) * 2 ^ 16
        + low_byte (shift_right (pos n) (2 ^ 8)) * 2 ^ 8
        + low_byte (pos n)
      ≡ n
unfolding low_byte shift_right
big_endian_value n h = omega arith

read_long_be-Holds :
    (b3 b2 b1 b0 : ℕ) (m : Block)
    → Holds m.buffer m.p (b3 ∷ b2 ∷ b1 ∷ b0 ∷ [])
    → read_long_be m ≡ ok (pos (b3 * 2 ^ 24 + b2 * 2 ^ 16 + b1 * 2 ^ 8 + b0)) (skip 4 m)
unfolding read_long_be
read_long_be-Holds b3 b2 b1 b0 m (h0, (h1, (h2, (h3, _)))) = rw (
  get_next_unsigned_char-Holds m h0,
  get_next_unsigned_char-Holds (skip 1 m) h1,
  get_next_unsigned_char-Holds (skip 2 m) h2,
  get_next_unsigned_char-Holds (skip 3 m) h3,
)

-- `ReadLongBE`, its operands evaluated from the left, reads back what `WriteLongBE` wrote of every
-- value from 0 to 2 ^ 32 - 1, with room for four bytes; the other bytes of the block stay.
pub read_long_be-write_long_be :
    (n : ℕ) (m : Block)
    → n < 2 ^ 32
    → m.p + 4 ≤ length m.buffer
    → RoundTrips (write_long_be (pos n)) read_long_be (pos n) 4 m
unfolding write_long_be
read_long_be-write_long_be n m h room =
    let bs =
      low_byte (shift_right (pos n) (2 ^ 24))
      ∷ low_byte (shift_right (pos n) (2 ^ 16))
      ∷ low_byte (shift_right (pos n) (2 ^ 8))
      ∷ low_byte (pos n)
      ∷ [] in
    round_trip (write_long_be (pos n)) read_long_be (pos n) bs m (put_bytes-written bs m room) room
      λ m' hs.
        read_long_be-Holds _ _ _ _ m' hs ∙ ap (λ v. ok (pos v) (skip 4 m')) (big_endian_value n h)
