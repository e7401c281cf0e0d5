-- ===== src/Binblock/Number.antt =====
-- src/binblock.c: little and big endian integers, and floats as bit patterns.
use lmpc.Base.{ℕ, ◌+◌, ◌*◌, ◌^◌, ◌-◌, if◌then◌else◌, ltb}
use lmpc.Base.Int.{ℤ, pos, negsuc, ◌+ℤ◌}
use lmpc.Binblock.{
  Cmd, ◌>>=◌, ◌>>◌, pure, get_next_unsigned_char, get_next_signed_char, put_unsigned_char,
  put_signed_char, signed_char, low_byte, shift_left, shift_right,
}

-- The conversion of a 32-bit pattern to a signed integer.
unfoldable pub signed_long : ℕ → ℤ
signed_long w = if ltb w (2 ^ 31) then pos w else negsuc (2 ^ 32 - 1 - w)

-- The conversion to `short`.
unfoldable pub to_short : ℤ → ℤ
unfolding low_byte shift_right shift_left signed_char
to_short a = pos (low_byte a) +ℤ shift_left (signed_char (low_byte (shift_right a 256))) 256

unfoldable pub get_next_short : Cmd ℤ
get_next_short = do
  b0 ← get_next_unsigned_char
  b1 ← get_next_signed_char
  pure (pos b0 +ℤ shift_left b1 256)

unfoldable pub put_short : ℤ → Cmd (Unit {0})
put_short a = do
  put_unsigned_char (low_byte a)
  put_signed_char (pos (low_byte (shift_right a 256)))

unfoldable pub get_next_long : Cmd ℤ
get_next_long = do
  b0 ← get_next_unsigned_char
  b1 ← get_next_unsigned_char
  b2 ← get_next_unsigned_char
  b3 ← get_next_signed_char
  pure (pos (b0 + b1 * 2 ^ 8 + b2 * 2 ^ 16) +ℤ shift_left b3 (2 ^ 24))

unfoldable pub put_long : ℤ → Cmd (Unit {0})
put_long a = do
  put_unsigned_char (low_byte a)
  put_unsigned_char (low_byte (shift_right a (2 ^ 8)))
  put_unsigned_char (low_byte (shift_right a (2 ^ 16)))
  put_signed_char (pos (low_byte (shift_right a (2 ^ 24))))

-- A `float` is its bit pattern, so the union of the source is the identity.
unfoldable pub get_next_float : Cmd ℕ
get_next_float = do
  b0 ← get_next_unsigned_char
  b1 ← get_next_unsigned_char
  b2 ← get_next_unsigned_char
  b3 ← get_next_unsigned_char
  pure (b0 + b1 * 2 ^ 8 + b2 * 2 ^ 16 + b3 * 2 ^ 24)

unfoldable pub put_float : ℕ → Cmd (Unit {0})
put_float a = put_long (signed_long a)

-- The four calls of `ReadByte` in one expression, evaluated left to right.
unfoldable pub read_long_be : Cmd ℤ
read_long_be = do
  b3 ← get_next_unsigned_char
  b2 ← get_next_unsigned_char
  b1 ← get_next_unsigned_char
  b0 ← get_next_unsigned_char
  pure (pos (b3 * 2 ^ 24 + b2 * 2 ^ 16 + b1 * 2 ^ 8 + b0))

unfoldable pub write_long_be : ℤ → Cmd (Unit {0})
write_long_be a = do
  put_unsigned_char (low_byte (shift_right a (2 ^ 24)))
  put_unsigned_char (low_byte (shift_right a (2 ^ 16)))
  put_unsigned_char (low_byte (shift_right a (2 ^ 8)))
  put_unsigned_char (low_byte a)
