-- ===== src/Binblock/Float.antt =====
-- src/binblock.c: floats in a block, as bytes and shorts. The arithmetic of `double` is a parameter:
-- the conversions of integers to it and back, of a `float`, which is its bit pattern, to it and
-- back, and the operations. A literal is the fraction that it stands for.
use lmpc.Base.{ℕ, zero, suc, Bool, List, [], ◌∷◌}
use lmpc.Base.Int.{ℤ, pos}
use lmpc.Binblock.{
  Cmd, ◌>>=◌, ◌>>◌, pure, get_next_unsigned_char, get_next_signed_char, put_unsigned_char,
  put_signed_char, low_byte,
}
use lmpc.Binblock.Number.{get_next_short, put_short}

pub record Floats (D : Type 0) : Type 0 where
  pub from_int : ℤ → D
  -- Towards zero, as a conversion to an integer type.
  pub to_int : D → ℤ
  pub widen : ℕ → D
  pub narrow : D → ℕ
  pub lit : ℤ → ℕ → D
  pub add : D → D → D
  pub mul : D → D → D
  pub div : D → D → D
  pub less : D → D → Bool

-- `ReadByte`, whose value is never negative, and `ReadChar`.
abbrev pub read_byte : Cmd ℕ
read_byte = get_next_unsigned_char

abbrev pub read_char : Cmd ℤ
read_char = get_next_signed_char

-- `WriteByte` of a `long`; `WriteChar`.
abbrev pub write_byte : ℤ → Cmd (Unit {0})
write_byte a = put_unsigned_char (low_byte a)

abbrev pub write_char : ℤ → Cmd (Unit {0})
write_char a = put_signed_char a

module _ {D : Type 0} (F : Floats D) where
  open F use {from_int, to_int, widen, narrow, lit, add, mul, div}

  -- `(float) a` of an integer.
  abbrev pub float_of : ℤ → ℕ
  float_of a = narrow (from_int a)

  abbrev pub times : ℕ → D → D
  times w d = mul (widen w) d

  abbrev pub over : ℕ → D → D
  over w d = div (widen w) d

  unfoldable pub read_angle : Cmd ℕ
  read_angle = do
    c ← read_char
    pure (narrow (mul (over (float_of c) (lit (pos 256) 1)) (lit (pos 360) 1)))

  unfoldable pub write_angle : ℕ → Cmd (Unit {0})
  write_angle a = put_signed_char (to_int (div (times a (lit (pos 256) 1)) (lit (pos 360) 1)))

  unfoldable pub read_coord : Cmd ℕ
  read_coord = do s ← get_next_short; pure (narrow (times (float_of s) (lit (pos 1) 8)))

  unfoldable pub write_coord : ℕ → Cmd (Unit {0})
  write_coord a = put_short (to_int (times a (lit (pos 8) 1)))

  unfoldable pub write_vel : ℕ → Cmd (Unit {0})
  write_vel a = put_signed_char (to_int (times a (lit (pos 16) 1)))

  unfoldable pub write_vol : ℕ → Cmd (Unit {0})
  write_vol a =
      put_unsigned_char (low_byte (to_int (add (times a (lit (pos 255) 1)) (lit (pos 1) 2))))

  unfoldable pub write_attenuation : ℕ → Cmd (Unit {0})
  write_attenuation a = put_unsigned_char (low_byte (to_int (times a (lit (pos 64) 1))))

  unfoldable pub write_timeofs : ℕ → Cmd (Unit {0})
  write_timeofs a = put_unsigned_char (low_byte (to_int (times a (lit (pos 1000) 1))))

  unfoldable pub read_angle16 : Cmd ℕ
  read_angle16 = do
    s ← get_next_short
    pure (narrow (mul (over (float_of s) (lit (pos 65536) 1)) (lit (pos 360) 1)))

  unfoldable pub write_angle16 : ℕ → Cmd (Unit {0})
  write_angle16 a = put_short (to_int (div (times a (lit (pos 65536) 1)) (lit (pos 360) 1)))

  unfoldable pub read_blend : Cmd ℕ
  read_blend = do b ← read_byte; pure (narrow (div (from_int (pos b)) (lit (pos 255) 1)))

  unfoldable pub write_blend : ℕ → Cmd (Unit {0})
  write_blend a = write_byte (to_int (times a (lit (pos 255) 1)))

  unfoldable pub read_offset : Cmd ℕ
  read_offset = do c ← read_char; pure (narrow (div (from_int c) (lit (pos 4) 1)))

  unfoldable pub write_offset : ℕ → Cmd (Unit {0})
  write_offset a = write_char (to_int (times a (lit (pos 4) 1)))

  -- `for (i=0; i<k; i++) a[i] = read(m);` and the loop that writes.
  unfoldable pub read_vec : ℕ → Cmd ℕ → Cmd (List ℕ)
  read_vec zero read = pure []
  read_vec (suc k) read = do a ← read; rest ← read_vec k read; pure (a ∷ rest)

  unfoldable pub write_vec : (ℕ → Cmd (Unit {0})) → List ℕ → Cmd (Unit {0})
  write_vec write [] = pure tt
  write_vec write (a ∷ as') = do write a; write_vec write as'

  unfoldable pub read_position : Cmd (List ℕ)
  read_position = read_vec 3 read_coord

  unfoldable pub write_position : List ℕ → Cmd (Unit {0})
  write_position a = write_vec write_coord a

  unfoldable pub read_blend_vec : Cmd (List ℕ)
  read_blend_vec = read_vec 4 read_blend

  unfoldable pub write_blend_vec : List ℕ → Cmd (Unit {0})
  write_blend_vec a = write_vec write_blend a

  unfoldable pub read_offset_vec : Cmd (List ℕ)
  read_offset_vec = read_vec 3 read_offset

  unfoldable pub write_offset_vec : List ℕ → Cmd (Unit {0})
  write_offset_vec a = write_vec write_offset a
