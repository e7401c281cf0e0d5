-- ===== src/Binblock.antt =====
-- src/binblock.c and the `BB_t` of src/binblock.h: a block of at most `BBB_MAX` bytes with a cursor.
-- The accessors of C check nothing; an access outside the buffer, which C leaves undefined, is
-- `fault` here. `exit` is a call of `syserror` or `syntaxerror`.
-- A `long` is a ℤ, a byte a number below 256, a `float` its 32-bit pattern.
pub mod Number
pub mod Text
pub mod Bytes
pub mod RoundTrip
pub mod Float
pub mod Direction
pub mod Hint
pub mod Argument
pub mod Forward
pub mod Codec
pub mod Joined
use lmpc.Base.{
  ℕ, zero, suc, ◌+◌, ◌-◌, ◌*◌, ◌/◌, ◌%◌, ◌<◌, Bool, Option, none, some, List, get_elem?, set, ltb,
  length, if◌then◌else◌,
}
use lmpc.Base.Int.{ℤ, pos, negsuc, ◌+ℤ◌}
use lmpc.Base.Result.{Error}

-- The fields that the modelled code uses: the pointers `p` and `end` are offsets in `buffer`.
pub record Block : Type 0 where
  pub size : ℕ
  pub buffer : List ℕ
  pub p : ℕ
  pub end : ℕ
  pub base : ℕ

pub data Run {ℓ} (A : Type ℓ) : Type ℓ where
  ok : A → Block → Run A
  exit : Error → Run A
  fault : Run A
  -- A loop that never ends.
  hangs : Run A

abbrev pub Cmd {ℓ} : Type ℓ → Type ℓ
Cmd A = Block → Run A

abbrev pub pure {ℓ} : {A : Type ℓ} → A → Cmd A
pure a m = ok a m

module _ {ℓ κ} {A : Type ℓ} {B : Type κ} where
  abbrev pub and_then : Run A → (A → Cmd B) → Run B
  and_then (ok a m) k = k a m
  and_then (exit e) k = exit e
  and_then fault k = fault
  and_then hangs k = hangs

  infixl 5 ◌>>=◌ ◌>>◌
  abbrev pub ◌>>=◌ : Cmd A → (A → Cmd B) → Cmd B
  c >>= k = λ m. and_then (c m) k

  abbrev pub ◌>>◌ : Cmd A → Cmd B → Cmd B
  c >> d = c >>= λ _. d

-- `m->p < m->end`; the bytes up to the end; and the size of the buffer.
abbrev pub inside : Cmd Bool
inside m = ok (ltb m.p m.end) m

abbrev pub left : Cmd ℕ
left m = ok (m.end - m.p) m

abbrev pub capacity : Cmd ℕ
capacity m = ok (length m.buffer) m

-- `*(unsigned char*)(m->p)`, the cursor left where it is.
unfoldable pub peek : Cmd ℕ
peek m = elim (get_elem? m.buffer m.p) [ none ↦ fault | some b ↦ ok b m ]

-- `m->p += n`
abbrev pub advance : ℕ → Cmd (Unit {0})
advance n m = ok tt (record m { p = m.p + n })

unfoldable pub get_next_unsigned_char : Cmd ℕ
unfolding peek
get_next_unsigned_char = do a ← peek; advance 1; pure a

unfoldable pub put_unsigned_char : ℕ → Cmd (Unit {0})
put_unsigned_char a m =
    if ltb m.p (length m.buffer)
    then ok tt (record m { buffer = set m.buffer m.p a; p = m.p + 1 })
    else fault

-- The conversion of a byte to `signed char`.
unfoldable pub signed_char : ℕ → ℤ
signed_char b = if ltb b 128 then pos b else negsuc (255 - b)

-- The conversion of an integer to `unsigned char`: the low byte of its two's complement.
unfoldable pub low_byte : ℤ → ℕ
low_byte (pos n) = n % 256
low_byte (negsuc n) = 255 - n % 256

-- `a >> k`, arithmetic, with `d` for 2 ^ k; and `z << k` of a signed value.
unfoldable pub shift_right : ℤ → ℕ → ℤ
shift_right (pos n) d = pos (n / d)
shift_right (negsuc n) d = negsuc (n / d)

unfoldable pub shift_left : ℤ → ℕ → ℤ
shift_left (pos n) d = pos (n * d)
shift_left (negsuc n) d = negsuc ((n + 1) * d - 1)

unfoldable pub get_next_signed_char : Cmd ℤ
unfolding peek
get_next_signed_char = do a ← peek; advance 1; pure (signed_char a)

unfoldable pub put_signed_char : ℤ → Cmd (Unit {0})
put_signed_char a = put_unsigned_char (low_byte a)
