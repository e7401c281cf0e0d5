-- ===== src/Examples/Bytes.antt =====
-- Tests of src/binblock.c and src/unlzw.c.
use lmpc.Base.{ℕ, ◌+◌, List, [], ◌∷◌, ◌++◌, ◌≡◌, refl, arith, length, take, replicate}
use lmpc.Base.Int.{pos, negsuc}
use lmpc.Binblock.{Block, ok}
use lmpc.Binblock.Number.{
  put_long, get_next_long, put_float, get_next_float, read_long_be, write_long_be,
}
use lmpc.Binblock.Text.{put_string, get_next_string, until_nul, string_limit}
use lmpc.Binblock.Bytes.{RoundTrips, back_to}
use lmpc.Binblock.RoundTrip.{
  get_next_long-put_long, get_next_float-put_float, read_long_be-write_long_be,
}
use lmpc.Binblock.Text.RoundTrip.{get_next_string-put_string, get_next_string-Holds}
use lmpc.Lzw.Decompress.{decompress}
use lmpc.Lzw.Decompress.Total.{Ends, decompress-Ends}

-- Eight bytes with the cursor behind the first.
abbrev small : Block
small = record { size = 8; buffer = 9 ∷ replicate 6 0 ++ (7 ∷ []); p = 1; end = 8; base = 0 }

-- The string "AB" and a byte behind its zero.
abbrev ab : Block
ab = record { size = 4; buffer = 65 ∷ 66 ∷ 0 ∷ 67 ∷ []; p = 0; end = 4; base = 0 }

get_next_long-put_long_example : RoundTrips (put_long (negsuc 4)) get_next_long (negsuc 4) 4 small
get_next_long-put_long_example =
    get_next_long-put_long (negsuc 4) small (omega arith) (omega arith) (omega arith)

get_next_float-put_float_example :
    RoundTrips (put_float 0xBF800000) get_next_float 0xBF800000 4 small
get_next_float-put_float_example =
    get_next_float-put_float 0xBF800000 small (omega arith) (omega arith)

read_long_be-write_long_be_example :
    RoundTrips (write_long_be (pos 0x12345678)) read_long_be (pos 0x12345678) 4 small
read_long_be-write_long_be_example =
    read_long_be-write_long_be 0x12345678 small (omega arith) (omega arith)

get_next_string-put_string_example :
    RoundTrips
      (put_string (65 ∷ 66 ∷ []))
      get_next_string
      (until_nul (65 ∷ 66 ∷ []))
      (length (until_nul (65 ∷ 66 ∷ []) ++ (0 ∷ [])))
      small
unfolding until_nul
get_next_string-put_string_example =
    get_next_string-put_string (65 ∷ 66 ∷ []) small (omega arith) (omega arith)

abbrev two : List ℕ
two = 65 ∷ 66 ∷ []

get_next_string-Holds_example :
    get_next_string ab
    ≡ ok (take string_limit two) (back_to (0 + length (take string_limit two) + 1) ab)
get_next_string-Holds_example =
    get_next_string-Holds two ab ((λ e. omega arith), ((λ e. omega arith), tt))
      (refl, (refl, (refl, tt)))

decompress-Ends_example : Ends 4 (decompress (λ c. 0) (λ c. 0) (65 ∷ 0 ∷ 132 ∷ 0 ∷ 1 ∷ []) 4 3)
decompress-Ends_example = decompress-Ends (λ c. 0) (λ c. 0) (65 ∷ 0 ∷ 132 ∷ 0 ∷ 1 ∷ []) 4 3
