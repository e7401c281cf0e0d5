-- ===== src/Binblock/Text/RoundTrip.antt =====
-- src/binblock.c: what `put_string` writes and how `get_next_string` reads it, up to its limit of
-- 0x7FF characters and beyond.
use lmpc.Base.{
  ℕ, zero, suc, ◌+◌, ◌<◌, ◌≤◌, ◌≡◌, ◌≢◌, refl, ap, ◌∙◌, List, [], ◌∷◌, ◌++◌, arith, length, take,
  length-append, length-take, length-set, get_elem?, some, ◌==◌, All, Bool-cases, inl, inr, false,
}
use lmpc.Binblock.{Block, ok, peek, and_then, put_unsigned_char}
use lmpc.Binblock.Text.{
  until_nul, get_string_loop, string_limit, get_next_string, put_chars, put_string,
}
use lmpc.Binblock.Bytes.{
  Holds, written, back_to, skip, skip-back_to, put_unsigned_char-written, RoundTrips, round_trip,
}

until_nul-nonzero : (a : List ℕ) → All (λ b. b ≢ 0) (until_nul a)
unfolding until_nul
until_nul-nonzero [] = tt
until_nul-nonzero (b ∷ bs) = elim (Bool-cases (b == 0)) [
  | inl e ↦ rw e tt
  | inr e ↦ rw e (ground arith, until_nul-nonzero bs)
]

pub put_chars-written :
    (s : List ℕ) (m : Block)
    → m.p + length s + 1 ≤ length m.buffer
    → and_then (put_chars s m) (λ _. put_unsigned_char 0) ≡ ok tt (written (s ++ (0 ∷ [])) m)
unfolding put_chars
put_chars-written [] m h = put_unsigned_char-written 0 m (omega arith)
put_chars-written (b ∷ s) m h =
    rw (put_unsigned_char-written b m (omega arith))
      (put_chars-written s (written (b ∷ []) m) (omega (arith, length-set m.buffer m.p b)))

peek-Holds : (m : Block) {b : ℕ} → get_elem? m.buffer m.p ≡ some b → peek m ≡ ok b m
unfolding peek
peek-Holds m h = rw (h, peek)

get_string_loop-Holds :
    (k : ℕ) (s : List ℕ) (m : Block)
    → All (λ b. b ≢ 0) s
    → Holds m.buffer m.p (s ++ (0 ∷ []))
    → get_string_loop k m ≡ ok (take k s) (skip (length (take k s)) m)
unfolding get_string_loop
get_string_loop-Holds zero s m nz h = refl
get_string_loop-Holds (suc k) [] m nz (h, _) = rw (peek-Holds m h)
get_string_loop-Holds (suc k) (b ∷ s) m (ne, nz) (h, hs) =
    let e : (b == 0) ≡ false = ground arith in
    rw (peek-Holds m h, e, get_string_loop-Holds k s (skip 1 m) nz hs)

pub take-all : (k : ℕ) (s : List ℕ) → length s ≤ k → take k s ≡ s
take-all zero [] h = refl
take-all zero (b ∷ s) h = absurd (omega arith)
take-all (suc k) [] h = refl
take-all (suc k) (b ∷ s) h = ap (λ l. b ∷ l) (take-all k s (omega arith))

-- Wherever a block holds a terminated string at the cursor, `get_next_string` gives its first 0x7FF
-- characters and moves the cursor one byte further than it has read.
pub get_next_string-Holds :
    (s : List ℕ) (m : Block)
    → All (λ b. b ≢ 0) s
    → Holds m.buffer m.p (s ++ (0 ∷ []))
    → get_next_string m
      ≡ ok (take string_limit s) (back_to (m.p + length (take string_limit s) + 1) m)
unfolding get_next_string
get_next_string-Holds s m nz h = rw (get_string_loop-Holds string_limit s m nz h, skip-back_to)

-- `get_next_string` reads back what `put_string` wrote of every string of at most 0x7FF characters,
-- with room for it and its zero; both leave the cursor behind the zero, and the other bytes stay.
pub get_next_string-put_string :
    (a : List ℕ) (m : Block)
    → length (until_nul a) ≤ string_limit
    → m.p + length (until_nul a) + 1 ≤ length m.buffer
    → RoundTrips (put_string a) get_next_string (until_nul a) (length (until_nul a ++ (0 ∷ []))) m
unfolding put_string
get_next_string-put_string a m short room =
    let s = until_nul a in
    round_trip (put_string a) get_next_string s (s ++ (0 ∷ [])) m (put_chars-written s m room)
      (omega (arith, length-append s (0 ∷ [])))
      λ m' h.
        get_next_string-Holds s m' (until_nul-nonzero a) h
        ∙ rw (take-all string_limit s short, skip-back_to, length-append) (ground arith)

-- Of a longer string `get_next_string` gives the first 0x7FF characters only, and leaves the cursor
-- 0x800 bytes on, inside the string or at its zero.
pub get_next_string_cut :
    (s : List ℕ) (m : Block)
    → All (λ b. b ≢ 0) s
    → string_limit < length s
    → Holds m.buffer m.p (s ++ (0 ∷ []))
    → get_next_string m ≡ ok (take string_limit s) (back_to (m.p + 0x800) m)
get_next_string_cut s m nz long h =
    get_next_string-Holds s m nz h ∙ ground (arith, length-take string_limit s)
