-- ===== src/Binblock/Text.antt =====
-- src/binblock.c: strings. A C string is the list of its bytes up to the first zero.
pub mod RoundTrip
use lmpc.Base.{ℕ, zero, suc, List, [], ◌∷◌, ◌==◌, if◌then◌else◌}
use lmpc.Binblock.{Cmd, ◌>>=◌, ◌>>◌, pure, peek, advance, put_unsigned_char}

-- The bytes that `strcpy` and `strlen` see.
unfoldable pub until_nul : List ℕ → List ℕ
until_nul [] = []
until_nul (b ∷ bs) = if b == 0 then [] else b ∷ until_nul bs

-- `for (i=0; i<0x7FF && *(m->p); i++, m->p++) *b++ = *(m->p);` with the rounds that are left.
-- The test of `i` comes before the read.
unfoldable pub get_string_loop : ℕ → Cmd (List ℕ)
get_string_loop zero = pure []
get_string_loop (suc k) = do
  b ← peek
  let more = (do advance 1; rest ← get_string_loop k; pure (b ∷ rest))
  if b == 0 then pure [] else more

abbrev pub string_limit : ℕ
string_limit = 0x7FF

unfoldable pub get_next_string : Cmd (List ℕ)
get_next_string = do s ← get_string_loop string_limit; advance 1; pure s

unfoldable pub put_chars : List ℕ → Cmd (Unit {0})
put_chars [] = pure tt
put_chars (b ∷ bs) = do put_unsigned_char b; put_chars bs

-- `strcpy`, then the cursor behind the terminating zero.
unfoldable pub put_string : List ℕ → Cmd (Unit {0})
unfolding put_chars
put_string a = do put_chars (until_nul a); put_unsigned_char 0
