-- ===== src/Demcut/Track.antt =====
-- src/demcut.c: the cd track string, as it is read from a command and as it is printed.
use lmpc.Base.{
  ℕ, Bool, true, false, ◌||◌, List, [], ◌∷◌, ◌++◌, ◌==◌, if◌then◌else◌, ◌≡◌, ◌≢◌, refl, Option,
  none, some, arith, All,
}

abbrev pub backslash : ℕ
backslash = 92

abbrev letter : ℕ → Option ℕ
letter c =
    if c == 116
    then some 9
    else if c == 114
    then some 13
    else if c == 110
    then some 10
    else if c == 102
    then some 12
    else none

-- \t, \r, \n and \f stand for the characters of these names; another backslash is kept.
unfoldable pub unescape : List ℕ → List ℕ
unescape [] = []
unescape (c ∷ []) = c ∷ []
unescape (c ∷ d ∷ cs) =
    let whole = unescape cs in
    let rest = unescape (d ∷ cs) in
    if c == backslash then elim (letter d) [ none ↦ c ∷ rest | some x ↦ x ∷ whole ] else c ∷ rest

abbrev pub is_space : ℕ → Bool
is_space c = (c == 9) || (c == 13) || (c == 10) || (c == 12)

unfoldable pub ends_in_space : List ℕ → Bool
ends_in_space [] = false
ends_in_space (c ∷ []) = is_space c
ends_in_space (c ∷ d ∷ cs) = ends_in_space (d ∷ cs)

-- The argument of the command: the escapes are resolved, and a newline is added unless the string
-- ends in one of the four characters.
unfoldable pub read_track : List ℕ → List ℕ
read_track w = let s = unescape w in if ends_in_space s then s else s ++ (10 ∷ [])

-- The string as `print_post_command` shows it.
unfoldable pub print_track : List ℕ → List ℕ
print_track [] = []
print_track (c ∷ cs) =
    let rest = print_track cs in
    if c == 9
    then backslash ∷ 116 ∷ rest
    else if c == 13
    then backslash ∷ 114 ∷ rest
    else if c == 10
    then backslash ∷ 110 ∷ rest
    else if c == 12
    then backslash ∷ 102 ∷ rest
    else c ∷ rest

unescape_cons : (c : ℕ) (w : List ℕ) → c ≢ backslash → unescape (c ∷ w) ≡ c ∷ unescape w
unfolding unescape
unescape_cons c [] h = refl
unescape_cons c (d ∷ w) h = ground arith

pub unescape-print_track : (s : List ℕ) → All (λ c. c ≢ backslash) s → unescape (print_track s) ≡ s
unfolding unescape print_track
unescape-print_track [] h = refl
unescape-print_track (c ∷ cs) h = grind (arith, unescape_cons, unescape-print_track cs h.1, h.0)

-- A track string that ends in a tabulator, a carriage return, a newline or a form feed, and has no
-- backslash, is read back as it is from what the program prints for it.
pub read_track-print_track :
    (s : List ℕ)
    → All (λ c. c ≢ backslash) s
    → ends_in_space s ≡ true
    → read_track (print_track s) ≡ s
unfolding read_track
read_track-print_track s h e = rw (unescape-print_track s h, e)
