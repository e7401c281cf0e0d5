-- ===== src/Demcut/Printed.antt =====
-- src/demcut.c: the cd track, as the program prints it, read as a command.
use lmpc.Base.{
  ℕ, zero, suc, ◌<◌, ◌≡◌, ◌≢◌, refl, ap, ◌∙◌, ◌||◌, true, false, List, [], ◌∷◌, ◌++◌, none, ◌==◌,
  length, All, arith, Bool-cases, inl, inr,
}
use lmpc.Base.Int.{pos}
use lmpc.Binblock.Text.{until_nul}
use lmpc.Demcut.State.{Real, State, c_cdtrack}
use lmpc.Demcut.Track.{backslash, print_track, read_track, ends_in_space, read_track-print_track}
use lmpc.Demcut.Command.{
  Scanf, gets, command, fgets, strip, keep_first, strsep, code_of, split_line, line_of, from_buffer,
  get_new_command,
}

-- A character that is neither the end of a line or of a string, nor a blank.
abbrev Plain : ℕ → Type 0
Plain c = (c ≢ 0) × (c ≢ 10) × (c ≢ 13) × (c ≢ 32)

-- One that is not the end of a line or of a string.
abbrev Inner : ℕ → Type 0
Inner c = (c ≢ 0) × (c ≢ 10) × (c ≢ 13)

fgets-line :
    (k : ℕ) (w rest : List ℕ)
    → All Inner w
    → length w < k
    → fgets k (w ++ (10 ∷ rest)) ≡ w ++ (10 ∷ [])
unfolding fgets
fgets-line zero w rest h fits = absurd (omega arith)
fgets-line (suc k) [] rest h fits = refl
fgets-line (suc k) (c ∷ cs) rest (h, hs) fits =
    let more : (c == 10) ≡ false = ground (arith, h.1) in
    rw (more, fgets-line k cs rest hs (omega arith)) refl

until_nul-line : (w : List ℕ) → All Inner w → until_nul (w ++ (10 ∷ [])) ≡ w ++ (10 ∷ [])
unfolding until_nul
until_nul-line [] h = refl
until_nul-line (c ∷ cs) (h, hs) =
    let more : (c == 0) ≡ false = ground (arith, h.0) in rw (more, until_nul-line cs hs) refl

strip-line : (w : List ℕ) → All Inner w → strip (w ++ (10 ∷ [])) ≡ w
unfolding strip
strip-line [] h = refl
strip-line (c ∷ []) (h, hs) =
    let more : ((c == 10) || (c == 13)) ≡ false = ground (arith, h.1, h.2) in rw more refl
strip-line (c ∷ d ∷ cs) (h, hs) = ap (keep_first c) (strip-line (d ∷ cs) hs)

line_of-line : (w rest : List ℕ) → All Inner w → length w < 99 → line_of (w ++ (10 ∷ rest)) ≡ w
line_of-line w rest h fits =
    ap (λ l. strip (until_nul l)) (fgets-line 99 w rest h fits)
    ∙ ap strip (until_nul-line w h)
    ∙ strip-line w h

strsep-word : (w : List ℕ) → All Plain w → strsep w ≡ (w, none)
unfolding strsep
strsep-word [] h = refl
strsep-word (c ∷ cs) (h, hs) =
    let more : ((c == 32) || ((c == 13) || (c == 10))) ≡ false = ground (arith, h.1, h.2) in
    rw (more, strsep-word cs hs) refl

Plain-Inner : (w : List ℕ) → All Plain w → All Inner w
Plain-Inner [] h = tt
Plain-Inner (c ∷ cs) ((a, b, c', d), hs) = ((a, b, c'), Plain-Inner cs hs)

-- What is printed for a track has no blank and no end of a line.
print_track-Plain : (s : List ℕ) → All (λ c. (c ≢ 0) × (c ≢ 32)) s → All Plain (print_track s)
unfolding print_track
print_track-Plain [] h = tt
print_track-Plain (c ∷ cs) ((a, b), hs) =
    let rest = print_track-Plain cs hs in
    let letter : (d : ℕ) → 33 < d → Plain d =
      λ d h. ((λ e. omega arith), (λ e. omega arith), (λ e. omega arith), (λ e. omega arith)) in
    elim (Bool-cases (c == 9)) [
      | inl e ↦ rw e (letter 92 (omega arith), (letter 116 (omega arith), rest))
      | inr n9 ↦ elim (Bool-cases (c == 13)) [
        | inl e ↦ rw (n9, e) (letter 92 (omega arith), (letter 114 (omega arith), rest))
        | inr n13 ↦ elim (Bool-cases (c == 10)) [
          | inl e ↦ rw (n9, n13, e) (letter 92 (omega arith), (letter 110 (omega arith), rest))
          | inr n10 ↦ elim (Bool-cases (c == 12)) [
            | inl e ↦
                rw (n9, n13, n10, e) (letter 92 (omega arith), (letter 102 (omega arith), rest))
            | inr n12 ↦
                rw (n9, n13, n10, n12) ((a, (λ e. ground arith), (λ e. ground arith), b), rest)
          ]
        ]
      ]
    ]

Inner-command : (w : List ℕ) → All Plain w → All Inner (99 ∷ 32 ∷ w)
Inner-command w h = (
  ((λ e. omega arith), (λ e. omega arith), (λ e. omega arith)),
  (((λ e. omega arith), (λ e. omega arith), (λ e. omega arith)), Plain-Inner w h),
)

print_track-nonempty : (t : List ℕ) → ends_in_space t ≡ true → (length (print_track t) == 0) ≡ false
unfolding print_track ends_in_space
print_track-nonempty [] h = ground arith
print_track-nonempty (c ∷ cs) h = ground arith

module _ {F : Type 0} (R : Real F) (scanf : Scanf F) where
  word_taken :
      (p t : List ℕ) (s : State F)
      → All Plain p
      → (length p == 0) ≡ false
      → read_track p ≡ t
      → from_buffer R scanf (99 ∷ 32 ∷ (p ++ (10 ∷ []))) (99 ∷ 32 ∷ p) s
        ≡ gets s (command R scanf c_cdtrack (pos 0) (pos 0) R.zero_f t)
  unfolding split_line code_of
  word_taken p t s plain some_left e =
      let two : (length (99 ∷ 32 ∷ p) == 1) ≡ false = ground arith in
      rw (two, strsep-word p plain, some_left, e) refl

  -- A track string without zero, blank and backslash that ends in a tabulator, a carriage return, a
  -- newline or a form feed, and of which the program prints 96 characters at most, is read back as it
  -- is by `get_new_command` from a line with the letter of the command, a blank and what the program
  -- prints for it.
  pub get_new_command-print_track :
      (t rest : List ℕ) (s : State F)
      → All (λ c. (c ≢ 0) × (c ≢ 32)) t
      → All (λ c. c ≢ backslash) t
      → ends_in_space t ≡ true
      → length (print_track t) < 97
      → get_new_command R scanf (99 ∷ 32 ∷ (print_track t ++ (10 ∷ rest))) s
        ≡ gets s (command R scanf c_cdtrack (pos 0) (pos 0) R.zero_f t)
  unfolding get_new_command
  get_new_command-print_track t rest s plain plain' e fits =
      let p = print_track t in
      let w = 99 ∷ 32 ∷ p in
      let inner = Inner-command p (print_track-Plain t plain) in
      ap (λ b. from_buffer R scanf b (line_of (w ++ (10 ∷ rest))) s)
        (ap until_nul (fgets-line 99 w rest inner (omega arith)) ∙ until_nul-line w inner)
      ∙ ap (λ l. from_buffer R scanf (w ++ (10 ∷ [])) l s) (line_of-line w rest inner (omega arith))
      ∙ word_taken p t s (print_track-Plain t plain) (print_track-nonempty t e)
          (read_track-print_track t plain' e)
