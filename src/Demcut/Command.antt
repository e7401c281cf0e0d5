-- ===== src/Demcut/Command.antt =====
-- src/demcut.c, `get_new_command`, for the text of the input that is left. `sscanf` is the C
-- library's and a parameter; `fgets` and `strsep` are written out.
use lmpc.Base.{
  ℕ, zero, suc, ◌-◌, ◌||◌, Bool, true, false, not, ◌&&◌, List, [], ◌∷◌, ◌++◌, Option, none, some,
  length, ltb, ◌==◌, if◌then◌else◌, drop, get_or,
}
use lmpc.Base.Int.{ℤ, pos, negsuc, ltb_ℤ}
use lmpc.Demcut.Track.{read_track}
use lmpc.Demcut.State.{
  Real, Code, c_comment, c_demfile, c_frame, c_quit, c_range, c_range_running, c_output, c_speed,
  c_cdtrack, c_time, c_help, c_loop, c_multi, c_inter, c_prompt, c_warranty, c_unknown, Report,
  subject, no_demfile, cannot_interpret, out_of_range, State, current_demfile,
}
use lmpc.Binblock.Text.{until_nul}
use lmpc.Demcut.Output.{print}

-- `sscanf` of "%i" and of "%f", where it finds a value.
pub record Scanf (F : Type 0) : Type 0 where
  pub int : List ℕ → Option ℤ
  pub real : List ℕ → Option F

abbrev pub max_line : ℕ
max_line = 100

-- `fgets(buffer, k + 1, stdin)`, for the text that is left.
unfoldable pub fgets : ℕ → List ℕ → List ℕ
fgets zero text = []
fgets (suc k) [] = []
fgets (suc k) (c ∷ cs) = let rest = fgets k cs in if c == 10 then c ∷ [] else c ∷ rest

-- The loop that takes newlines and carriage returns off the end.
abbrev pub keep_first : ℕ → List ℕ → List ℕ
keep_first c [] = if (c == 10) || (c == 13) then [] else c ∷ []
keep_first c (d ∷ ds) = c ∷ d ∷ ds

unfoldable pub strip : List ℕ → List ℕ
strip [] = []
strip (c ∷ cs) = keep_first c (strip cs)

-- `buffer` behind the loop.
abbrev pub line_of : List ℕ → List ℕ
line_of text = strip (until_nul (fgets (max_line - 1) text))

-- `strsep(&bufferp, " \r\n")`: the token, and `bufferp`, where `none` is NULL.
unfoldable pub strsep : List ℕ → List ℕ × Option (List ℕ)
strsep [] = ([], none)
strsep (c ∷ cs) =
    let (token, rest) = strsep cs in
    if (c == 32) || ((c == 13) || (c == 10)) then ([], some cs) else (c ∷ token, rest)

-- `command->code`.
unfoldable pub code_of : ℕ → Code
code_of c =
    if c == 35
    then c_comment
    else if c == 100
    then c_demfile
    else if c == 102
    then c_frame
    else if c == 113
    then c_quit
    else if c == 114
    then c_range
    else if c == 82
    then c_range_running
    else if c == 111
    then c_output
    else if c == 115
    then c_speed
    else if c == 99
    then c_cdtrack
    else if c == 116
    then c_time
    else if c == 104
    then c_help
    else if c == 108
    then c_loop
    else if c == 109
    then c_multi
    else if c == 105
    then c_inter
    else if c == 112
    then c_prompt
    else if c == 119
    then c_warranty
    else c_unknown

-- A line as the code of its command, whether anything follows, and what `strsep` finds: the first
-- word, and the second, where `none` is NULL.
pub record Line : Type 0 where
  pub code : Code
  pub bare : Bool
  pub word : List ℕ
  pub second : Option (List ℕ)

abbrev second_of : Option (List ℕ) → Option (List ℕ)
second_of none = none
second_of (some rest) = some ((strsep rest).0)

unfoldable pub split_line : List ℕ → Line
unfolding strsep code_of
split_line buffer =
    let (word, rest) = strsep (drop 2 buffer) in
    record {
      code = code_of (get_or buffer 0 0);
      bare = length buffer == 1;
      word = word;
      second = second_of rest;
    }

-- COMMAND_t; `to_do` is the negation of its `done`.
pub record Command (F : Type 0) : Type 0 where
  pub code : Code
  pub argi1 : ℤ
  pub argi2 : ℤ
  pub argf : F
  pub args : List ℕ
  pub to_do : Bool

-- An argument that is there and passes its test, or the error that is printed.
pub data Arg (A : Type 0) : Type 0 where
  good : A → Arg A
  bad : Report → Arg A

abbrev pub checked : {A : Type 0} → Option A → (A → Bool) → Arg A
checked none test = bad cannot_interpret
checked (some a) test = if test a then good a else bad out_of_range

-- What `get_new_command` ends with: no line is left, or `sscanf` gets NULL, which is a crash.
pub data Got (F : Type 0) : Type 0 where
  no_command crashes : Got F
  gets : State F → Command F → Got F

module _ {F : Type 0} (R : Real F) (scanf : Scanf F) where
  open R use {zero_f, le}

  -- 0 <= i < framei of the current file.
  unfoldable pub in_frames : State F → ℤ → Bool
  in_frames s i = elim (current_demfile s) [
    | none ↦ false
    | some d ↦ not (ltb_ℤ i (pos 0)) && ltb_ℤ i (pos (length d.frames))
  ]

  abbrev pub command : Code → ℤ → ℤ → F → List ℕ → Command F
  command c i j f w = record { code = c; argi1 = i; argi2 = j; argf = f; args = w; to_do = true }

  abbrev nothing : Code → Command F
  nothing c = record {
    code = c;
    argi1 = pos 0;
    argi2 = pos 0;
    argf = zero_f;
    args = [];
    to_do = false;
  }

  abbrev pub has_file : State F → Bool
  has_file s = ltb 0 (length s.demfiles)

  abbrev refuse : Code → Report → State F → Got F
  refuse c r s = gets (record s { printed = s.printed ++ (r ∷ []) }) (nothing c)

  -- A command without its arguments is a question, which is answered at once.
  abbrev ask : Code → State F → Got F
  ask c s = gets (print (subject c) s) (nothing c)

  abbrev one_int : Code → (ℤ → Bool) → Line → State F → Got F
  one_int c test l s = elim (checked (scanf.int l.word) test) [
    | bad r ↦ refuse c r s
    | good i ↦ gets s (command c i (pos 0) zero_f [])
  ]

  abbrev pub two_ints : Code → Line → State F → Got F
  two_ints c l s = elim (checked (scanf.int l.word) (in_frames s)) [
    | bad r ↦ refuse c r s
    | good i ↦ elim l.second [
      | none ↦ crashes
      | some word ↦ elim (checked (scanf.int word) (in_frames s)) [
        | bad r ↦ refuse c r s
        | good j ↦ gets s (command c i j zero_f [])
      ]
    ]
  ]

  abbrev positive : F → Bool
  positive f = not (le f zero_f)

  abbrev is_flag : ℤ → Bool
  is_flag (pos n) = ltb n 2
  is_flag (negsuc n) = false

  abbrev one_real : Code → Line → State F → Got F
  one_real c l s = elim (checked (scanf.real l.word) positive) [
    | bad r ↦ refuse c r s
    | good f ↦ gets s (command c (pos 0) (pos 0) f [])
  ]

  abbrev one_word : (List ℕ → List ℕ) → Code → Line → State F → Got F
  one_word w c l s =
      if length l.word == 0
      then refuse c cannot_interpret s
      else gets s (command c (pos 0) (pos 0) zero_f (w l.word))

  abbrev pub parse_args : Code → Line → State F → Got F
  parse_args c_comment l s = gets s (nothing c_comment)
  parse_args c_help l s = gets s (command c_help (pos 0) (pos 0) zero_f [])
  parse_args c_quit l s = gets s (command c_quit (pos 0) (pos 0) zero_f [])
  parse_args c_warranty l s = gets s (command c_warranty (pos 0) (pos 0) zero_f [])
  parse_args c_demfile l s =
      if l.bare
      then (if has_file s then ask c_demfile s else refuse c_demfile no_demfile s)
      else gets s (command c_demfile (pos 0) (pos 0) zero_f l.word)
  parse_args c_frame l s =
      if l.bare
      then ask c_frame s
      else if has_file s
      then one_int c_frame (in_frames s) l s
      else refuse c_frame no_demfile s
  parse_args c_range l s =
      if l.bare
      then ask c_range s
      else if has_file s
      then two_ints c_range l s
      else refuse c_range no_demfile s
  parse_args c_multi l s =
      if l.bare
      then ask c_multi s
      else if has_file s
      then two_ints c_multi l s
      else refuse c_multi no_demfile s
  parse_args c_output l s = if l.bare then ask c_output s else one_word (λ w. w) c_output l s
  parse_args c_cdtrack l s = if l.bare then ask c_cdtrack s else one_word read_track c_cdtrack l s
  parse_args c_speed l s = if l.bare then ask c_speed s else one_real c_speed l s
  parse_args c_time l s = if l.bare then ask c_time s else one_real c_time l s
  parse_args c_loop l s = if l.bare then ask c_loop s else one_int c_loop (λ i. ltb_ℤ (pos 0) i) l s
  parse_args c_inter l s = if l.bare then ask c_inter s else one_int c_inter is_flag l s
  parse_args c_prompt l s = if l.bare then ask c_prompt s else one_int c_prompt is_flag l s
  parse_args c_range_running l s = gets s (nothing c_range_running)
  parse_args c_unknown l s = gets s (nothing c_unknown)

  abbrev pub from_buffer : List ℕ → List ℕ → State F → Got F
  from_buffer [] buffer s = no_command
  from_buffer (c ∷ cs) buffer s = parse_args (split_line buffer).code (split_line buffer) s

  -- The next command from the text of the input that is left.
  unfoldable pub get_new_command : List ℕ → State F → Got F
  unfolding in_frames split_line fgets strip
  get_new_command text s = from_buffer (until_nul (fgets (max_line - 1) text)) (line_of text) s
