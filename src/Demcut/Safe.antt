-- ===== src/Demcut/Safe.antt =====
-- src/demcut.c: a line of input, from `get_new_command` to `do_command`.
use lmpc.Base.{
  ℕ, true, false, List, [], ◌∷◌, Option, none, some, length, ◌≡◌, refl, ap, ◌∙◌, arith, ◌<◌, ◌≢◌,
  not, ◌&&◌, inl, inr, Bool-cases, Option-cases, ◌-◌,
}
use lmpc.Base.Int.{ℤ, pos, negsuc, ltb_ℤ}
use lmpc.Binblock.Text.{until_nul}
use lmpc.Demcut.State.{
  Report, cannot_interpret, out_of_range, Real, Demfile, State, c_range, current_demfile,
}
use lmpc.Demcut.Command.{
  Scanf, Line, Command, Got, no_command, crashes, gets, good, bad, in_frames, get_new_command,
  two_ints, checked, has_file, parse_args, from_buffer, split_line, strip, code_of, fgets, line_of,
  max_line,
}
use lmpc.Demcut.Dispatch.{do_command}
use lmpc.Demcut.Cut.{do_command-range, range_command}
use lmpc.Demcut.Loop.{finish}

in_bounds :
    (n : ℕ) (z : ℤ)
    → (not (ltb_ℤ z (pos 0)) && ltb_ℤ z (pos n)) ≡ true
    → (i : ℕ) × (z ≡ pos i) × (i < n)
in_bounds n (pos i) h = (i, refl, ground arith)
in_bounds n (negsuc i) h = absurd (ground arith)

false≢true : false ≢ true
false≢true e = ground arith

module _ {F : Type 0} (R : Real F) (scanf : Scanf F) where
  -- The number of a frame of the current file.
  abbrev Inside : Demfile F → ℤ → Type 0
  Inside d z = (i : ℕ) × (z ≡ pos i) × (i < length d.frames)

  in_frames-file :
      (s : State F) (z : ℤ)
      → in_frames R scanf s z ≡ true
      → (d : Demfile F) × (current_demfile s ≡ some d)
  unfolding in_frames
  in_frames-file s z h = elim (Option-cases (current_demfile s)) [
    | inl e ↦ absurd (false≢true (rw (e, in_frames) at h))
    | inr (d, e) ↦ (d, e)
  ]

  in_frames-Inside :
      (s : State F) (z : ℤ) (d : Demfile F)
      → in_frames R scanf s z ≡ true
      → current_demfile s ≡ some d
      → Inside d z
  unfolding in_frames
  in_frames-Inside s z d h e = in_bounds (length d.frames) z (rw (e, in_frames) at h)

  data Checked (s : State F) (o : Option ℤ) : Type 0 where
    yes :
        (z : ℤ)
        → checked o (in_frames R scanf s) ≡ good z
        → in_frames R scanf s z ≡ true
        → Checked s o
    no : (r : Report) → checked o (in_frames R scanf s) ≡ bad r → Checked s o

  Checked-cases : (s : State F) (o : Option ℤ) → Checked s o
  Checked-cases s none = no cannot_interpret refl
  Checked-cases s (some z) = elim (Bool-cases (in_frames R scanf s z)) [
    | inl e ↦ yes z (rw e) e
    | inr e ↦ no out_of_range (rw e)
  ]

  -- What becomes of the words of a range: an error, a crash for the lack of a second word, or two
  -- frames of the current file.
  data Accepted (second : Option (List ℕ)) (s : State F) : Got F → Type 0 where
    refused : (s' : State F) (c : Command F) → c.to_do ≡ false → Accepted second s (gets s' c)
    has_crashed : second ≡ none → Accepted second s crashes
    two_frames :
        (d : Demfile F) (i j : ℕ)
        → current_demfile s ≡ some d
        → i < length d.frames
        → j < length d.frames
        → Accepted second s (gets s (range_command i j R.zero_f []))

  second-Accepted :
      (l : Line) (s : State F) (i : ℕ) (d : Demfile F)
      → checked (scanf.int l.word) (in_frames R scanf s) ≡ good (pos i)
      → current_demfile s ≡ some d
      → i < length d.frames
      → Accepted l.second s (two_ints R scanf c_range l s)
  second-Accepted l s i d e hd li = elim (Option-cases l.second) [
    | inl w ↦ rw (two_ints, e, w) (has_crashed refl)
    | inr (word, w) ↦ elim (Checked-cases s (scanf.int word)) [
      | no r f ↦ rw (two_ints, e, w, f) (refused _ _ refl)
      | yes z f k ↦
          let (j, hj, lj) = in_frames-Inside s z d k hd in
          rw (two_ints, e, w, f ∙ ap good hj) (two_frames d i j hd li lj)
    ]
  ]

  two_ints-Accepted : (l : Line) (s : State F) → Accepted l.second s (two_ints R scanf c_range l s)
  two_ints-Accepted l s = elim (Checked-cases s (scanf.int l.word)) [
    | no r e ↦ rw (two_ints, e) (refused _ _ refl)
    | yes y e h ↦
        let (d, hd) = in_frames-file s y h in
        let (i, hi, li) = in_frames-Inside s y d h hd in
        second-Accepted l s i d (e ∙ ap good hi) hd li
  ]

  range_args-Accepted :
      (l : Line) (s : State F)
      → l.code ≡ c_range
      → Accepted l.second s (parse_args R scanf l.code l s)
  range_args-Accepted l s h = elim (Bool-cases l.bare) [
    | inl e ↦ rw (h, parse_args, e) (refused _ _ refl)
    | inr e ↦ elim (Bool-cases (has_file R scanf s)) [
      | inl f ↦ rw (h, parse_args, e, f) (two_ints-Accepted l s)
      | inr f ↦ rw (h, parse_args, e, f) (refused _ _ refl)
    ]
  ]

  from_buffer-Accepted :
      (b : List ℕ) (s : State F)
      → (split_line (strip b)).code ≡ c_range
      → Accepted (split_line (strip b)).second s (from_buffer R scanf b (strip b) s)
  unfolding split_line strip code_of
  from_buffer-Accepted [] s h = cc
  from_buffer-Accepted (c ∷ cs) s h = range_args-Accepted (split_line (strip (c ∷ cs))) s h

  get_new_command-Accepted :
      (text : List ℕ) (s : State F)
      → (split_line (line_of text)).code ≡ c_range
      → Accepted (split_line (line_of text)).second s (get_new_command R scanf text s)
  unfolding get_new_command
  get_new_command-Accepted text s h =
      from_buffer-Accepted (until_nul (fgets (max_line - 1) text)) s h

  module _ (prepare_demfile : List ℕ → Option (Demfile F)) (now : F) where
    do_command-done :
        (c : Command F) (s : State F)
        → c.to_do ≡ false
        → do_command R prepare_demfile now c s ≡ some s
    unfolding do_command
    do_command-done c s h = rw h

    -- What a line of a range command comes to: a crash, if it has no second word, or a command that is
    -- carried out.
    abbrev pub Carried : Line → Got F → Type 0
    Carried l no_command = ⊥
    Carried l crashes = l.second ≡ none
    Carried l (gets s c) = (s' : State F) × (do_command R prepare_demfile now c s ≡ some s')

    Accepted-Carried :
        (l : Line) (s : State F) (g : Got F)
        → s.inter ≡ false
        → s.range_running ≡ pos 0
        → Accepted l.second s g
        → Carried l g
    Accepted-Carried l s _ hi hr (refused s' c done) = (_, do_command-done c s' done)
    Accepted-Carried l s _ hi hr (has_crashed missing) = missing
    Accepted-Carried l s _ hi hr (two_frames d i j hd li lj) =
        let (s', w, c, f, shown) =
          do_command-range R prepare_demfile now d i j R.zero_f [] s hd li lj hi hr in
        (finish R now s', c)

    -- Outside the interactive mode, with no range running, a line of the text that is a range command
    -- is read, and what it says is carried out to the end and reads no frame outside the current
    -- file; only a line without a second word may crash the program, as `sscanf` gets NULL.
    pub range_line-safe :
        (text : List ℕ) (s : State F)
        → (split_line (line_of text)).code ≡ c_range
        → s.inter ≡ false
        → s.range_running ≡ pos 0
        → Carried (split_line (line_of text)) (get_new_command R scanf text s)
    range_line-safe text s h hi hr =
        Accepted-Carried (split_line (line_of text)) s (get_new_command R scanf text s) hi hr
          (get_new_command-Accepted text s h)
