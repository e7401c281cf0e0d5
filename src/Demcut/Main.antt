-- ===== src/Demcut/Main.antt =====
-- src/demcut.c, `main`: the state behind the set-up, and a round of the main loop in which there is no
-- command to read.
use lmpc.Base.{
  ℕ, Bool, true, false, ◌&&◌, List, [], ◌∷◌, Option, some, length, if◌then◌else◌, ◌≡◌, sym, ap, ◌∙◌,
  ◌<◌, ◌⊎◌, inl, inr, Bool-cases, All, get_elem?, arith,
}
use mathlib.Core.Path.{subst}
use lmpc.Base.Int.{pos, ◌+ℤ◌}
use lmpc.Demcut.State.{
  Real, Demfile, State, Frame, frame_at, current_demfile, range_is, running_is, Report,
}
use lmpc.Demcut.Output.{nonzero_ℤ, print, write_frame, write_next_range_frame}
use lmpc.Demcut.Range.{place, write_frame-some}
use lmpc.Demcut.Film.{tape, rolled, print-tape, write_frame-tape}
use lmpc.Demcut.Loop.{Walk, inner_frame, frame_in, eq_pos}

chosen {ℓ} :
    {A : Type ℓ} (a b c : Bool) (x y : A)
    → a ≡ true
    → b ≡ true
    → c ≡ true
    → (if a && (b && c) then x else y) ≡ x
chosen a b c x y ha hb hc = rw (ha, hb, hc)

module _ {F : Type 0} (R : Real F) where
  open R use {le}

  -- `now` is what `basetime` returns in the round.
  unfoldable pub idle : F → State F → Option (State F)
  idle now s =
      let due = le s.realtime now in
      if s.inter && (nonzero_ℤ s.range_running && due)
      then write_next_range_frame R now s
      else if s.inter && (s.repeatable_frame && due)
      then write_frame R now s
      else some s

  -- An interactive range stands at frame i, and the frames `is` come behind it, to the end e.
  abbrev pub Running : Demfile F → ℕ → ℕ → List ℕ → State F → Type 0
  Running d i e is s =
      (current_demfile s ≡ some d)
      × (s.frame ≡ pos i)
      × (s.range_end ≡ pos e)
      × (s.inter ≡ true)
      × (nonzero_ℤ s.range_running ≡ true)
      × Walk s.range_direction e (i ∷ is)
      × All (λ j. j < length d.frames) (i ∷ is)

  -- What a written frame leads to: the next frame, or behind the last the end of the range.
  abbrev pub Next : Demfile F → ℕ → List ℕ → State F → Type 0
  Next d e [] s = (s.range_running ≡ pos 0) × (s.frame ≡ pos e)
  Next d e (j ∷ js) s = Running d j e js s

  idle_early : (now : F) (s : State F) → le s.realtime now ≡ false → idle now s ≡ some s
  unfolding idle
  idle_early now s early = elim (Bool-cases s.inter) [ inl e ↦ ground arith | inr e ↦ ground arith ]

  idle_due :
      (now : F) (s : State F)
      → s.inter ≡ true
      → nonzero_ℤ s.range_running ≡ true
      → le s.realtime now ≡ true
      → idle now s ≡ write_next_range_frame R now s
  unfolding idle
  idle_due now s hi hr due =
      chosen s.inter (nonzero_ℤ s.range_running) (le s.realtime now) _ _ hi hr due

  print-frame : (r : Report) (s : State F) → (print r s).frame ≡ s.frame
  unfolding print
  print-frame r s = elim (Bool-cases s.allow_output) [ inl e ↦ rw e | inr e ↦ rw e ]

  print-running : (r : Report) (s : State F) → (print r s).range_running ≡ s.range_running
  unfolding print
  print-running r s = elim (Bool-cases s.allow_output) [ inl e ↦ rw e | inr e ↦ rw e ]

  abbrev written : State F → State F
  written s =
      print (range_is s.range_start s.range_end)
        (print (running_is (pos 0)) (record s { range_running = pos 0 }))

  last_written :
      (e : ℕ) (now : F) (s s' : State F)
      → write_frame R now s ≡ some s'
      → place s' ≡ place s
      → s.frame ≡ pos e
      → s.range_end ≡ pos e
      → s.inter ≡ true
      → write_next_range_frame R now s ≡ some (written s')
  unfolding write_next_range_frame
  last_written e now s s' w p he hr hi = rw (
    w,
    write_next_range_frame,
    ap (λ p. p.inter) p,
    hi,
    ap (λ p. p.frame) p,
    he,
    ap (λ p. p.range_end) p,
    hr,
    eq_pos e,
  )

  written-frame : (s : State F) → (written s).frame ≡ s.frame
  written-frame s =
      let stopped = record s { range_running = pos 0 } in
      print-frame (range_is s.range_start s.range_end) (print (running_is (pos 0)) stopped)
      ∙ print-frame (running_is (pos 0)) stopped

  written-running : (s : State F) → (written s).range_running ≡ pos 0
  written-running s =
      let stopped = record s { range_running = pos 0 } in
      print-running (range_is s.range_start s.range_end) (print (running_is (pos 0)) stopped)
      ∙ print-running (running_is (pos 0)) stopped

  -- The frame i is put out as often as the loop says.
  abbrev pub Shown : Demfile F → ℕ → State F → State F → Type 0
  Shown d i s s' =
      (f : Frame F) × (get_elem? d.frames i ≡ some f)
      × (tape s' ≡ rolled R s.loop f f.block (tape s))

  written-tape : (s : State F) → tape (written s) ≡ tape s
  written-tape s =
      let stopped = record s { range_running = pos 0 } in
      print-tape R (range_is s.range_start s.range_end) (print (running_is (pos 0)) stopped)
      ∙ print-tape R (running_is (pos 0)) stopped

  in_file :
      (d : Demfile F) (i : ℕ) (s : State F) (f : Frame F)
      → s.frame ≡ pos i
      → frame_at d s.frame ≡ some f
      → get_elem? d.frames i ≡ some f
  unfolding frame_at
  in_file d i s f hf g = ap (λ z. frame_at d z) (sym hf) ∙ g

  last_or_inner-Next :
      (now : F) (d : Demfile F) (i e : ℕ) (is : List ℕ) (s : State F)
      → Running d i e is s
      → (s' : State F) × (write_next_range_frame R now s ≡ some s')
        × Next d e is s'
        × Shown d i s s'
  unfolding current_demfile
  last_or_inner-Next now d i e [] s (h, hf, he, hi, hr, hw, (l, _)) =
      let (f, g) = frame_in R now d i s hf l in
      let (s', w, p) = write_frame-some R now d f s h g in
      (
        written s',
        last_written e now s s' w p (hf ∙ ap pos hw) he hi,
        (written-running s', written-frame s' ∙ ap (λ p. p.frame) p ∙ hf ∙ ap pos hw),
        (f, in_file d i s f hf g, written-tape s' ∙ write_frame-tape R now d f s s' h g w),
      )
  last_or_inner-Next now d i e (j ∷ js) s (h, hf, he, hi, hr, (ne, hj, hw), (l, al)) =
      let (f, g) = frame_in R now d i s hf l in
      let (s', w, p) = write_frame-some R now d f s h g in
      (
        record s' { frame = s'.frame +ℤ s'.range_direction },
        inner_frame R now i e s s' w p hf he ne,
        (
          ap (λ p. get_elem? p.demfiles p.demfile) p ∙ h,
          ap (λ p. p.frame +ℤ p.range_direction) p ∙ ap (λ z. z +ℤ s.range_direction) hf ∙ hj,
          ap (λ p. p.range_end) p ∙ he,
          ap (λ p. p.inter) p ∙ hi,
          ap (λ p. nonzero_ℤ p.range_running) p ∙ hr,
          subst (λ z. Walk z e (j ∷ js)) (sym (ap (λ p. p.range_direction) p)) hw,
          al,
        ),
        (f, in_file d i s f hf g, write_frame-tape R now d f s s' h g w),
      )

  -- While an interactive range runs inside the current file, a round of the main loop without a
  -- command reads no frame outside the file: it waits, the state as it is, until the time of the
  -- frame has come, and then puts it out, its block as often as the loop says and with the time of
  -- the output in it, if anything stands behind its camera, and goes to the next frame of the range, or behind the last
  -- one stops the range, with that frame selected.
  pub idle-Running :
      (now : F) (d : Demfile F) (i e : ℕ) (is : List ℕ) (s : State F)
      → Running d i e is s
      → ((le s.realtime now ≡ false) × (idle now s ≡ some s))
        ⊎ ((le s.realtime now ≡ true)
            × ((s' : State F) × (idle now s ≡ some s') × Next d e is s' × Shown d i s s'))
  unfolding idle
  idle-Running now d i e is s run = elim (Bool-cases (le s.realtime now)) [
    | inl due ↦
        let (s', w, next, shown) = last_or_inner-Next now d i e is s run in
        inr (due, (s', idle_due now s run.3 run.4 due ∙ w, next, shown))
    | inr early ↦ inl (early, idle_early now s early)
  ]
