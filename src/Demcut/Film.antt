-- ===== src/Demcut/Film.antt =====
-- src/demcut.c: what writing frames puts into the output, described apart from the code.
use mathlib.Core.List.{append_assoc}
use lmpc.Base.{
  ℕ, zero, suc, ◌<◌, List, [], ◌∷◌, ◌++◌, none, some, length, map, All, ◌≡◌, refl, sym, ap, ◌∙◌,
  Bool-cases, inl, inr, get_elem?, arith, true,
}
use lmpc.Base.Int.{pos}
use lmpc.Demcut.State.{
  Real, Message, camera, time, signonnum, disconnect, updatename, updatecolors, other, Frame,
  Demfile, State, Written, block, current_demfile, frame_at, Report,
}
use lmpc.Demcut.Output.{
  print, open_output, do_write_frame, worth_writing, edit_message, note_message, note_messages,
  write_round, write_rounds, write_frame,
}
use lmpc.Demcut.Loop.{write_all, get_elem?-some}
use lmpc.Demcut.Range.{write_frame-some}

-- What has been written, the time at which the output stands, and how it is set to go on.
pub record Tape (F : Type 0) : Type 0 where
  pub output : List (Written F)
  pub time : F
  pub loop : ℕ
  pub scale : F

abbrev pub tape : {F : Type 0} → State F → Tape F
tape s = record { output = s.output; time = s.time; loop = s.loop; scale = s.scale }

-- A block is written where something stands behind its camera.
abbrev pub shot : {F : Type 0} → List (Message F) → List (Written F)
shot [] = []
shot (m ∷ []) = []
shot (m ∷ n ∷ ms) = block (m ∷ n ∷ ms) ∷ []

-- A message with the time of the output.
abbrev pub stamped : {F : Type 0} → F → Message F → Message F
stamped t (time u) = time t
stamped t (camera x y z) = camera x y z
stamped t (signonnum n) = signonnum n
stamped t disconnect = disconnect
stamped t (updatename n s) = updatename n s
stamped t (updatecolors n c) = updatecolors n c
stamped t (other n) = other n

module _ {F : Type 0} (R : Real F) where
  open R use {add, mul}

  -- A block as often as asked for, the time moved on by `step` from one to the next.
  abbrev pub shots : ℕ → F → F → List (Message F) → List (Written F)
  shots zero t step ms = []
  shots (suc k) t step ms = shot (map (stamped t) ms) ++ shots k (add t step) step ms

  abbrev pub later : ℕ → F → F → F
  later zero t step = t
  later (suc k) t step = later k (add t step) step

  abbrev pub rolled : ℕ → Frame F → List (Message F) → Tape F → Tape F
  rolled k f ms T = record T {
    output = T.output ++ shots k T.time (mul T.scale f.timelength) ms;
    time = later k T.time (mul T.scale f.timelength);
  }

  -- The frames of a list, each as often as the loop says.
  abbrev pub film : Demfile F → List ℕ → Tape F → Tape F
  film d [] T = T
  film d (i ∷ is) T = elim (get_elem? d.frames i) [
    | none ↦ film d is T
    | some f ↦ film d is (rolled T.loop f f.block T)
  ]

  pub print-tape : (r : Report) (s : State F) → tape (print r s) ≡ tape s
  unfolding print
  print-tape r s = elim (Bool-cases s.allow_output) [ inl e ↦ rw e | inr e ↦ rw e ]

  note_message-tape : (m : Message F) (s : State F) → tape (note_message R m s) ≡ tape s
  unfolding note_message
  note_message-tape (camera x y z) s = refl
  note_message-tape (signonnum n) s = refl
  note_message-tape disconnect s = refl
  note_message-tape (time t) s = refl
  note_message-tape (updatename n t) s = refl
  note_message-tape (updatecolors n c) s = refl
  note_message-tape (other n) s = refl

  note_messages-tape : (ms : List (Message F)) (s : State F) → tape (note_messages R ms s) ≡ tape s
  unfolding note_messages
  note_messages-tape [] s = refl
  note_messages-tape (m ∷ ms) s = note_messages-tape ms (note_message R m s) ∙ note_message-tape m s

  open_output-tape : (s : State F) → tape (open_output R s) ≡ tape s
  unfolding open_output
  open_output-tape s = elim (Bool-cases s.output_dem) [ inl e ↦ rw e | inr e ↦ rw e ]

  append_nil : (xs : List (Written F)) → xs ++ [] ≡ xs
  append_nil [] = refl
  append_nil (x ∷ xs) = ap (λ l. x ∷ l) (append_nil xs)

  abbrev taken : List (Message F) → Tape F → Tape F
  taken ms T = record T { output = T.output ++ shot ms }

  pub do_write_frame-tape :
      (ms : List (Message F)) (s : State F) → tape (do_write_frame R ms s) ≡ taken ms (tape s)
  unfolding do_write_frame
  do_write_frame-tape [] s = ap (λ o. record (tape s) { output = o }) (sym (append_nil s.output))
  do_write_frame-tape (m ∷ []) s =
      ap (λ o. record (tape s) { output = o }) (sym (append_nil s.output))
  do_write_frame-tape (m ∷ n ∷ ms) s =
      let worth : worth_writing R (m ∷ n ∷ ms) ≡ true = ground arith in
      rw worth (ap (taken (m ∷ n ∷ ms)) (open_output-tape s))

  edit_message-stamped : (s : State F) (m : Message F) → edit_message R m s ≡ stamped s.time m
  unfolding edit_message
  edit_message-stamped s (time t) = refl
  edit_message-stamped s (camera x y z) = refl
  edit_message-stamped s (signonnum n) = refl
  edit_message-stamped s disconnect = refl
  edit_message-stamped s (updatename n t) = refl
  edit_message-stamped s (updatecolors n c) = refl
  edit_message-stamped s (other n) = refl

  stamped_twice : (t u : F) (m : Message F) → stamped t (stamped u m) ≡ stamped t m
  stamped_twice t u (time v) = refl
  stamped_twice t u (camera x y z) = refl
  stamped_twice t u (signonnum n) = refl
  stamped_twice t u disconnect = refl
  stamped_twice t u (updatename n s) = refl
  stamped_twice t u (updatecolors n c) = refl
  stamped_twice t u (other n) = refl

  edited :
      (s : State F) (ms : List (Message F))
      → map (λ m. edit_message R m s) ms ≡ map (stamped s.time) ms
  edited s [] = refl
  edited s (m ∷ ms) = rw (edit_message-stamped s m, edited s ms)

  all_twice :
      (t u : F) (ms : List (Message F)) → map (stamped t) (map (stamped u) ms) ≡ map (stamped t) ms
  all_twice t u [] = refl
  all_twice t u (m ∷ ms) = rw (stamped_twice t u m, all_twice t u ms)

  shots-stamped :
      (k : ℕ) (t step u : F) (ms : List (Message F))
      → shots k t step (map (stamped u) ms) ≡ shots k t step ms
  shots-stamped zero t step u ms = refl
  shots-stamped (suc k) t step u ms = rw (all_twice t u ms, shots-stamped k (add t step) step u ms)

  write_round-tape :
      (now : F) (f : Frame F) (ms : List (Message F)) (s : State F)
      → tape (write_round R now f ms s) ≡ rolled 1 f ms (tape s)
  unfolding write_round
  write_round-tape now f ms s =
      let edits = map (λ m. edit_message R m s) ms in
      ap {A = Tape F} (λ T. record T { time = add T.time (mul T.scale f.timelength) })
        (do_write_frame-tape edits (note_messages R ms s)
          ∙ ap (taken edits) (note_messages-tape ms s)
          ∙ ap (λ e. taken e (tape s)) (edited s ms)
          ∙ ap (λ o. record (tape s) { output = s.output ++ o })
              (sym (append_nil (shot (map (stamped s.time) ms)))))

  write_rounds-tape :
      (k : ℕ) (now : F) (f : Frame F) (ms : List (Message F)) (s : State F)
      → tape (write_rounds R k now f ms s) ≡ rolled k f ms (tape s)
  unfolding write_rounds
  write_rounds-tape zero now f ms s =
      ap (λ o. record (tape s) { output = o }) (sym (append_nil s.output))
  write_rounds-tape (suc k) now f ms s =
      let step = mul s.scale f.timelength in
      let first = shot (map (stamped s.time) ms) in
      let T = record (tape s) { output = s.output ++ first ++ []; time = add s.time step } in
      write_rounds-tape k now f (map (λ m. edit_message R m s) ms) (write_round R now f ms s)
      ∙ ap (λ e. rolled k f e (tape (write_round R now f ms s))) (edited s ms)
      ∙ ap (rolled k f (map (stamped s.time) ms)) (write_round-tape now f ms s)
      ∙ ap (λ o. record (tape s) { output = o; time = later k (add s.time step) step })
          (ap (λ l. (s.output ++ l) ++ shots k (add s.time step) step (map (stamped s.time) ms))
              (append_nil first)
            ∙ ap (λ l. (s.output ++ first) ++ l) (shots-stamped k (add s.time step) step s.time ms)
            ∙ append_assoc s.output first (shots k (add s.time step) step ms))

  -- A frame is written as often as the loop says.
  pub write_frame-tape :
      (now : F) (d : Demfile F) (f : Frame F) (s s' : State F)
      → current_demfile s ≡ some d
      → frame_at d s.frame ≡ some f
      → write_frame R now s ≡ some s'
      → tape s' ≡ rolled s.loop f f.block (tape s)
  unfolding write_frame
  write_frame-tape now d f s s' h g w =
      let start = record s { repeatable_frame = true } in
      let same : some (write_rounds R s.loop now f f.block start) ≡ some s' =
        rw (h, g, write_frame) at w in
      let e : write_rounds R s.loop now f f.block start ≡ s' = cc in
      ap tape (sym e) ∙ write_rounds-tape s.loop now f f.block start

  frame_shown :
      (d : Demfile F) (i : ℕ) (is : List ℕ) (f : Frame F) (T : Tape F)
      → get_elem? d.frames i ≡ some f
      → film d (i ∷ is) T ≡ film d is (rolled T.loop f f.block T)
  frame_shown d i is f T g = rw (g, film)

  -- What selecting and writing the frames of a list, one after the other, puts out.
  pub write_all-tape :
      (now : F) (d : Demfile F) (is : List ℕ) (s s' : State F)
      → current_demfile s ≡ some d
      → All (λ k. k < length d.frames) is
      → write_all R now is s ≡ some s'
      → tape s' ≡ film d is (tape s)
  unfolding write_all current_demfile
  write_all-tape now d [] s s' h al w = let same : s ≡ s' = cc in ap tape (sym same)
  write_all-tape now d (i ∷ is) s s' h (l, al) w =
      let (f, g) = get_elem?-some d.frames i l in
      let here = record s { frame = pos i } in
      let (s1, w1, p) = write_frame-some R now d f here h (unfold frame_at in g) in
      let rest : write_all R now is s1 ≡ some s' = rw (w1, write_all) at w in
      write_all-tape now d is s1 s' (ap (λ p. get_elem? p.demfiles p.demfile) p ∙ h) al rest
      ∙ ap (film d is) (write_frame-tape now d f here s1 h (unfold frame_at in g) w1)
      ∙ sym (frame_shown d i is f (tape s) g)
