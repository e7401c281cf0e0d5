-- ===== src/Demcut/Output.antt =====
-- src/demcut.c: opening and closing the output, writing a frame, and the running range.
-- A step that reads outside the arrays of frames is `none`.
use lmpc.Base.{
  ℕ, zero, suc, ◌+◌, Bool, true, false, not, List, [], ◌∷◌, ◌++◌, Option, none, some, length, ltb,
  ◌==◌, if◌then◌else◌, map,
}
use lmpc.Base.Int.{ℤ, pos, ◌+ℤ◌, ◌-ℤ◌, pos_part, neg_part}
use lmpc.Demcut.State.{
  Real, Message, camera, time, signonnum, disconnect, updatename, updatecolors, other, Frame,
  Report, range_is, running_is, block, State, current_demfile, frame_at,
}

-- `a == b` and `a != 0` of two `int`s.
abbrev pub eq_ℤ : ℤ → ℤ → Bool
eq_ℤ a b = pos_part a + neg_part b == pos_part b + neg_part a

abbrev pub nonzero_ℤ : ℤ → Bool
nonzero_ℤ a = not (pos_part a + neg_part a == 0)

-- `print_post_command`, which is silent until the start is over.
unfoldable pub print : {F : Type 0} → Report → State F → State F
print r s = if s.allow_output then record s { printed = s.printed ++ (r ∷ []) } else s

module _ {F : Type 0} (R : Real F) where
  open R use {zero_f, add, mul}

  unfoldable pub open_output : State F → State F
  open_output s = if s.output_dem then s else record s {
    output_dem = true;
    a1 = zero_f;
    a2 = zero_f;
    a3 = zero_f;
    repeatable_frame = false;
  }

  unfoldable pub close_output : State F → State F
  close_output s =
      if s.output_dem then record s { output_dem = false; repeatable_frame = false } else s

  -- `n->down->next != NULL`: something stands behind the camera.
  abbrev pub worth_writing : List (Message F) → Bool
  worth_writing ms = ltb 1 (length ms)

  unfoldable pub do_write_frame : List (Message F) → State F → State F
  do_write_frame ms s =
      let s' = open_output s in
      if worth_writing ms then record s' { output = s'.output ++ (block ms ∷ []) } else s

  -- What the loop over the messages does at one of them: the message as it is written, and the
  -- state that remembers the camera and forbids a repetition.
  unfoldable pub edit_message : Message F → State F → Message F
  edit_message (time t) s = time s.time
  edit_message (camera x y z) s = camera x y z
  edit_message (signonnum n) s = signonnum n
  edit_message disconnect s = disconnect
  edit_message (updatename n t) s = updatename n t
  edit_message (updatecolors n c) s = updatecolors n c
  edit_message (other n) s = other n

  unfoldable pub note_message : Message F → State F → State F
  note_message (camera x y z) s = record s { a1 = x; a2 = y; a3 = z }
  note_message (signonnum n) s = record s { repeatable_frame = false }
  note_message disconnect s = record s { repeatable_frame = false }
  note_message (time t) s = s
  note_message (updatename n t) s = s
  note_message (updatecolors n c) s = s
  note_message (other n) s = s

  unfoldable pub note_messages : List (Message F) → State F → State F
  note_messages [] s = s
  note_messages (m ∷ ms) s = note_messages ms (note_message m s)

  -- One of the `loop` rounds: the messages are edited and written, and the time moves on. `now` is
  -- what `basetime` returns in the round.
  unfoldable pub write_round : F → Frame F → List (Message F) → State F → State F
  write_round now f ms s =
      let edited = map (λ m. edit_message m s) ms in
      let s' = do_write_frame edited (note_messages ms s) in
      record s' {
        time = add s'.time (mul s'.scale f.timelength);
        realtime = add now (mul s'.scale f.timelength);
      }

  unfoldable pub write_rounds : ℕ → F → Frame F → List (Message F) → State F → State F
  write_rounds zero now f ms s = s
  write_rounds (suc k) now f ms s =
      write_rounds k now f (map (λ m. edit_message m s) ms) (write_round now f ms s)

  unfoldable pub write_frame : F → State F → Option (State F)
  write_frame now s = elim (current_demfile s) [
    | none ↦ none
    | some d ↦ elim (frame_at d s.frame) [
      | none ↦ none
      | some f ↦ some (write_rounds s.loop now f f.block (record s { repeatable_frame = true }))
    ]
  ]

  unfoldable pub write_next_range_frame : F → State F → Option (State F)
  write_next_range_frame now s = elim (write_frame now s) [
    | none ↦ none
    | some s' ↦
        let stopped = record s' { range_running = pos 0 } in
        let told = if stopped.inter then print (running_is (pos 0)) stopped else stopped in
        some (
          if eq_ℤ s'.frame s'.range_end
          then print (range_is s'.range_start s'.range_end) told
          else record s' { frame = s'.frame +ℤ s'.range_direction })
  ]

  unfoldable pub stop_running_range : State F → State F
  stop_running_range s =
      let stopped = record s { range_running = pos 0 } in
      let told = if s.inter then print (running_is (pos 0)) stopped else stopped in
      let ended = record told { range_end = told.frame -ℤ told.range_direction } in
      let reported = print (range_is ended.range_start ended.range_end) ended in
      if nonzero_ℤ s.range_running then record reported { frame = reported.range_end } else s

  -- `while (state->range_running) write_next_range_frame(state);` with fuel.
  unfoldable pub run_range : ℕ → F → State F → Option (State F)
  run_range zero now s = none
  run_range (suc k) now s =
      let next : Option (State F) = elim (write_next_range_frame now s) [
        | none ↦ none
        | some s' ↦ run_range k now s'
      ] in
      if nonzero_ℤ s.range_running then next else some s
