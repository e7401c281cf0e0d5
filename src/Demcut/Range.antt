-- ===== src/Demcut/Range.antt =====
-- src/demcut.c: what writing frames leaves alone.
use lmpc.Base.{
  ℕ, zero, suc, Bool, true, List, [], ◌∷◌, some, map, ◌≡◌, refl, ◌∙◌, Bool-cases, inl, inr,
}
use lmpc.Base.Int.{ℤ}
use lmpc.Demcut.State.{
  Real, Message, camera, time, signonnum, disconnect, updatename, updatecolors, other, Frame,
  Demfile, State, current_demfile, frame_at, Report,
}
use lmpc.Demcut.Output.{
  open_output, do_write_frame, worth_writing, edit_message, note_message, note_messages,
  write_round, write_rounds, write_frame,
}

-- The part of the state that says where a range stands.
pub record Place (F : Type 0) : Type 0 where
  pub frame : ℤ
  pub range_start : ℤ
  pub range_end : ℤ
  pub range_direction : ℤ
  pub range_running : ℤ
  pub inter : Bool
  pub allow_output : Bool
  pub demfile : ℕ
  pub demfiles : List (Demfile F)
  pub printed : List Report

abbrev pub place : {F : Type 0} → State F → Place F
place s = record {
  frame = s.frame;
  range_start = s.range_start;
  range_end = s.range_end;
  range_direction = s.range_direction;
  range_running = s.range_running;
  inter = s.inter;
  allow_output = s.allow_output;
  demfile = s.demfile;
  demfiles = s.demfiles;
  printed = s.printed;
}

module _ {F : Type 0} (R : Real F) where
  open_output-place : (s : State F) → place (open_output R s) ≡ place s
  unfolding open_output
  open_output-place s = elim (Bool-cases s.output_dem) [ inl e ↦ rw e | inr e ↦ rw e ]

  do_write_frame-place :
      (ms : List (Message F)) (s : State F) → place (do_write_frame R ms s) ≡ place s
  unfolding do_write_frame
  do_write_frame-place ms s = elim (Bool-cases (worth_writing R ms)) [
    | inl e ↦ rw (e, open_output-place s)
    | inr e ↦ rw e
  ]

  note_message-place : (m : Message F) (s : State F) → place (note_message R m s) ≡ place s
  unfolding note_message
  note_message-place (camera x y z) s = refl
  note_message-place (signonnum n) s = refl
  note_message-place disconnect s = refl
  note_message-place (time t) s = refl
  note_message-place (updatename n t) s = refl
  note_message-place (updatecolors n c) s = refl
  note_message-place (other n) s = refl

  note_messages-place :
      (ms : List (Message F)) (s : State F) → place (note_messages R ms s) ≡ place s
  unfolding note_messages
  note_messages-place [] s = refl
  note_messages-place (m ∷ ms) s =
      note_messages-place ms (note_message R m s) ∙ note_message-place m s

  write_round-place :
      (now : F) (f : Frame F) (ms : List (Message F)) (s : State F)
      → place (write_round R now f ms s) ≡ place s
  unfolding write_round
  write_round-place now f ms s =
      do_write_frame-place (map (λ m. edit_message R m s) ms) (note_messages R ms s)
      ∙ note_messages-place ms s

  pub write_rounds-place :
      (k : ℕ) (now : F) (f : Frame F) (ms : List (Message F)) (s : State F)
      → place (write_rounds R k now f ms s) ≡ place s
  unfolding write_rounds
  write_rounds-place zero now f ms s = refl
  write_rounds-place (suc k) now f ms s =
      write_rounds-place k now f (map (λ m. edit_message R m s) ms) (write_round R now f ms s)
      ∙ write_round-place now f ms s

  -- A frame inside the file is written.
  pub write_frame-some :
      (now : F) (d : Demfile F) (f : Frame F) (s : State F)
      → current_demfile s ≡ some d
      → frame_at d s.frame ≡ some f
      → (s' : State F) × (write_frame R now s ≡ some s') × (place s' ≡ place s)
  unfolding write_frame
  write_frame-some now d f s h g =
      let start = record s { repeatable_frame = true } in
      (
        write_rounds R s.loop now f f.block start,
        rw (h, g, write_frame),
        write_rounds-place s.loop now f f.block start,
      )
