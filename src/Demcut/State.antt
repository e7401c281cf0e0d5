-- ===== src/Demcut/State.antt =====
-- src/demcut.c: the state of the program, its messages, files and reports.
use lmpc.Base.{ℕ, List, Option, Bool, get_elem?, none}
use lmpc.Base.Int.{ℤ, pos, negsuc}

-- The arithmetic of `float` and `double` that the program uses.
pub record Real (F : Type 0) : Type 0 where
  pub zero_f : F
  pub one_f : F
  pub add : F → F → F
  pub mul : F → F → F
  pub div : F → F → F
  pub le : F → F → Bool

-- A message below a block: those that the program looks at, by their tokens.
pub data Message (F : Type 0) : Type 0 where
  camera : F → F → F → Message F
  time : F → Message F
  signonnum : ℕ → Message F
  disconnect : Message F
  updatename : ℕ → List ℕ → Message F
  updatecolors : ℕ → ℕ → Message F
  other : ℕ → Message F

-- FRAME_t, with the block that stands at its `seekpos`; `timestart` and `timeend` serve to print.
pub record Frame (F : Type 0) : Type 0 where
  pub timelength : F
  pub multientry : Bool
  pub block : List (Message F)

-- DEMFILE_t
pub record Demfile (F : Type 0) : Type 0 where
  pub filename : List ℕ
  pub frames : List (Frame F)

-- The characters of the commands.
pub data Code : Type 0 where
  c_comment c_demfile c_frame c_quit c_range c_range_running c_output c_speed : Code
  c_cdtrack c_time c_help c_loop c_multi c_inter c_prompt c_warranty c_unknown : Code

-- What is printed: what the state says of a command's subject at that moment, with the values of a
-- range where a running range prints them, or an error.
pub data Report : Type 0 where
  subject : Code → Report
  range_is : ℤ → ℤ → Report
  running_is : ℤ → Report
  bad_demfile : Report
  unknown_command : Report
  no_demfile : Report
  cannot_interpret : Report
  out_of_range : Report

-- What goes to an output file.
pub data Written (F : Type 0) : Type 0 where
  block : List (Message F) → Written F
  track : List ℕ → Written F

-- STATE_t. `output_dem` is whether the output is open, and `output` what has been written to all
-- outputs; `scale` is 1 / speed.
pub record State (F : Type 0) : Type 0 where
  pub frame : ℤ
  pub range_start : ℤ
  pub range_end : ℤ
  pub range_direction : ℤ
  pub range_running : ℤ
  pub multi_start : ℤ
  pub multi_end : ℤ
  pub speed : F
  pub scale : F
  pub output_dem : Bool
  pub output_filename : List ℕ
  pub demfile : ℕ
  pub demfiles : List (Demfile F)
  pub cdtrack : List ℕ
  pub time : F
  pub loop : ℕ
  pub a1 : F
  pub a2 : F
  pub a3 : F
  pub inter : Bool
  pub prompt : Bool
  pub realtime : F
  pub repeatable_frame : Bool
  pub allow_output : Bool
  pub output : List (Written F)
  pub printed : List Report

-- `state->demfiles[state->demfile]` and its frame of a number; `none` is an access outside the
-- arrays, which C leaves undefined.
unfoldable pub current_demfile : {F : Type 0} → State F → Option (Demfile F)
current_demfile s = get_elem? s.demfiles s.demfile

unfoldable pub frame_at : {F : Type 0} → Demfile F → ℤ → Option (Frame F)
frame_at d (pos n) = get_elem? d.frames n
frame_at d (negsuc n) = none
