-- ===== src/Examples/Cutter.antt =====
-- Tests of src/demcut.c, with whole numbers for its floating-point numbers.
use lmpc.Base.{◌-◌, ◌==◌, ◌++◌, length, if◌then◌else◌, get_or}
use lmpc.Base.{
  ℕ, zero, suc, ◌+◌, ◌*◌, ◌/◌, leb, true, false, Option, none, some, List, [], ◌∷◌, ◌≡◌, ◌≢◌, ◌⊎◌,
  refl, arith, ap, sym, ◌∙◌,
}
use lmpc.Base.Int.{◌+ℤ◌, pos}
use lmpc.Demcut.State.{
  Real, camera, time, other, updatename, updatecolors, Frame, Demfile, State, current_demfile,
  c_cdtrack, c_range,
}
use lmpc.Demcut.Track.{print_track, ends_in_space}
use lmpc.Demcut.Printed.{get_new_command-print_track}
use lmpc.Demcut.Command.{
  Scanf, command, gets, crashes, get_new_command, fgets, strip, strsep, code_of, split_line,
  line_of, in_frames,
}
use lmpc.Binblock.Text.{until_nul}
use lmpc.Demcut.Film.{tape, film}
use lmpc.Demcut.Film
use lmpc.Demcut.Dispatch.{do_command}
use lmpc.Demcut.Loop.{write_all, between, finish}
use lmpc.Demcut.Cut.{selected, range_command, do_command-range}
use lmpc.Demcut.Multi.{told, Marked, multi_command, names_and_colours, do_command-multi}
use lmpc.Demcut.Main.{idle, Running, Next, Shown, idle-Running}
use lmpc.Demcut.Safe.{Carried, range_line-safe}

true≢false : true ≢ false
true≢false e = ground arith

abbrev whole : Real ℕ
whole = record {
  zero_f = 0;
  one_f = 1;
  add = λ a b. a + b;
  mul = λ a b. a * b;
  div = λ a b. a / b;
  le = leb;
}

abbrev shot : ℕ → Frame ℕ
shot n = record { timelength = 2; multientry = false; block = camera 1 2 3 ∷ time 0 ∷ other n ∷ [] }

abbrev movie : Demfile ℕ
movie = record { filename = 109 ∷ []; frames = shot 0 ∷ shot 1 ∷ shot 2 ∷ [] }

abbrev no_file : List ℕ → Option (Demfile ℕ)
no_file name = none

-- The state in which the program waits for its first command.
abbrev ready : State ℕ
ready = record {
  frame = pos 0;
  range_start = pos 0;
  range_end = pos 2;
  range_direction = pos 0;
  range_running = pos 0;
  multi_start = pos 0;
  multi_end = pos 2;
  speed = 1;
  scale = 1;
  output_dem = false;
  output_filename = 111 ∷ [];
  demfile = 0;
  demfiles = movie ∷ [];
  cdtrack = 45 ∷ 49 ∷ 10 ∷ [];
  time = 0;
  loop = 1;
  a1 = 0;
  a2 = 0;
  a3 = 0;
  inter = false;
  prompt = true;
  realtime = 0;
  repeatable_frame = false;
  allow_output = true;
  output = [];
  printed = [];
}

-- The frames 2, 1 and 0, in this order.
do_command-range_example :
    (s' : State ℕ) × (write_all whole 7 (between 2 0) (selected 2 0 ready) ≡ some s')
    × (do_command whole no_file 7 (range_command 2 0 0 []) ready ≡ some (finish whole 7 s'))
    × (s'.frame ≡ pos 0)
    × (tape (finish whole 7 s') ≡ film whole movie (between 2 0) (tape ready))
do_command-range_example =
    do_command-range whole no_file 7 movie 2 0 0 [] ready (unfold current_demfile in refl)
      (omega arith) (omega arith) refl refl

-- One digit.
abbrev digits : Scanf ℕ
digits = record {
  int = λ w. if length w == 1 then some (pos (get_or w 0 0 - 48)) else none;
  real = λ w. none;
}

-- "r 1 2" with a newline.
abbrev line : List ℕ
line = 114 ∷ 32 ∷ 49 ∷ 32 ∷ 50 ∷ 10 ∷ []

line_runs : get_new_command whole digits line ready ≡ gets ready (range_command 1 2 0 [])
unfolding get_new_command strip until_nul fgets split_line strsep code_of in_frames current_demfile
line_runs = refl

-- "r 1": the second word is missing.
line_crashes : get_new_command whole digits (114 ∷ 32 ∷ 49 ∷ 10 ∷ []) ready ≡ crashes
unfolding get_new_command strip until_nul fgets split_line strsep code_of in_frames current_demfile
line_crashes = refl

line_code : (split_line (line_of line)).code ≡ c_range
unfolding strip until_nul fgets split_line strsep code_of
line_code = refl

range_line-safe_example :
    Carried whole digits no_file 7
      (split_line (line_of line))
      (get_new_command whole digits line ready)
range_line-safe_example = range_line-safe whole digits no_file 7 line ready line_code refl refl

-- The track -1 with a newline.
get_new_command-print_track_example :
    get_new_command whole digits (99 ∷ 32 ∷ (print_track (45 ∷ 49 ∷ 10 ∷ []) ++ (10 ∷ []))) ready
    ≡ gets ready (command whole digits c_cdtrack (pos 0) (pos 0) 0 (45 ∷ 49 ∷ 10 ∷ []))
unfolding ends_in_space print_track
get_new_command-print_track_example =
    get_new_command-print_track whole digits (45 ∷ 49 ∷ 10 ∷ []) [] ready
      (
        ((λ e. omega arith), (λ e. omega arith)),
        (((λ e. omega arith), (λ e. omega arith)), (((λ e. omega arith), (λ e. omega arith)), tt)),
      )
      ((λ e. omega arith), ((λ e. omega arith), ((λ e. omega arith), tt))) refl (omega arith)

-- A frame without names, and one with a name and a colour.
abbrev people : Demfile ℕ
people = record {
  filename = 112 ∷ [];
  frames =
      shot 0
      ∷ record {
        timelength = 1;
        multientry = true;
        block = camera 0 0 0 ∷ updatename 1 (74 ∷ []) ∷ time 3 ∷ updatecolors 1 4 ∷ [];
      }
      ∷ [];
}

people-Marked : Marked people
people-Marked zero f h e = ap (λ o. elim o [ none ↦ [] | some g ↦ told g.block ]) (sym h)
people-Marked (suc zero) f h e =
    absurd (true≢false (ap (λ o. elim o [ none ↦ true | some g ↦ g.multientry ]) h ∙ e))
people-Marked (suc (suc k)) f h e =
    absurd (true≢false (ap (λ o. elim o [ none ↦ true | some g ↦ false ]) h))

do_command-multi_example :
    (s' : State ℕ) × (do_command whole no_file 7
        (multi_command 1 0 0 [])
        (record ready { demfiles = people ∷ [] })
      ≡ some s')
    × (tape s' ≡ record (tape ready) {
      output = ready.output ++ Film.shot (camera 0 0 0 ∷ names_and_colours people (between 1 0));
    })
do_command-multi_example =
    do_command-multi whole no_file 7 people 1 0 0 [] (record ready { demfiles = people ∷ [] })
      people-Marked (unfold current_demfile in refl) (omega arith) (omega arith) refl

names_run : names_and_colours people (between 1 0) ≡ updatename 1 (74 ∷ []) ∷ updatecolors 1 4 ∷ []
names_run = refl

-- The interactive range from 0 to 1 at its start.
abbrev going : State ℕ
going = record ready {
  inter = true;
  range_direction = pos 1;
  range_running = pos 1;
  range_end = pos 1;
  realtime = 5;
}

going-Running : Running whole movie 0 1 (1 ∷ []) going
unfolding current_demfile ◌+ℤ◌
going-Running = (
  refl,
  refl,
  refl,
  refl,
  refl,
  ((λ e. omega arith), refl, refl),
  (omega arith, (omega arith, tt)),
)

idle-Running_example :
    ((leb 5 7 ≡ false) × (idle whole 7 going ≡ some going))
    ⊎ ((leb 5 7 ≡ true)
        × ((s' : State ℕ) × (idle whole 7 going ≡ some s')
            × Next whole movie 1 (1 ∷ []) s'
            × Shown whole movie 0 going s'))
idle-Running_example = idle-Running whole 7 movie 0 1 (1 ∷ []) going going-Running
