-- ===== src/Demcut/Dispatch.antt =====
-- src/demcut.c, `do_command`. What `prepare_demfile` makes of a file of a name is a parameter, as it
-- reads the file; a command that prints a text of its own (help, warranty) prints its subject here.
-- `none` is an access outside the arrays of files and frames.
use lmpc.Base.{
  ℕ, zero, suc, ◌+◌, Bool, true, false, not, List, [], ◌∷◌, ◌++◌, Option, none, some, length,
  if◌then◌else◌,
}
use lmpc.Base.Int.{ℤ, pos, negsuc, ◌+ℤ◌, ◌-ℤ◌, pos_part, neg_part, ltb_ℤ}
use lmpc.Node.Token.{string_eq}
use lmpc.Demcut.State.{
  Real, Message, camera, time, signonnum, disconnect, updatename, updatecolors, other, Demfile,
  running_is, Code, c_comment, c_demfile, c_frame, c_quit, c_range, c_range_running, c_output,
  c_speed, c_cdtrack, c_time, c_help, c_loop, c_multi, c_inter, c_prompt, c_warranty, c_unknown,
  subject, bad_demfile, unknown_command, track, State, current_demfile, frame_at,
}
use lmpc.Demcut.Output.{
  eq_ℤ, print, open_output, close_output, do_write_frame, write_frame, stop_running_range,
  run_range,
}
use lmpc.Demcut.Command.{Command}

-- The first of the open files that has the name.
unfoldable pub find_demfile : {F : Type 0} → List ℕ → ℕ → List (Demfile F) → Option ℕ
find_demfile name i [] = none
find_demfile name i (d ∷ ds) =
    let later = find_demfile name (suc i) ds in if string_eq name d.filename then some i else later

abbrev pub direction : ℤ → ℤ → ℤ
direction a b = if ltb_ℤ b a then negsuc 0 else pos 1

-- |a - b|: the rounds of a loop from a to b.
abbrev pub distance : ℤ → ℤ → ℕ
distance a b = let d = a -ℤ b in pos_part d + neg_part d

abbrev is_multi : {F : Type 0} → Message F → Bool
is_multi (updatename n t) = true
is_multi (updatecolors n c) = true
is_multi (camera x y z) = false
is_multi (time t) = false
is_multi (signonnum n) = false
is_multi disconnect = false
is_multi (other n) = false

-- The loop that unlinks the first message of the two kinds until there is none: they come in their
-- order.
unfoldable pub multi_messages : {F : Type 0} → List (Message F) → List (Message F)
multi_messages [] = []
multi_messages (m ∷ ms) = let rest = multi_messages ms in if is_multi m then m ∷ rest else rest

-- The frames from `frame` to before `afterlast`, with fuel.
module _ {F : Type 0} where
  unfoldable pub gather : ℕ → Demfile F → ℤ → ℤ → ℤ → Option (List (Message F))
  gather zero d frame dir afterlast = none
  gather (suc k) d frame dir afterlast =
      let rest = gather k d (frame +ℤ dir) dir afterlast in
      let found : Option (List (Message F)) = elim (frame_at d frame) [
        | none ↦ none
        | some f ↦ elim rest [
          | none ↦ none
          | some ms ↦ some (if f.multientry then multi_messages f.block ++ ms else ms)
        ]
      ] in
      if eq_ℤ frame afterlast then some [] else found

module _ {F : Type 0} (R : Real F) (prepare_demfile : List ℕ → Option (Demfile F)) (now : F) where
  open R use {one_f, div}

  abbrev select_demfile : List ℕ → State F → State F
  select_demfile name s = elim (find_demfile name 0 s.demfiles) [
    | some i ↦ print (subject c_demfile) (record s { demfile = i })
    | none ↦ elim (prepare_demfile name) [
      | none ↦ record s { printed = s.printed ++ (bad_demfile ∷ []) }
      | some d ↦
          print (subject c_demfile)
            (record s { demfile = length s.demfiles; demfiles = s.demfiles ++ (d ∷ []) })
    ]
  ]

  abbrev pub then_print : Code → Option (State F) → Option (State F)
  then_print c none = none
  then_print c (some s) = some (print (subject c) s)

  abbrev start_range : ℤ → ℤ → State F → State F
  start_range i j s = record s {
    range_start = i;
    range_end = j;
    range_direction = direction i j;
    range_running = direction i j;
    frame = i;
  }

  abbrev pub write_multi : ℤ → ℤ → State F → Option (State F)
  write_multi i j s = elim (current_demfile s) [
    | none ↦ none
    | some d ↦ elim (gather (suc (suc (distance i j))) d i (direction i j) (j +ℤ direction i j)) [
      | none ↦ none
      | some ms ↦ some (
          do_write_frame R (camera s.a1 s.a2 s.a3 ∷ ms)
            (record s { multi_start = i; multi_end = j }))
    ]
  ]

  abbrev write_track : List ℕ → State F → State F
  write_track w s =
      let s' = open_output R s in record s' { cdtrack = w; output = s'.output ++ (track w ∷ []) }

  abbrev select_output : List ℕ → State F → State F
  select_output w s =
      if string_eq s.output_filename w then s else record (close_output R s) { output_filename = w }

  abbrev run_code : Code → Command F → State F → Option (State F)
  run_code c_demfile c s = some (select_demfile c.args (stop_running_range R s))
  run_code c_frame c s =
      then_print c_frame (write_frame R now (record (stop_running_range R s) { frame = c.argi1 }))
  run_code c_quit c s = some (print (subject c_quit) (close_output R (stop_running_range R s)))
  run_code c_range c s =
      let s' = start_range c.argi1 c.argi2 (stop_running_range R s) in
      if s'.inter
      then some (print (running_is s'.range_running) s')
      else run_range R (suc (suc (distance c.argi1 c.argi2))) now s'
  run_code c_output c s =
      some (print (subject c_output) (select_output c.args (stop_running_range R s)))
  run_code c_speed c s =
      some (print (subject c_speed) (record s { speed = c.argf; scale = div one_f c.argf }))
  run_code c_cdtrack c s =
      some (print (subject c_cdtrack) (write_track c.args (stop_running_range R s)))
  run_code c_time c s = some (print (subject c_time) (record s { time = c.argf }))
  run_code c_loop c s = some (print (subject c_loop) (record s { loop = pos_part c.argi1 }))
  run_code c_help c s = some (print (subject c_help) s)
  run_code c_multi c s = then_print c_multi (write_multi c.argi1 c.argi2 (stop_running_range R s))
  run_code c_inter c s =
      let new = not (eq_ℤ c.argi1 (pos 0)) in
      let same = if new then s.inter else not s.inter in
      let s' = if same then s else stop_running_range R s in
      some (print (subject c_inter) (record s' { inter = new }))
  run_code c_prompt c s =
      some (print (subject c_prompt) (record s { prompt = not (eq_ℤ c.argi1 (pos 0)) }))
  run_code c_warranty c s = some (print (subject c_warranty) s)
  run_code c_comment c s = some (record s { printed = s.printed ++ (unknown_command ∷ []) })
  run_code c_range_running c s = some (record s { printed = s.printed ++ (unknown_command ∷ []) })
  run_code c_unknown c s = some (record s { printed = s.printed ++ (unknown_command ∷ []) })

  -- What a command does that has something left to do, and a done one, which does nothing. `now` is
  -- what `basetime` returns.
  unfoldable pub do_command : Command F → State F → Option (State F)
  do_command c s = if c.to_do then run_code c.code c s else some s
