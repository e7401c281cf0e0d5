-- ===== src/Binblock/Argument.antt =====
-- src/binblock.c and src/binblock.h: the arguments of a message, written as their type and hint say,
-- and the messages that need nothing else.
use lmpc.Base.{
  ℕ, ◌-◌, Bool, true, false, List, Option, none, some, ◌==◌, ltb, if◌then◌else◌, bit_or, ◌&&◌,
}
use lmpc.Base.Int.{ℤ, pos, ltb_ℤ}
use lmpc.Base.Result.{Error}
use lmpc.Node.{
  Node, Nodes, Down, node, long, float, text, chain, nil, cons, type_of, hint_of, down_of, chain_of,
  v_int, v_bytehex, v_float, v_time, v_string,
}
use lmpc.Node.Chain.{node_add_hint}
use lmpc.Node.Token.{Token, node_token_id, node_token_string}
use lmpc.Binblock.{Cmd, exit, fault, hangs, ◌>>=◌, ◌>>◌, pure, put_unsigned_char}
use lmpc.Binblock.Number.{put_short, put_long, put_float}
use lmpc.Binblock.Text.{put_string}
use lmpc.Binblock.Float.{
  Floats, write_byte, write_char, write_coord, write_angle, write_angle16, write_vel, write_vol,
  write_attenuation, write_timeofs, write_blend, write_offset,
}
use lmpc.Binblock.Direction.{write_dir}
use lmpc.Binblock.Hint.{
  h_byte, h_short, h_long, h_coord, h_float, h_angle, h_string, h_stringlist, h_vel, h_vol,
  h_attenuation, h_byte_float, h_nothing, h_lsb, h_timeofs, h_angle16, h_dir, h_offset, h_blend,
  h_sb, mask_unicast,
}

-- `syserror(e, ...)`
abbrev pub quit {ℓ} : {A : Type ℓ} → Error → Cmd A
quit e m = exit e

abbrev pub crash {ℓ} : {A : Type ℓ} → Cmd A
crash m = fault

-- A loop that has used up its fuel.
abbrev pub hang {ℓ} : {A : Type ℓ} → Cmd A
hang m = hangs

-- `*(long*)`, `*(float*)` and `(char*)` of a `down` pointer: what is there must be of that type.
abbrev pub int_at : Down → Cmd ℤ
int_at (long v) = pure v
int_at (float w) = crash
int_at (text s) = crash
int_at (chain ns) = crash

abbrev pub float_at : Down → Cmd ℕ
float_at (long v) = crash
float_at (float w) = pure w
float_at (text s) = crash
float_at (chain ns) = crash

abbrev pub text_at : Down → Cmd (List ℕ)
text_at (long v) = crash
text_at (float w) = crash
text_at (text s) = pure s
text_at (chain ns) = crash

-- A pointer that is followed: NULL is a crash.
abbrev pub first : Nodes → Cmd Node
first nil = crash
first (cons n ns) = pure n

abbrev pub rest_of : Nodes → Nodes
rest_of nil = nil
rest_of (cons n ns) = ns

abbrev pub need {ℓ} : {A : Type ℓ} → Option A → Cmd A
need none = crash
need (some a) = pure a

-- The hints of V_INT.
unfoldable pub write_int : ℕ → ℤ → Cmd (Unit {0})
write_int h v =
    if h == h_byte
    then write_byte v
    else if h == h_short
    then put_short v
    else if h == h_long
    then put_long v
    else if h == h_sb
    then (if ltb_ℤ v (pos 256) then write_byte v else put_short v)
    else if h == h_lsb
    then (if ltb_ℤ v (pos 256)
        then write_byte v
        else if ltb_ℤ v (pos 0x8000)
        then put_short v
        else put_long v)
    else quit Error.dinte

module _ {D : Type 0} (F : Floats D) where
  -- H_DIR takes the argument and the two behind it.
  unfoldable pub write_direction : ℕ → Nodes → Cmd (Unit {0})
  write_direction x next = do
    second ← first next
    y ← float_at (down_of second)
    third ← first (rest_of next)
    z ← float_at (down_of third)
    write_dir F (x, y, z)

  -- The hints of V_FLOAT; `next` is the chain behind the argument.
  unfoldable pub write_real : ℕ → ℕ → Nodes → Cmd (Unit {0})
  write_real h w next =
      if h == h_nothing
      then pure tt
      else if h == h_float
      then put_float w
      else if h == h_coord
      then write_coord F w
      else if h == h_angle
      then write_angle F w
      else if h == h_angle16
      then write_angle16 F w
      else if h == h_vel
      then write_vel F w
      else if h == h_vol
      then write_vol F w
      else if h == h_attenuation
      then write_attenuation F w
      else if h == h_timeofs
      then write_timeofs F w
      else if h == h_byte_float
      then write_char (F.to_int (F.widen w))
      else if h == h_blend
      then write_blend F w
      else if h == h_offset
      then write_offset F w
      else if h == h_dir
      then write_direction w next
      else quit Error.dinte

  abbrev is_nil : Nodes → Bool
  is_nil nil = true
  is_nil (cons n ns) = false

  unfoldable pub write_text : ℕ → List ℕ → Nodes → Cmd (Unit {0})
  write_text h s next =
      if h == h_string
      then put_string s
      else if h == h_stringlist
      then (do put_string s; if is_nil next then write_char (pos 0) else pure tt)
      else quit Error.dinte

  -- The argument, and the chain behind it. What H_DIR does to the hints of the next two is done by
  -- the loop below.
  unfoldable pub do_simple_argument_write_bin : Node → Nodes → Cmd (Unit {0})
  unfolding write_int write_real write_text
  do_simple_argument_write_bin (node t h c d p) next =
      if t == v_int
      then (do v ← int_at d; write_int h v)
      else if t == v_bytehex
      then (do v ← int_at d; write_byte v)
      else if t == v_float
      then (if h == h_nothing then pure tt else (do w ← float_at d; write_real h w next))
      else if t == v_time
      then (do w ← float_at d; put_float w)
      else if t == v_string
      then (do s ← text_at d; write_text h s next)
      else quit Error.dinte

  -- A pointer of a chain that is given to it: NULL is a syntax error.
  abbrev pub write_first : Nodes → Cmd (Unit {0})
  write_first nil = quit Error.syntax
  write_first (cons a as') = do_simple_argument_write_bin a as'

  abbrev is_dir : Node → Bool
  is_dir a = (type_of a == v_float) && (hint_of a == h_dir)

  -- `k` arguments have got the hint H_NOTHING from a direction before them.
  unfoldable pub write_arguments : ℕ → Nodes → Cmd (Unit {0})
  write_arguments k nil = pure tt
  write_arguments k (cons a as') =
      let a' = if ltb 0 k then node_add_hint a h_nothing else a in
      do do_simple_argument_write_bin a' as'; write_arguments (if is_dir a' then 2 else k - 1) as'

  unfoldable pub do_simple_arguments_write_bin : Nodes → Cmd (Unit {0})
  do_simple_arguments_write_bin as' = write_arguments 0 as'

  unfoldable pub write_commands : Nodes → Cmd (Unit {0})
  write_commands nil = pure tt
  write_commands (cons c cs) = do do_simple_arguments_write_bin (chain_of c); write_commands cs

  -- `table` is the table of `node_token_init`. Below the message stand commands or, if the type of
  -- the first is no token, arguments.
  unfoldable pub write_below : List Token → Nodes → Cmd (Unit {0})
  write_below table nil = pure tt
  write_below table (cons c cs) = elim (node_token_string table (type_of c)) [
    | none ↦ do_simple_arguments_write_bin (cons c cs)
    | some s ↦ write_commands (cons c cs)
  ]

  unfoldable pub do_simple_message_write_bin : List Token → Node → Cmd (Unit {0})
  do_simple_message_write_bin table n = do
    put_unsigned_char (node_token_id table (type_of n))
    write_below table (chain_of n)

  -- unicast_t of use UC_THIS, with its client; any other use is `none`.
  unfoldable pub do_simple_message_write_bin_unicast : List Token → Option ℤ → Node → Cmd (Unit {0})
  do_simple_message_write_bin_unicast table none n = do_simple_message_write_bin table n
  do_simple_message_write_bin_unicast table (some client) n = do
    put_unsigned_char (bit_or (node_token_id table (type_of n)) mask_unicast)
    write_byte client
    write_below table (chain_of n)

  -- The id is an argument; without data the source follows NULL.
  unfoldable pub do_unknown_message_write_bin : Node → Cmd (Unit {0})
  do_unknown_message_write_bin n = do
    id ← first (chain_of n)
    write_first (chain_of id)
    data' ← first (rest_of (chain_of n))
    do_simple_arguments_write_bin (chain_of data')
