-- ===== src/Dem/Read/Plain.antt =====
-- src/udem.c: the readers of the messages without coordinates and without state.
use lmpc.Base.{ℕ, zero, suc, ◌-◌, ◌%◌, ◌/◌, List, Option, some, if◌then◌else◌}
use lmpc.Base.Int.{ℤ, pos, negsuc}
use lmpc.Base.Text.{codes}
use lmpc.Node.{Nodes, nil, long, float, chain, v_int, v_bytehex, v_time}
use lmpc.Node.Chain.{node_init, node_init_all, node_add_next, node_link, node_command_init}
use lmpc.Binblock.{Cmd, ◌>>=◌, pure, shift_right, inside, left}
use lmpc.Binblock.Number.{get_next_short, get_next_long, get_next_float}
use lmpc.Binblock.Text.{get_next_string}
use lmpc.Binblock.Float.{read_byte}
use lmpc.Binblock.Hint.{h_byte, h_short, h_long, h_string}
use lmpc.Binblock.Argument.{need, hang}
use lmpc.Dem.State.{
  h_simple, h_unknown, h_dem_stopsound, h_dem_updatecolors, note, hint, int_command, string_command,
}
use lmpc.Dem.Token.{
  Numbering, token_id, token_data, token_unknown, token_bad, token_nop, token_disconnect,
  token_updatestat, token_index, token_value, token_version, token_setview, token_time, token_print,
  token_stufftext, token_lightstyle, token_style, token_string, token_updatename, token_player,
  token_netname, token_updatefrags, token_frags, token_stopsound, token_channel, token_entity,
  token_updatecolors, token_colors, token_spawnbinary, token_setpause, token_signonnum,
  token_centerprint, token_killedmonster, token_foundsecret, token_intermission, token_finale,
  token_cdtrack, token_fromtrack, token_totrack, token_sellscreen, token_cutscene,
}

-- `a & (m - 1)` of a signed value, for a power of two m.
abbrev pub low_bits : ℤ → ℕ → ℕ
low_bits (pos n) m = n % m
low_bits (negsuc n) m = m - 1 - n % m

-- The two numbers that `entity_channel` packs.
abbrev pub channel_of : ℤ → ℕ
channel_of a = low_bits a 8

abbrev pub entity_of : ℤ → ℕ
entity_of a = low_bits (shift_right a 8) 8192

abbrev pub wrong : Option (List ℕ)
wrong = some (codes "something is wrong")

-- The bytes from the cursor to the end of the block, behind those in `tn`, with fuel.
unfoldable pub rest_of_block : ℕ → Nodes → Cmd Nodes
rest_of_block zero tn = hang
rest_of_block (suc k) tn = do
  let more = (do
    b ← read_byte
    tn' ← need (node_link tn (node_init_all v_bytehex h_simple (long (pos b)) 0))
    rest_of_block k tn')
  go_on ← inside
  if go_on then more else pure tn

-- Each round takes a byte, so as many rounds as there are bytes, and one more, are enough.
abbrev pub all_bytes : Cmd Nodes
all_bytes = do k ← left; rest_of_block (suc k) nil

module _ (N : Numbering) where
  abbrev tk : ℕ → ℕ
  tk t = N.number t

  abbrev empty_message : ℕ → Cmd Nodes
  empty_message t = pure (node_init_all (tk t) h_simple (chain nil) 0)

  unfoldable pub do_unknown_message_read_bin : ℕ → Cmd Nodes
  do_unknown_message_read_bin id = do
    let n = node_command_init (tk token_id) v_bytehex h_simple (long (pos id)) 0
    let with_data = (do
      tn ← all_bytes
      need (node_add_next n (node_init_all (tk token_data) h_simple (chain tn) 0)))
    more ← inside
    c ← if more then with_data else pure n
    pure (note wrong (node_init_all (tk token_unknown) h_unknown (chain c) 0))

  unfoldable pub do_bad_message_read_bin : Cmd Nodes
  do_bad_message_read_bin = pure (note wrong (node_init_all (tk token_bad) h_simple (chain nil) 0))

  unfoldable pub do_nop_message_read_bin : Cmd Nodes
  do_nop_message_read_bin = empty_message token_nop

  unfoldable pub do_disconnect_message_read_bin : Cmd Nodes
  do_disconnect_message_read_bin = empty_message token_disconnect

  unfoldable pub do_updatestat_message_read_bin : Cmd Nodes
  do_updatestat_message_read_bin = do
    index ← read_byte
    value ← get_next_long
    n ← need (
        node_add_next (int_command (tk token_index) h_byte (pos index))
          (int_command (tk token_value) h_long value))
    pure (node_init_all (tk token_updatestat) h_simple (chain n) 0)

  unfoldable pub do_version_message_read_bin : Cmd Nodes
  do_version_message_read_bin = do
    version ← get_next_long
    pure (hint (int_command (tk token_version) h_long version) h_simple)

  unfoldable pub do_setview_message_read_bin : Cmd Nodes
  do_setview_message_read_bin = do
    entity ← get_next_short
    pure (hint (int_command (tk token_setview) h_short entity) h_simple)

  unfoldable pub do_time_message_read_bin : Cmd Nodes
  do_time_message_read_bin = do
    time ← get_next_float
    pure (hint (node_command_init (tk token_time) v_time h_simple (float time) 0) h_simple)

  -- A message of one string.
  abbrev string_message : ℕ → Cmd Nodes
  string_message t = do
    text ← get_next_string
    pure (hint (string_command (tk t) h_string text) h_simple)

  unfoldable pub do_print_message_read_bin : Cmd Nodes
  do_print_message_read_bin = string_message token_print

  unfoldable pub do_stufftext_message_read_bin : Cmd Nodes
  do_stufftext_message_read_bin = string_message token_stufftext

  unfoldable pub do_centerprint_message_read_bin : Cmd Nodes
  do_centerprint_message_read_bin = string_message token_centerprint

  unfoldable pub do_finale_message_read_bin : Cmd Nodes
  do_finale_message_read_bin = string_message token_finale

  unfoldable pub do_cutscene_message_read_bin : Cmd Nodes
  do_cutscene_message_read_bin = string_message token_cutscene

  -- A message of one byte.
  abbrev byte_message : ℕ → Cmd Nodes
  byte_message t = do b ← read_byte; pure (hint (int_command (tk t) h_byte (pos b)) h_simple)

  unfoldable pub do_setpause_message_read_bin : Cmd Nodes
  do_setpause_message_read_bin = byte_message token_setpause

  unfoldable pub do_signonnum_message_read_bin : Cmd Nodes
  do_signonnum_message_read_bin = byte_message token_signonnum

  unfoldable pub do_lightstyle_message_read_bin : Cmd Nodes
  do_lightstyle_message_read_bin = do
    style ← read_byte
    string ← get_next_string
    n ← need (
        node_add_next (int_command (tk token_style) h_byte (pos style))
          (string_command (tk token_string) h_string string))
    pure (node_init_all (tk token_lightstyle) h_simple (chain n) 0)

  unfoldable pub do_updatename_message_read_bin : Cmd Nodes
  do_updatename_message_read_bin = do
    player ← read_byte
    netname ← get_next_string
    tn ← need (
        node_add_next (int_command (tk token_player) h_byte (pos player))
          (string_command (tk token_netname) h_string netname))
    pure (hint (node_init (tk token_updatename) (chain tn) 0) h_simple)

  unfoldable pub do_updatefrags_message_read_bin : Cmd Nodes
  do_updatefrags_message_read_bin = do
    player ← read_byte
    frags ← get_next_short
    tn ← need (
        node_add_next (int_command (tk token_player) h_byte (pos player))
          (int_command (tk token_frags) h_short frags))
    pure (hint (node_init (tk token_updatefrags) (chain tn) 0) h_simple)

  unfoldable pub do_stopsound_message_read_bin : Cmd Nodes
  do_stopsound_message_read_bin = do
    entity_channel ← get_next_short
    n ← need (
        node_add_next (int_command (tk token_channel) 0 (pos (channel_of entity_channel)))
          (int_command (tk token_entity) 0 (pos (entity_of entity_channel))))
    pure (node_init_all (tk token_stopsound) h_dem_stopsound (chain n) 0)

  unfoldable pub do_updatecolors_message_read_bin : Cmd Nodes
  do_updatecolors_message_read_bin = do
    player ← read_byte
    colors ← read_byte
    a ← need (
        node_add_next (node_init_all v_int 0 (long (pos (colors / 16 % 16))) 0)
          (node_init_all v_int 0 (long (pos (colors % 16))) 0))
    n ← need (
        node_add_next
          (node_init_all (tk token_player) h_simple
            (chain (node_init_all v_int h_byte (long (pos player)) 0)) 0)
          (node_init_all (tk token_colors) 0 (chain a) 0))
    pure (node_init_all (tk token_updatecolors) h_dem_updatecolors (chain n) 0)

  unfoldable pub do_spawnbinary_message_read_bin : Cmd Nodes
  do_spawnbinary_message_read_bin = pure (
      note (some (codes "Illegible server message"))
        (hint (node_init (tk token_spawnbinary) (chain nil) 0) h_simple))

  unfoldable pub do_killedmonster_message_read_bin : Cmd Nodes
  do_killedmonster_message_read_bin =
      pure (hint (node_init (tk token_killedmonster) (chain nil) 0) h_simple)

  unfoldable pub do_foundsecret_message_read_bin : Cmd Nodes
  do_foundsecret_message_read_bin =
      pure (hint (node_init (tk token_foundsecret) (chain nil) 0) h_simple)

  unfoldable pub do_intermission_message_read_bin : Cmd Nodes
  do_intermission_message_read_bin = empty_message token_intermission

  unfoldable pub do_sellscreen_message_read_bin : Cmd Nodes
  do_sellscreen_message_read_bin = empty_message token_sellscreen

  unfoldable pub do_cdtrack_message_read_bin : Cmd Nodes
  do_cdtrack_message_read_bin = do
    fromtrack ← read_byte
    totrack ← read_byte
    n ← need (
        node_add_next (int_command (tk token_fromtrack) h_byte (pos fromtrack))
          (int_command (tk token_totrack) h_byte (pos totrack)))
    pure (node_init_all (tk token_cdtrack) h_simple (chain n) 0)
