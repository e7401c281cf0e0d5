-- ===== src/Dem/Block.antt =====
-- src/udem.c: the track and the blocks of a recording, from the file to trees of nodes. The
-- file is the list of its bytes, and its descriptor works.
pub mod Laws
pub mod Read
use lmpc.Base.{
  ℕ, zero, suc, ◌+◌, ◌-◌, Bool, true, false, not, List, [], ◌∷◌, ◌++◌, Option, none, some, ◌==◌,
  ltb, if◌then◌else◌, drop, take, length, bit_and, nonzero,
}
use lmpc.Base.Int.{ℤ, pos, negsuc, ltb_ℤ}
use lmpc.Base.Result.{Error}
use lmpc.Base.Text.{codes}
use lmpc.Node.{
  Node, Nodes, nil, cons, chain, text, float, v_string, v_float, gen_nothing, type_of, hint_of,
  down_of, chain_of,
}
use lmpc.Node.Chain.{node_init_all, node_add_next, node_command_init, node_triple_command_init}
use lmpc.Binblock.{
  Block, Run, ok, exit, fault, Cmd, ◌>>=◌, ◌>>◌, pure, put_unsigned_char, advance, left,
}
use lmpc.Binblock.Bytes.{splice, back_to}
use lmpc.Binblock.Number.{get_next_long, get_next_float, put_long, put_float}
use lmpc.Binblock.Text.{until_nul, put_string}
use lmpc.Binblock.Float.{Floats}
use lmpc.Binblock.Hint.{h_float, h_string, h_nothing}
use lmpc.Binblock.Argument.{
  quit, need, first, rest_of, text_at, float_at, do_simple_message_write_bin,
  do_unknown_message_write_bin,
}
use lmpc.Dem.State.{
  Dem, note, hint, h_simple, h_unknown, h_dem_sound, h_dem_clientdata, h_dem_stopsound,
  h_dem_updatecolors, h_dem_spawnstatic, h_dem_spawnbaseline, h_dem_updateentity,
}
use lmpc.Dem.Token.{Numbering, dem_token, token_track, token_block, token_camera}
use lmpc.Dem.Analyze.{dem_max_message_size}
use lmpc.Dem.Edit.{same}
use lmpc.Dem.Read.Message.{do_message_read_bin}
use lmpc.Dem.Write.Special.{
  do_dem_sound_message_write_bin, do_dem_stopsound_message_write_bin,
  do_dem_updatecolors_message_write_bin, do_dem_spawnstatic_message_write_bin,
  do_dem_spawnbaseline_message_write_bin,
}
use lmpc.Dem.Write.Entity.{do_dem_updateentity_message_write_bin}
use lmpc.Dem.Write.Client.{do_dem_clientdata_message_write_bin}

-- `if (test) syserror(e, ...)`
abbrev pub quit_if : Bool → Error → Cmd (Unit {0})
quit_if false e = pure tt
quit_if true e = quit e

-- The comment of a track, the later `node_add_comment` over the earlier.
abbrev pub track_note : ℕ → List ℕ → Option (List ℕ)
track_note datastart s =
    if datastart == 0
    then some (codes "warning: empty CD track")
    else if same s (codes "-1\n")
    then some (codes "default track")
    else none

unfoldable pub do_track_read_bin : Numbering → List ℕ → ℕ → Cmd Nodes
do_track_read_bin N file datastart = do
  let s = until_nul (take datastart file)
  let n = hint (node_command_init (N.number token_track) v_string h_string (text s) 0) h_simple
  let track = note (track_note datastart s) n
  if ltb (length file) datastart then quit Error.firead else pure track

-- `fread(m->buffer+at,1,n,file)` of what the file has left: too few bytes end the program, more than
-- the buffer holds are written behind it.
unfoldable pub read_into : ℕ → ℕ → List ℕ → Cmd (Unit {0})
read_into at n file m =
    let found = take n file in
    if ltb (length m.buffer) (at + length found)
    then fault
    else if ltb (length found) n
    then exit Error.firead
    else ok tt (record m { buffer = splice m.buffer at found })

-- A negative length becomes a huge `size_t`: more than any file has.
abbrev pub size_t_of : ℤ → List ℕ → ℕ
size_t_of (pos n) file = n
size_t_of (negsuc n) file = suc (length file)

abbrev pub place : ℕ → ℕ → Cmd (Unit {0})
place size end m = ok tt (record m { size = size; p = 0; end = end })

-- The block that starts at `offset`; the result is the offset behind it.
unfoldable pub dem_block_read_bin : List ℕ → ℕ → Cmd ℕ
unfolding read_into
dem_block_read_bin file offset m =
    (do
      read_into 0 16 (drop offset file)
      place 16 16
      size ← get_next_long
      let n = size_t_of size (drop (offset + 16) file)
      quit_if (ltb_ℤ (pos dem_max_message_size) size) Error.wdem
      read_into 16 n (drop (offset + 16) file)
      place (n + 16) (n + 16)
      pure (offset + 16 + n))
      (record m { base = offset })

-- `sprintf` of an address and of the number of the frame: the C library's.
pub record Printf : Type 0 where
  pub hex : ℕ → List ℕ
  pub decimal : ℕ → List ℕ

-- The size, which is not important any more, and the camera.
unfoldable pub read_head : Cmd (ℕ × ℕ × ℕ)
read_head = do
  size ← get_next_long
  ca1 ← get_next_float
  ca2 ← get_next_float
  ca3 ← get_next_float
  pure (ca1, ca2, ca3)

module _ {D : Type 0} (N : Numbering) (F : Floats D) (P : Printf) where
  -- `opt & 0x01`: a node with the address of the next message.
  abbrev pub address : Cmd ℕ
  address m = ok (m.base + m.p) m

  abbrev pub address_note : ℕ → Nodes → Cmd Nodes
  address_note opt n = do
    a ← address
    let tn = note (some (P.hex a)) (node_init_all gen_nothing h_nothing (chain nil) 0)
    if nonzero (bit_and opt 1) then need (node_add_next n tn) else pure n

  abbrev pub next_message : ℕ → Nodes → Dem → Cmd (Nodes × Dem)
  next_message opt n d = do
    n' ← address_note opt n
    (tn, d') ← do_message_read_bin N F d
    n'' ← need (node_add_next n' tn)
    pure (n'', d')

  -- The loop over the messages; `none` is a loop that has used up its fuel.
  unfoldable pub read_messages : ℕ → ℕ → Nodes → Dem → Cmd (Option (Nodes × Dem))
  read_messages zero opt n d m = ok none m
  read_messages (suc fuel) opt n d m = elim (ltb m.p m.end) [
    | true ↦ (do (n', d') ← next_message opt n d; read_messages fuel opt n' d') m
    | false ↦ ok (some (n, d)) m
  ]

  abbrev pub frame_note : ℕ → ℕ → Option (List ℕ)
  frame_note opt frame = if nonzero (bit_and opt 1) then some (P.decimal frame) else none

  abbrev pub camera_command : ℕ → ℕ → ℕ → Option Nodes
  camera_command ca1 ca2 ca3 =
      node_triple_command_init (N.number token_camera) v_float h_float (float ca1) (float ca2)
        (float ca3) 0

  abbrev pub block_node : ℕ → ℕ → Option (Nodes × Dem) → Option (Nodes × Dem)
  block_node opt frame none = none
  block_node opt frame (some (n, d)) =
      some (note (frame_note opt frame) (node_init_all (N.number token_block) 0 (chain n) 0), d)

  -- `frame` is the field of DEM_t. The fuel is a round for each byte, and one more.
  unfoldable pub dem_bin_to_node : ℕ → ℕ → Dem → Cmd (Option (Nodes × Dem))
  unfolding read_messages read_head
  dem_bin_to_node opt frame d = do
    (ca1, ca2, ca3) ← read_head
    n ← need (camera_command ca1 ca2 ca3)
    k ← left
    o ← read_messages (suc k) opt n d
    pure (block_node opt frame o)
