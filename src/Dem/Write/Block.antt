-- ===== src/Dem/Write/Block.antt =====
-- src/udem.c, `DEM_block_write_bin`: from the tree of a block or a track to its bytes.
use lmpc.Base.{
  ℕ, ◌-◌, Bool, true, false, not, List, [], Option, none, some, ◌==◌, if◌then◌else◌, take,
}
use lmpc.Base.Int.{pos}
use lmpc.Base.Result.{Error}
use lmpc.Node.{Node, Nodes, nil, cons, type_of, hint_of, down_of, chain_of}
use lmpc.Binblock.{ok, Cmd, ◌>>=◌, ◌>>◌, pure, put_unsigned_char, advance}
use lmpc.Binblock.Bytes.{back_to}
use lmpc.Binblock.Number.{put_long, put_float}
use lmpc.Binblock.Text.{put_string}
use lmpc.Binblock.Float.{Floats}
use lmpc.Binblock.Hint.{h_nothing}
use lmpc.Binblock.Argument.{
  quit, first, rest_of, text_at, float_at, do_simple_message_write_bin,
  do_unknown_message_write_bin,
}
use lmpc.Dem.State.{
  h_simple, h_unknown, h_dem_sound, h_dem_clientdata, h_dem_stopsound, h_dem_updatecolors,
  h_dem_spawnstatic, h_dem_spawnbaseline, h_dem_updateentity,
}
use lmpc.Dem.Token.{Numbering, dem_token, token_track, token_block, token_camera}
use lmpc.Dem.Write.Special.{
  do_dem_sound_message_write_bin, do_dem_stopsound_message_write_bin,
  do_dem_updatecolors_message_write_bin, do_dem_spawnstatic_message_write_bin,
  do_dem_spawnbaseline_message_write_bin,
}
use lmpc.Dem.Write.Entity.{do_dem_updateentity_message_write_bin}
use lmpc.Dem.Write.Client.{do_dem_clientdata_message_write_bin}
use lmpc.Dem.Block.{quit_if}

module _ {D : Type 0} (N : Numbering) (F : Floats D) where
  -- The switch over the hint of a message.
  unfoldable pub write_message : Node → Cmd (Unit {0})
  write_message tn =
      if hint_of tn == h_nothing
      then pure tt
      else if hint_of tn == h_simple
      then do_simple_message_write_bin F (dem_token N) tn
      else if hint_of tn == h_unknown
      then do_unknown_message_write_bin F tn
      else if hint_of tn == h_dem_sound
      then do_dem_sound_message_write_bin N F tn
      else if hint_of tn == h_dem_clientdata
      then do_dem_clientdata_message_write_bin N F tn
      else if hint_of tn == h_dem_stopsound
      then do_dem_stopsound_message_write_bin N F tn
      else if hint_of tn == h_dem_updatecolors
      then do_dem_updatecolors_message_write_bin N F tn
      else if hint_of tn == h_dem_spawnstatic
      then do_dem_spawnstatic_message_write_bin N F tn
      else if hint_of tn == h_dem_spawnbaseline
      then do_dem_spawnbaseline_message_write_bin N F tn
      else if hint_of tn == h_dem_updateentity
      then do_dem_updateentity_message_write_bin N F tn
      else put_unsigned_char 0

  unfoldable pub write_messages : Nodes → Cmd (Unit {0})
  write_messages nil = pure tt
  write_messages (cons tn tns) = do write_message tn; write_messages tns

  -- Three arguments of a chain.
  abbrev pub write_camera : Nodes → Cmd (Unit {0})
  write_camera ns = do
    a1 ← first ns
    f1 ← float_at (down_of a1)
    put_float f1
    a2 ← first (rest_of ns)
    f2 ← float_at (down_of a2)
    put_float f2
    a3 ← first (rest_of (rest_of ns))
    f3 ← float_at (down_of a3)
    put_float f3

  -- `m.p - m.buffer`, and the cursor at the start.
  abbrev pub tell : Cmd ℕ
  tell m = ok m.p m

  abbrev pub rewind : Cmd (Unit {0})
  rewind m = ok tt (back_to 0 m)

  abbrev write_track : Node → Cmd ℕ
  write_track b = do
    a ← first (chain_of b)
    s ← text_at (down_of a)
    put_string s
    p ← tell
    pure (p - 1)

  abbrev is_nil : Nodes → Bool
  is_nil nil = true
  is_nil (cons n ns) = false

  abbrev pub write_behind : Node → Nodes → Cmd ℕ
  write_behind camera tns = do
    advance 4
    write_camera (chain_of camera)
    write_messages tns
    datasize ← tell
    rewind
    put_long (pos (datasize - 16))
    pure datasize

  abbrev pub write_block : Node → Cmd ℕ
  write_block b = do
    tn ← first (chain_of b)
    let tns = rest_of (chain_of b)
    quit_if (not (type_of tn == N.number token_camera)) Error.dinte
    if is_nil tns then pure 0 else write_behind tn tns

  abbrev pub output : ℕ → Cmd (List ℕ)
  output datasize m = ok (take datasize m.buffer) m

  -- The bytes that go to the output file; the buffer starts as it happens to be.
  unfoldable pub dem_block_write_bin : Nodes → Cmd (List ℕ)
  unfolding write_messages
  dem_block_write_bin nil = pure []
  dem_block_write_bin (cons b bs) = do
    rewind
    datasize ←
        (if type_of b == N.number token_track
          then write_track b
          else if type_of b == N.number token_block
          then write_block b
          else quit Error.dinte)
    output datasize

  -- Is a block written as text?
  unfoldable pub is_written_as_text : Nodes → Option Bool
  is_written_as_text nil = some false
  is_written_as_text (cons b bs) =
      if type_of b == N.number token_track
      then some true
      else if type_of b == N.number token_block
      then elim (chain_of b) [
        | nil ↦ none
        | cons c cs ↦ elim cs [ nil ↦ some false | cons d ds ↦ some true ]
      ]
      else some false
