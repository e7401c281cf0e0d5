-- ===== src/Dem/RoundTrip/Agrees.antt =====
-- src/udem.c: a node and the bytes that it is read from and written as.
pub mod Plain
pub mod Single
pub mod Double
use lmpc.Base.{ℕ, length, ◌<◌, ◌≡◌, refl, none, some, List, [], ◌∷◌, ◌++◌, arith, get_elem?}
use lmpc.Base.Int.{ℤ}
use lmpc.Base.Text.{codes}
use lmpc.Node.{Node, Nodes, nil, cons}
use lmpc.Binblock.{Cmd, get_next_unsigned_char}
use lmpc.Binblock.Number.{get_next_short, get_next_long, get_next_float}
use lmpc.Binblock.Text.{get_next_string}
use lmpc.Binblock.Float.{Floats, read_byte}
use lmpc.Binblock.Codec.{
  IsShort, Reads, Writes, byte-Reads, short-Reads, long-Reads, float-Reads, text-Reads, >>=-Reads,
  map-Reads, pure-Reads,
}
use lmpc.Dem.State.{Dem}
use lmpc.Dem.Token.{
  Numbering, token_bad, token_nop, token_disconnect, token_spawnbinary, token_killedmonster,
  token_foundsecret, token_intermission, token_sellscreen, token_version, token_setview, token_time,
  token_print, token_stufftext, token_setpause, token_signonnum, token_centerprint, token_finale,
  token_cutscene, token_updatestat, token_index, token_value, token_lightstyle, token_style,
  token_string, token_updatename, token_player, token_netname, token_updatefrags, token_frags,
  token_cdtrack, token_fromtrack, token_totrack,
}
use lmpc.Dem.Read.Plain.{
  do_stopsound_message_read_bin, do_updatecolors_message_read_bin, do_bad_message_read_bin,
  do_nop_message_read_bin, do_disconnect_message_read_bin, do_spawnbinary_message_read_bin,
  do_killedmonster_message_read_bin, do_foundsecret_message_read_bin,
  do_intermission_message_read_bin, do_sellscreen_message_read_bin, do_version_message_read_bin,
  do_setview_message_read_bin, do_time_message_read_bin, do_print_message_read_bin,
  do_stufftext_message_read_bin, do_setpause_message_read_bin, do_signonnum_message_read_bin,
  do_centerprint_message_read_bin, do_finale_message_read_bin, do_cutscene_message_read_bin,
  do_updatestat_message_read_bin, do_lightstyle_message_read_bin, do_updatename_message_read_bin,
  do_updatefrags_message_read_bin, do_cdtrack_message_read_bin,
}
use lmpc.Dem.Read.Message.{keep, readers, do_message_read_bin}
use lmpc.Dem.Write.Block.{write_message}
use lmpc.Dem.RoundTrip.Table.{id_at, is_listed}
use lmpc.Binblock.RoundTrip.{short_bytes}
use lmpc.Dem.RoundTrip.Special.{
  stopsound_node, stopsound-Writes, updatecolors_node, updatecolors-Writes,
}
use lmpc.Dem.RoundTrip.Value.{
  byte, word, wide, time, line, IsValue, value_bytes, plain, single, double, plain-Writes,
  single-Writes, double-Writes,
}

keep-Reads :
    (d : Dem) (c : Cmd Nodes) (bs : List ℕ) (n : Nodes) → Reads c bs n → Reads (keep d c) bs (n, d)
keep-Reads d c bs n h = map-Reads c (λ x. (x, d)) bs n h

module _ {D : Type 0} (N : Numbering) (F : Floats D) (d : Dem) where
  -- The first byte chooses the reader.
  pub by_id :
      (id : ℕ) (c : Cmd Nodes) (bs : List ℕ) (n : Node)
      → get_elem? (readers N F d) id ≡ some (keep d c)
      → Reads c bs (cons n nil)
      → Reads (do_message_read_bin N F d) (id ∷ bs) (cons n nil, d)
  unfolding do_message_read_bin
  by_id id c bs n e h =
      >>=-Reads get_next_unsigned_char _ (id ∷ []) bs id (cons n nil, d) (byte-Reads id)
        (rw e (keep-Reads d c bs (cons n nil) h))

  -- A reader that gives the node of the message from its bytes, and a writer that gives them back.
  abbrev pub Agrees : Node → List ℕ → Type 0
  Agrees n bs =
      Reads (do_message_read_bin N F d) bs (cons n nil, d) × Writes (write_message N F n) bs
