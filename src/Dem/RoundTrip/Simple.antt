-- ===== src/Dem/RoundTrip/Simple.antt =====
-- src/udem.c: what a reader makes of a message its writer turns into the bytes of the message.
use lmpc.Node.{Node}
use lmpc.Binblock.Float.{Floats}
use lmpc.Dem.State.{Dem}
use lmpc.Dem.Token.{Numbering}
use lmpc.Dem.RoundTrip.Message.{
  Message, bad, nop, disconnect, spawnbinary, killedmonster, foundsecret, intermission, sellscreen,
  version, setview, time_of, print, stufftext, setpause, signonnum, centerprint, finale, cutscene,
  updatestat, lightstyle, updatename, updatefrags, cdtrack, stopsound, updatecolors, IsMessage,
  encode,
}
use lmpc.Dem.RoundTrip.Agrees.{Agrees}
use lmpc.Dem.RoundTrip.Agrees.Plain.{
  agrees_bad, agrees_nop, agrees_disconnect, agrees_spawnbinary, agrees_killedmonster,
  agrees_foundsecret, agrees_intermission, agrees_sellscreen,
}
use lmpc.Dem.RoundTrip.Agrees.Single.{
  agrees_version, agrees_setview, agrees_time, agrees_print, agrees_stufftext, agrees_setpause,
  agrees_signonnum, agrees_centerprint, agrees_finale, agrees_cutscene,
}
use lmpc.Dem.RoundTrip.Agrees.Double.{
  agrees_updatestat, agrees_lightstyle, agrees_updatename, agrees_updatefrags, agrees_cdtrack,
  agrees_stopsound, agrees_updatecolors,
}

module _ {D : Type 0} (N : Numbering) (F : Floats D) (d : Dem) where
  -- For every of these messages whose values fit, the reader makes one node of its bytes, reads no byte
  -- more, and leaves the state; and the writer makes of this node the same bytes again.
  pub write_message-do_message_read_bin :
      (x : Message) → IsMessage x → (n : Node) × Agrees N F d n (encode x)
  write_message-do_message_read_bin bad h = (_, agrees_bad N F d)
  write_message-do_message_read_bin nop h = (_, agrees_nop N F d)
  write_message-do_message_read_bin disconnect h = (_, agrees_disconnect N F d)
  write_message-do_message_read_bin spawnbinary h = (_, agrees_spawnbinary N F d)
  write_message-do_message_read_bin killedmonster h = (_, agrees_killedmonster N F d)
  write_message-do_message_read_bin foundsecret h = (_, agrees_foundsecret N F d)
  write_message-do_message_read_bin intermission h = (_, agrees_intermission N F d)
  write_message-do_message_read_bin sellscreen h = (_, agrees_sellscreen N F d)
  write_message-do_message_read_bin (version v) h = (_, agrees_version N F d v h)
  write_message-do_message_read_bin (setview v) h = (_, agrees_setview N F d v h)
  write_message-do_message_read_bin (time_of v) h = (_, agrees_time N F d v h)
  write_message-do_message_read_bin (print v) h = (_, agrees_print N F d v h)
  write_message-do_message_read_bin (stufftext v) h = (_, agrees_stufftext N F d v h)
  write_message-do_message_read_bin (setpause v) h = (_, agrees_setpause N F d v h)
  write_message-do_message_read_bin (signonnum v) h = (_, agrees_signonnum N F d v h)
  write_message-do_message_read_bin (centerprint v) h = (_, agrees_centerprint N F d v h)
  write_message-do_message_read_bin (finale v) h = (_, agrees_finale N F d v h)
  write_message-do_message_read_bin (cutscene v) h = (_, agrees_cutscene N F d v h)
  write_message-do_message_read_bin (stopsound v) h = (_, agrees_stopsound N F d v h)
  write_message-do_message_read_bin (updatecolors a b) (ha, hb) =
      (_, agrees_updatecolors N F d a b ha hb)
  write_message-do_message_read_bin (updatestat a b) (ha, hb) =
      (_, agrees_updatestat N F d a b ha hb)
  write_message-do_message_read_bin (lightstyle a b) (ha, hb) =
      (_, agrees_lightstyle N F d a b ha hb)
  write_message-do_message_read_bin (updatename a b) (ha, hb) =
      (_, agrees_updatename N F d a b ha hb)
  write_message-do_message_read_bin (updatefrags a b) (ha, hb) =
      (_, agrees_updatefrags N F d a b ha hb)
  write_message-do_message_read_bin (cdtrack a b) (ha, hb) = (_, agrees_cdtrack N F d a b ha hb)
