-- ===== src/Dem/Read/Message.antt =====
-- src/udem.c, `do_message_read_bin`: the reader of a message is chosen by its first byte.
use lmpc.Base.{◌-◌, List, [], ◌∷◌, none, some, get_elem?, leb, if◌then◌else◌}
use lmpc.Node.{Nodes}
use lmpc.Binblock.{Cmd, ◌>>=◌, pure}
use lmpc.Binblock.Float.{Floats, read_byte}
use lmpc.Dem.State.{Dem}
use lmpc.Dem.Token.{Numbering}
use lmpc.Dem.Read.Plain.{
  do_unknown_message_read_bin, do_bad_message_read_bin, do_nop_message_read_bin,
  do_disconnect_message_read_bin, do_updatestat_message_read_bin, do_version_message_read_bin,
  do_setview_message_read_bin, do_time_message_read_bin, do_print_message_read_bin,
  do_stufftext_message_read_bin, do_lightstyle_message_read_bin, do_updatename_message_read_bin,
  do_updatefrags_message_read_bin, do_stopsound_message_read_bin, do_updatecolors_message_read_bin,
  do_spawnbinary_message_read_bin, do_setpause_message_read_bin, do_signonnum_message_read_bin,
  do_centerprint_message_read_bin, do_killedmonster_message_read_bin,
  do_foundsecret_message_read_bin, do_intermission_message_read_bin, do_finale_message_read_bin,
  do_cdtrack_message_read_bin, do_sellscreen_message_read_bin, do_cutscene_message_read_bin,
}
use lmpc.Dem.Read.Vector.{
  do_setangle_message_read_bin, do_particle_message_read_bin, do_temp_entity_message_read_bin,
}
use lmpc.Dem.Read.World.{
  do_sound_message_read_bin, do_serverinfo_message_read_bin, do_damage_message_read_bin,
  do_spawnstatic_message_read_bin, do_spawnbaseline_message_read_bin,
  do_spawnstaticsound_message_read_bin,
}
use lmpc.Dem.Read.Client.{do_clientdata_message_read_bin}
use lmpc.Dem.Read.Entity.{do_updateentity_message_read_bin}

abbrev pub keep : Dem → Cmd Nodes → Cmd (Nodes × Dem)
keep d c = do n ← c; pure (n, d)

module _ {D : Type 0} (N : Numbering) (F : Floats D) where
  -- The cases of the switch, from 0x00 on.
  abbrev pub readers : Dem → List (Cmd (Nodes × Dem))
  readers d =
      keep d (do_bad_message_read_bin N)
      ∷ keep d (do_nop_message_read_bin N)
      ∷ keep d (do_disconnect_message_read_bin N)
      ∷ keep d (do_updatestat_message_read_bin N)
      ∷ keep d (do_version_message_read_bin N)
      ∷ keep d (do_setview_message_read_bin N)
      ∷ do_sound_message_read_bin N F d
      ∷ keep d (do_time_message_read_bin N)
      ∷ keep d (do_print_message_read_bin N)
      ∷ keep d (do_stufftext_message_read_bin N)
      ∷ keep d (do_setangle_message_read_bin N F)
      ∷ do_serverinfo_message_read_bin N F d
      ∷ keep d (do_lightstyle_message_read_bin N)
      ∷ keep d (do_updatename_message_read_bin N)
      ∷ keep d (do_updatefrags_message_read_bin N)
      ∷ do_clientdata_message_read_bin N F d
      ∷ keep d (do_stopsound_message_read_bin N)
      ∷ keep d (do_updatecolors_message_read_bin N)
      ∷ keep d (do_particle_message_read_bin N F)
      ∷ do_damage_message_read_bin N F d
      ∷ do_spawnstatic_message_read_bin N F d
      ∷ keep d (do_spawnbinary_message_read_bin N)
      ∷ do_spawnbaseline_message_read_bin N F d
      ∷ keep d (do_temp_entity_message_read_bin N F)
      ∷ keep d (do_setpause_message_read_bin N)
      ∷ keep d (do_signonnum_message_read_bin N)
      ∷ keep d (do_centerprint_message_read_bin N)
      ∷ keep d (do_killedmonster_message_read_bin N)
      ∷ keep d (do_foundsecret_message_read_bin N)
      ∷ do_spawnstaticsound_message_read_bin N F d
      ∷ keep d (do_intermission_message_read_bin N)
      ∷ keep d (do_finale_message_read_bin N)
      ∷ keep d (do_cdtrack_message_read_bin N)
      ∷ keep d (do_sellscreen_message_read_bin N)
      ∷ keep d (do_cutscene_message_read_bin N)
      ∷ []

  unfoldable pub do_message_read_bin : Dem → Cmd (Nodes × Dem)
  do_message_read_bin d = do
    id ← read_byte
    elim (get_elem? (readers d) id) [
      | some reader ↦ reader
      | none ↦
          if leb 0x80 id
          then do_updateentity_message_read_bin N F (id - 0x80) d
          else keep d (do_unknown_message_read_bin N id)
    ]
