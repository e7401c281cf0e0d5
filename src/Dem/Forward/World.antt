-- ===== src/Dem/Forward/World.antt =====
-- src/udem.c: the messages that look at the names of models and sounds, or set them.
use lmpc.Binblock.Float.{Floats}
use lmpc.Binblock.Forward.{Forward, moves}
use lmpc.Dem.Forward.Names.{read_all_names-Forward}
use lmpc.Dem.State.{Dem}
use lmpc.Dem.Token.{Numbering}
use lmpc.Dem.Read.World.{
  do_sound_message_read_bin, do_spawnstaticsound_message_read_bin, do_serverinfo_message_read_bin,
  do_damage_message_read_bin, do_spawnstatic_message_read_bin, do_spawnbaseline_message_read_bin,
}

module _ {D : Type 0} (N : Numbering) (F : Floats D) (d : Dem) where
  pub do_sound_message_read_bin-Forward : Forward (do_sound_message_read_bin N F d)
  unfolding do_sound_message_read_bin
  do_sound_message_read_bin-Forward = search moves depth 40

  pub do_spawnstaticsound_message_read_bin-Forward :
      Forward (do_spawnstaticsound_message_read_bin N F d)
  unfolding do_spawnstaticsound_message_read_bin
  do_spawnstaticsound_message_read_bin-Forward = search moves depth 40

  pub do_serverinfo_message_read_bin-Forward : Forward (do_serverinfo_message_read_bin N F d)
  unfolding do_serverinfo_message_read_bin
  do_serverinfo_message_read_bin-Forward = search (moves, read_all_names-Forward) depth 40

  pub do_damage_message_read_bin-Forward : Forward (do_damage_message_read_bin N F d)
  unfolding do_damage_message_read_bin
  do_damage_message_read_bin-Forward = search moves depth 40

  pub do_spawnstatic_message_read_bin-Forward : Forward (do_spawnstatic_message_read_bin N F d)
  unfolding do_spawnstatic_message_read_bin
  do_spawnstatic_message_read_bin-Forward = search moves depth 40

  pub do_spawnbaseline_message_read_bin-Forward : Forward (do_spawnbaseline_message_read_bin N F d)
  unfolding do_spawnbaseline_message_read_bin
  do_spawnbaseline_message_read_bin-Forward = search moves depth 40

pub ruleset world_rules = (
  do_sound_message_read_bin-Forward, do_spawnstaticsound_message_read_bin-Forward,
  do_serverinfo_message_read_bin-Forward, do_damage_message_read_bin-Forward,
  do_spawnstatic_message_read_bin-Forward, do_spawnbaseline_message_read_bin-Forward,
)
