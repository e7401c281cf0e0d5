-- ===== src/Dem/Forward/Vector.antt =====
-- src/udem.c: the messages with angles and coordinates and without state.
use lmpc.Base.{ℕ}
use lmpc.Node.{Nodes}
use lmpc.Binblock.Float.{Floats}
use lmpc.Binblock.Forward.{Forward, moves}
use lmpc.Dem.Token.{Numbering}
use lmpc.Dem.Read.Vector.{
  do_setangle_message_read_bin, do_particle_message_read_bin, temp_entity,
  do_temp_entity_message_read_bin,
}

module _ {D : Type 0} (N : Numbering) (F : Floats D) where
  pub do_setangle_message_read_bin-Forward : Forward (do_setangle_message_read_bin N F)
  unfolding do_setangle_message_read_bin
  do_setangle_message_read_bin-Forward = search moves depth 40

  pub do_particle_message_read_bin-Forward : Forward (do_particle_message_read_bin N F)
  unfolding do_particle_message_read_bin
  do_particle_message_read_bin-Forward = search moves depth 40

  pub temp_entity-Forward : (t : ℕ) (n : Nodes) → Forward (temp_entity N F t n)
  unfolding temp_entity
  temp_entity-Forward t n = search moves depth 40

  pub do_temp_entity_message_read_bin-Forward : Forward (do_temp_entity_message_read_bin N F)
  unfolding do_temp_entity_message_read_bin
  do_temp_entity_message_read_bin-Forward = search (moves, temp_entity-Forward) depth 40

pub ruleset vector_rules = (
  do_setangle_message_read_bin-Forward, do_particle_message_read_bin-Forward,
  do_temp_entity_message_read_bin-Forward,
)
