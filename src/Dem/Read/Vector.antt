-- ===== src/Dem/Read/Vector.antt =====
-- src/udem.c: the readers of the messages with angles and coordinates and without state.
use lmpc.Base.{ℕ, ◌==◌, ◌||◌, Bool, if◌then◌else◌, leb}
use lmpc.Base.Int.{pos}
use lmpc.Node.{Nodes, float, chain, v_float}
use lmpc.Node.Chain.{node_init_all, node_add_next, node_triple_command_init}
use lmpc.Binblock.{Cmd, ◌>>=◌, pure}
use lmpc.Binblock.Number.{get_next_short}
use lmpc.Binblock.Float.{Floats, read_byte, read_char, float_of, times, read_angle, read_coord}
use lmpc.Binblock.Hint.{h_byte, h_short, h_coord, h_angle, h_vel}
use lmpc.Binblock.Argument.{need}
use lmpc.Dem.State.{h_simple, int_command}
use lmpc.Dem.Token.{
  Numbering, token_setangle, token_particle, token_origin, token_vel, token_count, token_color,
  token_temp_entity, token_entitytype, token_entity, token_trace_endpos, token_range,
}

module _ {D : Type 0} (N : Numbering) (F : Floats D) where
  -- `for (i=0 ; i<3 ; i++) origin[i] = ReadCoord(m);`
  abbrev pub read_three : Cmd ℕ → Cmd (ℕ × ℕ × ℕ)
  read_three read = do x ← read; y ← read; z ← read; pure (x, y, z)

  abbrev pub coords : Cmd (ℕ × ℕ × ℕ)
  coords = read_three (read_coord F)

  abbrev pub vector_command : ℕ → ℕ → ℕ × ℕ × ℕ → Cmd Nodes
  vector_command t h (x, y, z) =
      need (node_triple_command_init (N.number t) v_float h (float x) (float y) (float z) 0)

  abbrev arguments : ℕ → ℕ × ℕ × ℕ → Cmd Nodes
  arguments h (x, y, z) = do
    n ←
        need (
          node_add_next (node_init_all v_float h (float x) 0) (node_init_all v_float h (float y) 0))
    need (node_add_next n (node_init_all v_float h (float z) 0))

  unfoldable pub do_setangle_message_read_bin : Cmd Nodes
  do_setangle_message_read_bin = do
    angles ← read_three (read_angle F)
    tn ← arguments h_angle angles
    pure (node_init_all (N.number token_setangle) h_simple (chain tn) 0)

  abbrev read_speed : Cmd ℕ
  read_speed = do c ← read_char; pure (F.narrow (times F (float_of F c) (F.lit (pos 1) 16)))

  unfoldable pub do_particle_message_read_bin : Cmd Nodes
  do_particle_message_read_bin = do
    origin ← coords
    vel ← read_three read_speed
    count ← read_byte
    color ← read_byte
    c ← need (
        node_add_next (int_command (N.number token_count) h_byte (pos count))
          (int_command (N.number token_color) h_byte (pos color)))
    v ← vector_command token_vel h_vel vel
    n ← need (node_add_next v c)
    o ← vector_command token_origin h_coord origin
    n' ← need (node_add_next o n)
    pure (node_init_all (N.number token_particle) h_simple (chain n') 0)

  -- The entity types with an origin, and those with an entity, an origin and an end.
  abbrev pub is_point : ℕ → Bool
  is_point t = leb t 4 || (t == 7) || (t == 8) || (t == 10) || (t == 11)

  abbrev pub is_beam : ℕ → Bool
  is_beam t = (t == 5) || (t == 6) || (t == 9) || (t == 13)

  abbrev point_entity : Nodes → Cmd Nodes
  point_entity n = do
    origin ← coords
    o ← vector_command token_origin h_coord origin
    need (node_add_next n o)

  abbrev beam_entity : Nodes → Cmd Nodes
  beam_entity n = do
    entity ← get_next_short
    origin ← coords
    trace_endpos ← coords
    n1 ← need (node_add_next n (int_command (N.number token_entity) h_short entity))
    o ← vector_command token_origin h_coord origin
    n2 ← need (node_add_next n1 o)
    e ← vector_command token_trace_endpos h_coord trace_endpos
    need (node_add_next n2 e)

  abbrev explosion_entity : Nodes → Cmd Nodes
  explosion_entity n = do
    origin ← coords
    color ← read_byte
    range ← read_byte
    o ← vector_command token_origin h_coord origin
    n1 ← need (node_add_next n o)
    n2 ← need (node_add_next n1 (int_command (N.number token_color) h_byte (pos color)))
    need (node_add_next n2 (int_command (N.number token_range) h_byte (pos range)))

  -- The two switches of the source take the same case; any other type has nothing more.
  unfoldable pub temp_entity : ℕ → Nodes → Cmd Nodes
  temp_entity t n =
      if is_point t
      then point_entity n
      else if is_beam t
      then beam_entity n
      else if t == 12
      then explosion_entity n
      else pure n

  unfoldable pub do_temp_entity_message_read_bin : Cmd Nodes
  unfolding temp_entity
  do_temp_entity_message_read_bin = do
    entitytype ← read_byte
    n ← temp_entity entitytype (int_command (N.number token_entitytype) h_byte (pos entitytype))
    pure (node_init_all (N.number token_temp_entity) h_simple (chain n) 0)
