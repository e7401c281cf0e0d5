-- ===== src/Dem/Read/Entity.antt =====
-- src/udem.c: the reader of an entity's update, whose mask says which values are there.
use lmpc.Base.{ℕ, ◌+◌, ◌*◌, Bool, if◌then◌else◌}
use lmpc.Base.Int.{ℤ, pos}
use lmpc.Node.{Nodes, nil, chain}
use lmpc.Node.Chain.{node_init_all, node_add_next}
use lmpc.Binblock.{Cmd, ◌>>=◌, pure}
use lmpc.Binblock.Number.{get_next_short}
use lmpc.Binblock.Float.{Floats, read_byte, float_of, read_angle, read_coord}
use lmpc.Binblock.Hint.{h_byte, h_short, h_coord, h_angle}
use lmpc.Binblock.Argument.{need}
use lmpc.Dem.State.{Dem, h_simple, h_dem_updateentity, note, model_name, int_command, float_command}
use lmpc.Dem.Read.World.{has, read_if}
use lmpc.Dem.Token.{
  Numbering, token_updateentity, token_entity, token_modelindex, token_frame, token_colormap,
  token_skin, token_effects, token_origin_x, token_origin_y, token_origin_z, token_angles_1,
  token_angles_2, token_angles_3, token_new,
}

-- `if (cond) node_add_next(n, c);`
abbrev pub add_if : Bool → Nodes → Nodes → Cmd Nodes
add_if c n command = if c then need (node_add_next n command) else pure n

module _ {D : Type 0} (N : Numbering) (F : Floats D) where
  abbrev read_entity : Cmd ℤ
  read_entity = get_next_short

  abbrev entity_byte : Cmd ℤ
  entity_byte = do b ← read_byte; pure (pos b)

  -- `if (mask & 1) mask |= ReadByte(m) << 8;` of a mask below 0x80.
  unfoldable pub read_mask : ℕ → Cmd ℕ
  read_mask mask =
      let more = (do b ← read_byte; pure (mask + b * 256)) in if has mask 1 then more else pure mask

  -- The five bytes, then the coordinates and angles in turns.
  unfoldable pub read_update : ℕ → Cmd (ℤ × (ℕ × ℕ × ℕ × ℕ × ℕ) × (ℕ × ℕ × ℕ) × (ℕ × ℕ × ℕ))
  read_update mask = do
    entity ← if has mask 0x4000 then read_entity else entity_byte
    modelindex ← read_if (has mask 0x400) read_byte 0
    frame ← read_if (has mask 0x40) read_byte 0
    colormap ← read_if (has mask 0x800) read_byte 0
    skin ← read_if (has mask 0x1000) read_byte 0
    effects ← read_if (has mask 0x2000) read_byte 0
    x ← read_if (has mask 2) (read_coord F) (float_of F (pos 0))
    a ← read_if (has mask 0x100) (read_angle F) (float_of F (pos 0))
    y ← read_if (has mask 4) (read_coord F) (float_of F (pos 0))
    b ← read_if (has mask 0x10) (read_angle F) (float_of F (pos 0))
    z ← read_if (has mask 8) (read_coord F) (float_of F (pos 0))
    c ← read_if (has mask 0x200) (read_angle F) (float_of F (pos 0))
    pure (entity, (modelindex, frame, colormap, skin, effects), (x, y, z), (a, b, c))

  abbrev byte_update : ℕ → ℕ → Nodes
  byte_update t b = int_command (N.number t) h_byte (pos b)

  abbrev coord_update : ℕ → ℕ → Nodes
  coord_update t w = float_command (N.number t) h_coord w

  abbrev angle_update : ℕ → ℕ → Nodes
  angle_update t w = float_command (N.number t) h_angle w

  abbrev pub build_update :
      ℕ → Dem → ℤ × (ℕ × ℕ × ℕ × ℕ × ℕ) × (ℕ × ℕ × ℕ) × (ℕ × ℕ × ℕ) → Cmd Nodes
  build_update mask d (entity, (modelindex, frame, colormap, skin, effects), (x, y, z), (a, b, c)) =
      do
        n1 ← add_if (has mask 0x400) (int_command (N.number token_entity) h_short entity) (
            note (model_name d.precache_models modelindex)
              (byte_update token_modelindex modelindex))
        n2 ← add_if (has mask 0x40) n1 (byte_update token_frame frame)
        n3 ← add_if (has mask 0x800) n2 (byte_update token_colormap colormap)
        n4 ← add_if (has mask 0x1000) n3 (byte_update token_skin skin)
        n5 ← add_if (has mask 0x2000) n4 (byte_update token_effects effects)
        n6 ← add_if (has mask 2) n5 (coord_update token_origin_x x)
        n7 ← add_if (has mask 4) n6 (coord_update token_origin_y y)
        n8 ← add_if (has mask 8) n7 (coord_update token_origin_z z)
        n9 ← add_if (has mask 0x100) n8 (angle_update token_angles_1 a)
        n10 ← add_if (has mask 0x10) n9 (angle_update token_angles_2 b)
        n11 ← add_if (has mask 0x200) n10 (angle_update token_angles_3 c)
        add_if (has mask 0x20) n11 (node_init_all (N.number token_new) h_simple (chain nil) 0)

  unfoldable pub do_updateentity_message_read_bin : ℕ → Dem → Cmd (Nodes × Dem)
  do_updateentity_message_read_bin low d = do
    mask ← read_mask low
    r ← read_update mask
    n ← build_update mask d r
    pure (node_init_all (N.number token_updateentity) h_dem_updateentity (chain n) 0, d)
