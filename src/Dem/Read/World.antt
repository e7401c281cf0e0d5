-- ===== src/Dem/Read/World.antt =====
-- src/udem.c: the readers of the messages that look at the names of models and sounds, or set them.
use lmpc.Base.{ℕ, zero, suc, ◌%◌, ◌/◌, Bool, List, [], ◌∷◌, ◌==◌, if◌then◌else◌, length}
use lmpc.Base.Int.{pos}
use lmpc.Node.{◌+++◌, Nodes, nil, long, text, chain, v_int, v_string}
use lmpc.Node.Chain.{node_init_all, node_add_next, node_link}
use lmpc.Binblock.{Cmd, ◌>>=◌, pure, capacity}
use lmpc.Binblock.Number.{get_next_short, get_next_long}
use lmpc.Binblock.Text.{get_next_string}
use lmpc.Binblock.Float.{Floats, read_byte, float_of, over, read_angle, read_coord}
use lmpc.Binblock.Hint.{
  h_byte, h_short, h_long, h_coord, h_angle, h_vol, h_attenuation, h_string, h_stringlist,
}
use lmpc.Binblock.Argument.{need, hang}
use lmpc.Dem.State.{
  Dem, h_simple, h_dem_sound, h_dem_spawnstatic, h_dem_spawnbaseline, note, precached, model_name,
  int_command, float_command, string_command,
}
use lmpc.Dem.Read.Plain.{channel_of, entity_of}
use lmpc.Dem.Read.Vector.{coords, vector_command}
use lmpc.Dem.Token.{
  Numbering, token_sound, token_vol, token_attenuation, token_channel, token_entity, token_soundnum,
  token_origin, token_serverinfo, token_serverversion, token_maxclients, token_multi, token_mapname,
  token_models, token_sounds, token_damage, token_save, token_take, token_spawnstatic,
  token_spawnbaseline, token_default_modelindex, token_default_frame, token_default_colormap,
  token_default_skin, token_default_origin, token_default_angles, token_spawnstaticsound,
}

-- `mask & k` as a test, for a power of two k.
abbrev pub has : ℕ → ℕ → Bool
has mask k = mask / k % 2 == 1

-- `cond ? read : default`
abbrev pub read_if {ℓ} : {A : Type ℓ} → Bool → Cmd A → A → Cmd A
read_if c read d = if c then read else pure d

-- `if (cond) n=node_link(n, c);`
abbrev pub link_if : Bool → Nodes → Nodes → Cmd Nodes
link_if c n command = if c then need (node_link n command) else pure n

-- The strings up to the first empty one, with fuel.
unfoldable pub read_names : ℕ → Cmd (List (List ℕ))
read_names zero = hang
read_names (suc k) = do
  buf ← get_next_string
  let more = (do rest ← read_names k; pure (buf ∷ rest))
  if length buf == 0 then pure [] else more

-- No string is read behind the buffer, so its size is fuel enough.
abbrev pub read_all_names : Cmd (List (List ℕ))
read_all_names = do k ← capacity; read_names (suc k)

-- The strings as one chain of arguments.
abbrev pub name_nodes : List (List ℕ) → Nodes
name_nodes [] = nil
name_nodes (s ∷ ss) = node_init_all v_string h_stringlist (text s) 0 +++ name_nodes ss

module _ {D : Type 0} (N : Numbering) (F : Floats D) where
  -- The volume and the attenuation of a sound.
  abbrev pub read_vol : Cmd ℕ
  read_vol = do b ← read_byte; pure (F.narrow (over F (float_of F (pos b)) (F.lit (pos 255) 1)))

  abbrev pub read_attenuation : Cmd ℕ
  read_attenuation = do
    b ← read_byte
    pure (F.narrow (over F (float_of F (pos b)) (F.lit (pos 64) 1)))

  abbrev pub soundnum_command : Dem → ℕ → Nodes
  soundnum_command d soundnum =
      note (precached d.precache_sounds soundnum)
        (int_command (N.number token_soundnum) h_byte (pos soundnum))

  abbrev vol_command : ℕ → Nodes
  vol_command w = float_command (N.number token_vol) h_vol w

  abbrev attenuation_command : ℕ → Nodes
  attenuation_command w = float_command (N.number token_attenuation) h_attenuation w

  unfoldable pub do_sound_message_read_bin : Dem → Cmd (Nodes × Dem)
  do_sound_message_read_bin d = do
    mask ← read_byte
    vol ← read_if (has mask 1) read_vol (float_of F (pos 0))
    attenuation ← read_if (has mask 2) read_attenuation (float_of F (pos 0))
    entity_channel ← get_next_short
    soundnum ← read_byte
    origin ← coords N F
    n1 ← link_if (has mask 1) nil (vol_command vol)
    n2 ← link_if (has mask 2) n1 (attenuation_command attenuation)
    n3 ←
        need
          (node_link n2 (int_command (N.number token_channel) 0 (pos (channel_of entity_channel))))
    n4 ←
        need (node_link n3 (int_command (N.number token_entity) 0 (pos (entity_of entity_channel))))
    n5 ← need (node_link n4 (soundnum_command d soundnum))
    o ← vector_command N F token_origin h_coord origin
    n6 ← need (node_link n5 o)
    pure (node_init_all (N.number token_sound) h_dem_sound (chain n6) 0, d)

  unfoldable pub do_spawnstaticsound_message_read_bin : Dem → Cmd (Nodes × Dem)
  do_spawnstaticsound_message_read_bin d = do
    origin ← coords N F
    soundnum ← read_byte
    vol ← read_vol
    attenuation ← read_attenuation
    n ← vector_command N F token_origin h_coord origin
    n1 ← need (node_add_next n (soundnum_command d soundnum))
    n2 ← need (node_add_next n1 (vol_command vol))
    n3 ← need (node_add_next n2 (attenuation_command attenuation))
    pure (node_init_all (N.number token_spawnstaticsound) h_simple (chain n3) 0, d)

  unfoldable pub do_serverinfo_message_read_bin : Dem → Cmd (Nodes × Dem)
  do_serverinfo_message_read_bin d = do
    serverversion ← get_next_long
    maxclients ← read_byte
    multi ← read_byte
    mapname ← get_next_string
    models ← read_all_names
    sounds ← read_all_names
    n1 ← need (
        node_add_next (int_command (N.number token_serverversion) h_long serverversion)
          (int_command (N.number token_maxclients) h_byte (pos maxclients)))
    n2 ← need (node_add_next n1 (int_command (N.number token_multi) h_byte (pos multi)))
    n3 ← need (node_add_next n2 (string_command (N.number token_mapname) h_string mapname))
    n4 ←
        need
          (node_add_next n3 (node_init_all (N.number token_models) 0 (chain (name_nodes models)) 0))
    n5 ←
        need
          (node_add_next n4 (node_init_all (N.number token_sounds) 0 (chain (name_nodes sounds)) 0))
    let d' = record d { precache_models = models; precache_sounds = sounds }
    pure (node_init_all (N.number token_serverinfo) h_simple (chain n5) 0, d')

  unfoldable pub do_damage_message_read_bin : Dem → Cmd (Nodes × Dem)
  do_damage_message_read_bin d = do
    save ← read_byte
    take ← read_byte
    origin ← coords N F
    o ← vector_command N F token_origin h_coord origin
    n ← need (
        node_add_next
          (node_init_all (N.number token_take) 0
            (chain (node_init_all v_int h_byte (long (pos take)) 0)) 0)
          o)
    n' ← need (
        node_add_next
          (node_init_all (N.number token_save) 0
            (chain (node_init_all v_int h_byte (long (pos save)) 0)) 0)
          n)
    pure (
      node_init_all (N.number token_damage) h_simple (chain n') 0,
      record d { last_minus_armor = pos save; last_minus_health = pos take },
    )

  -- The four bytes and the six interleaved numbers of a static entity, behind the chain n.
  abbrev read_default : Cmd ((ℕ × ℕ × ℕ × ℕ) × (ℕ × ℕ × ℕ) × (ℕ × ℕ × ℕ))
  read_default = do
    modelindex ← read_byte
    frame ← read_byte
    colormap ← read_byte
    skin ← read_byte
    x ← read_coord F
    a ← read_angle F
    y ← read_coord F
    b ← read_angle F
    z ← read_coord F
    c ← read_angle F
    pure ((modelindex, frame, colormap, skin), (x, y, z), (a, b, c))

  abbrev modelindex_command : Dem → ℕ → Nodes
  modelindex_command d i =
      note (model_name d.precache_models i)
        (int_command (N.number token_default_modelindex) h_byte (pos i))

  abbrev add_default : ℕ × ℕ × ℕ → ℕ × ℕ × ℕ → ℕ × ℕ × ℕ → Nodes → Cmd Nodes
  add_default (frame, colormap, skin) origin angles n = do
    n1 ← need (node_add_next n (int_command (N.number token_default_frame) h_byte (pos frame)))
    n2 ←
        need
          (node_add_next n1 (int_command (N.number token_default_colormap) h_byte (pos colormap)))
    n3 ← need (node_add_next n2 (int_command (N.number token_default_skin) h_byte (pos skin)))
    o ← vector_command N F token_default_origin h_coord origin
    n4 ← need (node_add_next n3 o)
    a ← vector_command N F token_default_angles h_angle angles
    need (node_add_next n4 a)

  unfoldable pub do_spawnstatic_message_read_bin : Dem → Cmd (Nodes × Dem)
  do_spawnstatic_message_read_bin d = do
    r ← read_default
    let ((modelindex, frame, colormap, skin), origin, angles) = r
    n ← add_default (frame, colormap, skin) origin angles (modelindex_command d modelindex)
    pure (node_init_all (N.number token_spawnstatic) h_dem_spawnstatic (chain n) 0, d)

  unfoldable pub do_spawnbaseline_message_read_bin : Dem → Cmd (Nodes × Dem)
  do_spawnbaseline_message_read_bin d = do
    entity ← get_next_short
    r ← read_default
    let ((modelindex, frame, colormap, skin), origin, angles) = r
    n ← need (
        node_add_next (int_command (N.number token_entity) h_short entity)
          (modelindex_command d modelindex))
    n' ← add_default (frame, colormap, skin) origin angles n
    pure (node_init_all (N.number token_spawnbaseline) h_dem_spawnbaseline (chain n') 0, d)
