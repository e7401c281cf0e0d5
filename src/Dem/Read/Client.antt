-- ===== src/Dem/Read/Client.antt =====
-- src/udem.c: the reader of the client data, whose mask says which values are there.
use lmpc.Base.{
  ℕ, zero, suc, ◌+◌, ◌*◌, ◌/◌, ◌%◌, ◌^◌, Bool, not, ◌&&◌, List, Option, none, some, ◌==◌,
  if◌then◌else◌,
}
use lmpc.Base.Int.{ℤ, pos, ◌-ℤ◌, pos_part, neg_part}
use lmpc.Base.Text.{codes}
use lmpc.Node.{Nodes, nil, long, chain, v_int}
use lmpc.Node.Chain.{node_init_all, node_add_next, node_link}
use lmpc.Binblock.{Cmd, ◌>>=◌, pure}
use lmpc.Binblock.Number.{get_next_short, get_next_long}
use lmpc.Binblock.Float.{Floats, read_byte, read_char, float_of}
use lmpc.Binblock.Hint.{h_byte, h_short, h_byte_float, h_angle}
use lmpc.Binblock.Argument.{need, hang}
use lmpc.Dem.State.{Dem, h_simple, h_dem_clientdata, note, model_name, int_command, float_command}
use lmpc.Dem.Read.Plain.{low_bits}
use lmpc.Dem.Read.World.{has, read_if, link_if}
use lmpc.Dem.Token.{
  Numbering, token_clientdata, token_view_ofs_z, token_punchangle_x, token_angles_1, token_angles_2,
  token_angles_3, token_vel_x, token_vel_y, token_vel_z, token_weapons, token_ammotype,
  token_armortype, token_megahealth, token_keys, token_power_ups, token_uk_items_b23,
  token_uk_items_b24, token_uk_items_b25, token_uk_items_b26, token_uk_items_b27, token_runes,
  token_uk_bit_b10, token_uk_bit_b11, token_weaponframe, token_armorvalue, token_weaponmodel,
  token_health, token_currentammo, token_ammo_shells, token_ammo_nails, token_ammo_rockets,
  token_ammo_cells, token_weapon,
}

-- `for (i=first, j=value, tn=NULL; j; j>>=1, i++) if (j&1) tn=node_link(tn, ...i...)`; on
-- fuel: a value above `j` is enough.
unfoldable pub numbers : ℕ → ℕ → ℕ → Nodes → Cmd Nodes
numbers zero i j tn = hang
numbers (suc k) i j tn = do
  let linked = link_if (j % 2 == 1) tn (node_init_all v_int h_byte (long (pos i)) 0)
  let more = (do tn' ← linked; numbers k (suc i) (j / 2) tn')
  if j == 0 then pure tn else more

abbrev eq_ℤ : ℤ → ℤ → Bool
eq_ℤ a b = pos_part a + neg_part b == pos_part b + neg_part a

-- A value that was announced to have changed by some amount, and has not.
abbrev unexpected : ℤ → ℤ → ℤ → Bool
unexpected last minus now = not (eq_ℤ minus (pos 0)) && not (eq_ℤ (last -ℤ minus) now)

abbrev comment_if : Bool → List ℕ → Option (List ℕ)
comment_if c s = if c then some s else none

module _ {D : Type 0} (N : Numbering) (F : Floats D) where
  abbrev read_small : Cmd ℕ
  read_small = do c ← read_char; pure (float_of F c)

  abbrev float_if : Bool → ℕ → ℕ → ℕ → Nodes → Cmd Nodes
  float_if c t h w n = link_if c n (float_command (N.number t) h w)

  abbrev flag_if : Bool → ℕ → ℕ → Nodes → Cmd Nodes
  flag_if c t h n = link_if c n (node_init_all (N.number t) h (chain nil) 0)

  -- `if (value) { the loop; n=node_link(n, node_init_all(t, H_SIMPLE, tn, 0)); }`
  unfoldable pub numbers_if : ℕ → ℕ → ℕ → Nodes → Cmd Nodes
  numbers_if value first t n =
      let linked = (do
        tn ← numbers (suc value) first value nil
        need (node_link n (node_init_all (N.number t) h_simple (chain tn) 0))) in
      if value == 0 then pure n else linked

  -- The values that the bits of `items`, as an unsigned number, stand for.
  unfoldable pub items_commands : ℕ → Nodes → Cmd Nodes
  items_commands items n = do
    n1 ← numbers_if (items % 256 * 2 + items / 2 ^ 12 % 2) 1 token_weapons n
    n2 ← numbers_if (items / 2 ^ 8 % 16) 1 token_ammotype n1
    n3 ← numbers_if (items / 2 ^ 13 % 8) 1 token_armortype n2
    n4 ← flag_if (has items (2 ^ 16)) token_megahealth h_simple n3
    n5 ← numbers_if (items / 2 ^ 17 % 4) 1 token_keys n4
    n6 ← numbers_if (items / 2 ^ 19 % 16) 1 token_power_ups n5
    n7 ← flag_if (has items (2 ^ 23)) token_uk_items_b23 0 n6
    n8 ← flag_if (has items (2 ^ 24)) token_uk_items_b24 0 n7
    n9 ← flag_if (has items (2 ^ 25)) token_uk_items_b25 0 n8
    n10 ← flag_if (has items (2 ^ 26)) token_uk_items_b26 0 n9
    n11 ← flag_if (has items (2 ^ 27)) token_uk_items_b27 0 n10
    numbers_if (items / 2 ^ 28 % 16) 1 token_runes n11

  -- The eight values that the low byte of the mask announces, in the order of the file.
  unfoldable pub motion_commands : ℕ → Cmd Nodes
  motion_commands mask = do
    view_ofs_z ← read_if (has mask 1) read_small (float_of F (pos 22))
    punchangle_x ← read_if (has mask 2) read_small (float_of F (pos 0))
    angles_1 ← read_if (has mask 4) read_small (float_of F (pos 0))
    vel_x ← read_if (has mask 0x20) read_small (float_of F (pos 0))
    angles_2 ← read_if (has mask 8) read_small (float_of F (pos 0))
    vel_y ← read_if (has mask 0x40) read_small (float_of F (pos 0))
    angles_3 ← read_if (has mask 0x10) read_small (float_of F (pos 0))
    vel_z ← read_if (has mask 0x80) read_small (float_of F (pos 0))
    n1 ← float_if (has mask 1) token_view_ofs_z h_byte_float view_ofs_z nil
    n2 ← float_if (has mask 2) token_punchangle_x h_byte_float punchangle_x n1
    n3 ← float_if (has mask 4) token_angles_1 h_angle angles_1 n2
    n4 ← float_if (has mask 8) token_angles_2 h_angle angles_2 n3
    n5 ← float_if (has mask 0x10) token_angles_3 h_angle angles_3 n4
    n6 ← float_if (has mask 0x20) token_vel_x h_byte_float vel_x n5
    n7 ← float_if (has mask 0x40) token_vel_y h_byte_float vel_y n6
    float_if (has mask 0x80) token_vel_z h_byte_float vel_z n7

  abbrev byte_command : ℕ → ℕ → Nodes
  byte_command t b = int_command (N.number t) h_byte (pos b)

  abbrev armor_command : Dem → ℕ → Nodes
  armor_command d armorvalue =
      note
        (comment_if (unexpected d.last_armor d.last_minus_armor (pos armorvalue))
          (codes "unexpected armorvalue: do you cheat?"))
        (byte_command token_armorvalue armorvalue)

  abbrev health_command : Dem → ℤ → Nodes
  health_command d health =
      note
        (comment_if (unexpected d.last_health d.last_minus_health health)
          (codes "unexpected health: do you cheat?"))
        (int_command (N.number token_health) h_short health)

  abbrev weapon_command : ℕ → Nodes → Cmd Nodes
  weapon_command weapon n =
      if weapon == 0
      then need (node_add_next n (byte_command token_weapon 1))
      else numbers_if weapon 2 token_weapon n

  abbrev with_armor : Bool → ℕ → Dem → Dem
  with_armor c armorvalue d =
      if c then record d { last_armor = pos armorvalue; last_minus_armor = pos 0 } else d

  -- The values of fixed places at the end, with the chain before them.
  unfoldable pub status_commands : ℕ → Dem → Nodes → Cmd (Nodes × Dem)
  status_commands mask d n = do
    weaponframe ← read_if (has mask 0x1000) read_byte 0
    armorvalue ← read_if (has mask 0x2000) read_byte 0
    weaponmodel ← read_if (has mask 0x4000) read_byte 0
    health ← get_next_short
    currentammo ← read_byte
    ammo_shells ← read_byte
    ammo_nails ← read_byte
    ammo_rockets ← read_byte
    ammo_cells ← read_byte
    weapon ← read_byte
    n1 ← flag_if (has mask 0x400) token_uk_bit_b10 0 n
    n2 ← flag_if (has mask 0x800) token_uk_bit_b11 0 n1
    n3 ← link_if (has mask 0x1000) n2 (byte_command token_weaponframe weaponframe)
    n4 ← link_if (has mask 0x2000) n3 (armor_command d armorvalue)
    n5 ← link_if (has mask 0x4000) n4 (
        note (model_name d.precache_models weaponmodel)
          (byte_command token_weaponmodel weaponmodel))
    n6 ← need (node_link n5 (health_command d health))
    n7 ← need (node_add_next n6 (byte_command token_currentammo currentammo))
    n8 ← need (node_add_next n7 (byte_command token_ammo_shells ammo_shells))
    n9 ← need (node_add_next n8 (byte_command token_ammo_nails ammo_nails))
    n10 ← need (node_add_next n9 (byte_command token_ammo_rockets ammo_rockets))
    n11 ← need (node_add_next n10 (byte_command token_ammo_cells ammo_cells))
    n12 ← weapon_command weapon n11
    let d' = with_armor (has mask 0x2000) armorvalue d
    pure (n12, record d' { last_health = health; last_minus_health = pos 0 })

  -- The model reads `items` in its place, and makes the commands from it before the bytes behind it
  -- are read.
  unfoldable pub do_clientdata_message_read_bin : Dem → Cmd (Nodes × Dem)
  do_clientdata_message_read_bin d = do
    word ← get_next_short
    let mask = low_bits word 65536
    n1 ← motion_commands mask
    items ← get_next_long
    n2 ← items_commands (low_bits items (2 ^ 32)) n1
    r ← status_commands mask d n2
    pure (node_init_all (N.number token_clientdata) h_dem_clientdata (chain r.0) 0, r.1)
