-- ===== src/Dem/Write/Entity.antt =====
-- src/udem.c: the writer of an entity's update.
use lmpc.Base.{ℕ, ◌+◌, ◌/◌, ◌%◌, Bool, if◌then◌else◌, bit_or, nonzero}
use lmpc.Base.Int.{ℤ, pos, ltb_ℤ}
use lmpc.Node.{Node, Nodes, nil, cons, chain_of}
use lmpc.Binblock.{Cmd, ◌>>=◌, ◌>>◌, pure, put_unsigned_char}
use lmpc.Binblock.Number.{to_short}
use lmpc.Binblock.Float.{Floats, write_byte, write_coord, write_angle}
use lmpc.Binblock.Argument.{rest_of}
use lmpc.Dem.Read.World.{has}
use lmpc.Dem.Write.Special.{int_argument, float_argument, write_argument, write_if, of_type}
use lmpc.Dem.Token.{
  Numbering, token_modelindex, token_frame, token_colormap, token_skin, token_effects,
  token_origin_x, token_origin_y, token_origin_z, token_angles_1, token_angles_2, token_angles_3,
  token_new,
}

-- `if (cond) { v = *(float*)c->down->down; c=c->next; }`: the value, which is not used without the
-- condition, and the new `c`.
abbrev pub take_float : Bool → Nodes → Cmd (ℕ × Nodes)
take_float cond c = if cond then (do w ← float_argument c; pure (w, rest_of c)) else pure (0, c)

-- `if (cond) write(m, v);`
abbrev pub when : Bool → Cmd (Unit {0}) → Cmd (Unit {0})
when cond c = if cond then c else pure tt

module _ {D : Type 0} (N : Numbering) (F : Floats D) where
  -- The bit that a command sets in the mask.
  unfoldable pub update_bit : Node → ℕ
  update_bit c =
      if of_type N F c token_modelindex
      then 0x400
      else if of_type N F c token_frame
      then 0x40
      else if of_type N F c token_colormap
      then 0x800
      else if of_type N F c token_skin
      then 0x1000
      else if of_type N F c token_effects
      then 0x2000
      else if of_type N F c token_origin_x
      then 2
      else if of_type N F c token_origin_y
      then 4
      else if of_type N F c token_origin_z
      then 8
      else if of_type N F c token_angles_1
      then 0x100
      else if of_type N F c token_angles_2
      then 0x10
      else if of_type N F c token_angles_3
      then 0x200
      else if of_type N F c token_new
      then 0x20
      else 0

  unfoldable pub update_mask : Nodes → ℕ → ℕ
  update_mask nil mask = mask
  update_mask (cons c cs) mask = update_mask cs (bit_or mask (update_bit c))

  abbrev pub is_wide : ℤ → Bool
  is_wide entity = ltb_ℤ (pos 0xFF) entity

  abbrev pub full_mask : ℕ → ℤ → ℕ
  full_mask mask entity =
      let mask' = if is_wide entity then bit_or mask 0x4000 else mask in
      if nonzero (mask' / 256) then bit_or mask' 1 else mask'

  unfoldable pub do_dem_updateentity_message_write_bin : Node → Cmd (Unit {0})
  do_dem_updateentity_message_write_bin n = do
    let c = chain_of n
    number ← int_argument c
    let entity = to_short number
    let mask = full_mask (update_mask c 0) entity
    put_unsigned_char (mask % 0x80 + 0x80)
    when (has mask 1) (put_unsigned_char (mask / 256 % 256))
    if is_wide entity then write_argument N F c else write_byte entity
    c ← write_if N F (has mask 0x400) (rest_of (chain_of n))
    c ← write_if N F (has mask 0x40) c
    c ← write_if N F (has mask 0x800) c
    c ← write_if N F (has mask 0x1000) c
    c ← write_if N F (has mask 0x2000) c
    x ← take_float (has mask 2) c
    y ← take_float (has mask 4) x.1
    z ← take_float (has mask 8) y.1
    a1 ← take_float (has mask 0x100) z.1
    a2 ← take_float (has mask 0x10) a1.1
    a3 ← take_float (has mask 0x200) a2.1
    when (has mask 2) (write_coord F x.0)
    when (has mask 0x100) (write_angle F a1.0)
    when (has mask 4) (write_coord F y.0)
    when (has mask 0x10) (write_angle F a2.0)
    when (has mask 8) (write_coord F z.0)
    when (has mask 0x200) (write_angle F a3.0)
