-- ===== src/Dem/Write/Client.antt =====
-- src/udem.c: the writer of the client data.
use lmpc.Base.{
  ℕ, zero, suc, ◌*◌, ◌^◌, ◌%◌, Bool, List, [], ◌∷◌, ◌==◌, ltb, if◌then◌else◌, bit_or, bit_and,
}
use lmpc.Base.Int.{ℤ, pos, negsuc}
use lmpc.Node.{Node, Nodes, nil, cons, type_of, down_of, chain_of}
use lmpc.Binblock.{Cmd, ◌>>=◌, ◌>>◌, pure, put_unsigned_char}
use lmpc.Binblock.Number.{put_short, put_long}
use lmpc.Binblock.Float.{Floats, write_char}
use lmpc.Binblock.Argument.{crash, int_at, first, rest_of}
use lmpc.Dem.Read.World.{has}
use lmpc.Dem.Write.Special.{write_id, write_argument, write_if, of_type}
use lmpc.Dem.Write.Entity.{take_float, when}
use lmpc.Dem.Token.{
  Numbering, token_view_ofs_z, token_punchangle_x, token_angles_1, token_angles_2, token_angles_3,
  token_vel_x, token_vel_y, token_vel_z, token_weapons, token_ammotype, token_armortype,
  token_megahealth, token_keys, token_power_ups, token_uk_items_b23, token_uk_items_b24,
  token_uk_items_b25, token_uk_items_b26, token_uk_items_b27, token_runes, token_uk_bit_b10,
  token_uk_bit_b11, token_weaponframe, token_armorvalue, token_weaponmodel,
}

-- `(c << v) & mask` for a constant of `width` bits: a shift by a negative number, or by the width or
-- more, is undefined.
abbrev shifted : ℕ → ℕ → ℕ → ℤ → Cmd ℕ
shifted width c mask (pos v) = if ltb v width then pure (bit_and (c * 2 ^ v) mask) else crash
shifted width c mask (negsuc v) = crash

-- The loop over the arguments of a command: each sets a bit.
unfoldable pub or_arguments : (ℤ → Cmd ℕ) → Nodes → ℕ → Cmd ℕ
or_arguments bit nil items = pure items
or_arguments bit (cons a as') items = do
  v ← int_at (down_of a)
  b ← bit v
  or_arguments bit as' (bit_or items b)

-- `0x1 << (v - 2)`, the weapon 1 apart.
abbrev pub weapon_bit : ℕ → ℤ → Cmd ℕ
weapon_bit one (pos zero) = crash
weapon_bit one (pos (suc zero)) = pure one
weapon_bit one (pos (suc (suc v))) = shifted 32 1 0xFF (pos v)
weapon_bit one (negsuc v) = crash

-- What the first loop over the commands collects.
pub record Summary : Type 0 where
  pub mask : ℕ
  pub lastitem : ℕ
  pub items : ℕ

module _ {D : Type 0} (N : Numbering) (F : Floats D) where
  abbrev set_bit : ℕ → Summary → Summary
  set_bit k s = record s { mask = bit_or s.mask k }

  abbrev add_items : ℕ → (ℤ → Cmd ℕ) → Node → Summary → Cmd Summary
  add_items t bit c s = do
    items ← or_arguments bit (chain_of c) s.items
    pure (record s { mask = bit_or s.mask 0x200; lastitem = N.number t; items = items })

  abbrev add_item : ℕ → ℕ → Summary → Summary
  add_item t b s = record s {
    mask = bit_or s.mask 0x200;
    lastitem = N.number t;
    items = bit_or s.items b;
  }

  -- The commands that only set a bit of the mask, and those of a fixed item.
  unfoldable pub simple_bits : List (ℕ × ℕ)
  simple_bits =
      (token_view_ofs_z, 1)
      ∷ (token_punchangle_x, 2)
      ∷ (token_angles_1, 4)
      ∷ (token_angles_2, 8)
      ∷ (token_angles_3, 0x10)
      ∷ (token_vel_x, 0x20)
      ∷ (token_vel_y, 0x40)
      ∷ (token_vel_z, 0x80)
      ∷ (token_uk_bit_b10, 0x400)
      ∷ (token_uk_bit_b11, 0x800)
      ∷ (token_weaponframe, 0x1000)
      ∷ (token_armorvalue, 0x2000)
      ∷ (token_weaponmodel, 0x4000)
      ∷ []

  unfoldable pub fixed_items : List (ℕ × ℕ)
  fixed_items =
      (token_megahealth, 0x10000)
      ∷ (token_uk_items_b23, 0x800000)
      ∷ (token_uk_items_b24, 0x1000000)
      ∷ (token_uk_items_b25, 0x2000000)
      ∷ (token_uk_items_b26, 0x4000000)
      ∷ (token_uk_items_b27, 0x8000000)
      ∷ []

  unfoldable pub item_lists : List (ℕ × (ℤ → Cmd ℕ))
  item_lists =
      (token_weapons, weapon_bit 0x1000)
      ∷ (token_ammotype, shifted 64 0x80 0xF00)
      ∷ (token_armortype, shifted 64 0x1000 0xE000)
      ∷ (token_keys, shifted 64 0x10000 0x60000)
      ∷ (token_power_ups, shifted 64 0x40000 0x780000)
      ∷ (token_runes, shifted 64 0x8000000 0xF0000000)
      ∷ []

  unfoldable pub note_simple : List (ℕ × ℕ) → Node → Summary → Summary
  note_simple [] c s = s
  note_simple ((t, b) ∷ ts) c s = if of_type N F c t then set_bit b s else note_simple ts c s

  unfoldable pub note_fixed : List (ℕ × ℕ) → Node → Summary → Summary
  note_fixed [] c s = s
  note_fixed ((t, b) ∷ ts) c s = if of_type N F c t then add_item t b s else note_fixed ts c s

  unfoldable pub note_list : List (ℕ × (ℤ → Cmd ℕ)) → Node → Summary → Cmd Summary
  note_list [] c s = pure s
  note_list ((t, bit) ∷ ts) c s =
      let later = note_list ts c s in if of_type N F c t then add_items t bit c s else later

  -- The switch on the type of a command: at most one of the three tables has it.
  unfoldable pub summarise : Nodes → Summary → Cmd Summary
  summarise nil s = pure s
  summarise (cons c cs) s = do
    s' ← note_list item_lists c (note_fixed fixed_items c (note_simple simple_bits c s))
    summarise cs s'

  -- `for ( ; c->type!=lastitem ; c=c->next) ; c=c->next;`
  unfoldable pub behind_item : ℕ → Nodes → Cmd Nodes
  behind_item t nil = crash
  behind_item t (cons c cs) =
      let later = behind_item t cs in if type_of c == t then pure cs else later

  abbrev write_small : ℕ → Cmd (Unit {0})
  write_small w = write_char (F.to_int (F.widen w))

  -- `if (cond) { WriteChar(m,(char)(*(float*)c->down->down)); c=c->next; }`
  abbrev write_small_if : Bool → Nodes → Cmd Nodes
  write_small_if cond c = do w ← take_float cond c; when cond (write_small w.0); pure w.1

  abbrev skip_if : Bool → Nodes → Cmd Nodes
  skip_if cond c = if cond then (do n ← first c; pure (rest_of c)) else pure c

  unfoldable pub write_motion : ℕ → Nodes → Cmd Nodes
  write_motion mask c = do
    c ← write_small_if (has mask 1) c
    c ← write_small_if (has mask 2) c
    a1 ← take_float (has mask 4) c
    a2 ← take_float (has mask 8) a1.1
    a3 ← take_float (has mask 0x10) a2.1
    x ← take_float (has mask 0x20) a3.1
    y ← take_float (has mask 0x40) x.1
    z ← take_float (has mask 0x80) y.1
    when (has mask 4) (write_small a1.0)
    when (has mask 0x20) (write_small x.0)
    when (has mask 8) (write_small a2.0)
    when (has mask 0x40) (write_small y.0)
    when (has mask 0x10) (write_small a3.0)
    when (has mask 0x80) (write_small z.0)
    pure z.1

  unfoldable pub write_status : ℕ → Nodes → Cmd (Unit {0})
  write_status mask c = do
    c ← skip_if (has mask 0x400) c
    c ← skip_if (has mask 0x800) c
    c ← write_if N F (has mask 0x1000) c
    c ← write_if N F (has mask 0x2000) c
    c ← write_if N F (has mask 0x4000) c
    write_argument N F c
    let c1 = rest_of c
    write_argument N F c1
    let c2 = rest_of c1
    write_argument N F c2
    let c3 = rest_of c2
    write_argument N F c3
    let c4 = rest_of c3
    write_argument N F c4
    let c5 = rest_of c4
    write_argument N F c5
    weapon ← first (rest_of c5)
    value ← or_arguments (weapon_bit 0) (chain_of weapon) 0
    put_unsigned_char (value % 256)

  abbrev behind_items : Summary → Nodes → Cmd Nodes
  behind_items s c = if s.items == 0 then pure c else behind_item s.lastitem c

  unfoldable pub do_dem_clientdata_message_write_bin : Node → Cmd (Unit {0})
  do_dem_clientdata_message_write_bin n = do
    write_id N F n
    s ← summarise (chain_of n) (record { mask = 0x200; lastitem = 0; items = 0 })
    put_short (pos s.mask)
    c ← write_motion s.mask (chain_of n)
    put_long (pos s.items)
    c ← behind_items s c
    write_status s.mask c
