-- ===== src/Dem/Write/Special.antt =====
-- src/udem.c: the writers of the messages that combine values, or check their commands.
use lmpc.Base.{ℕ, ◌+◌, ◌*◌, Bool, ◌||◌, ◌==◌, if◌then◌else◌}
use lmpc.Base.Int.{ℤ, pos}
use lmpc.Base.Result.{Error}
use lmpc.Node.{Node, Nodes, nil, cons, type_of, down_of, chain_of}
use lmpc.Node.Token.{node_token_id}
use lmpc.Binblock.{Cmd, ◌>>=◌, ◌>>◌, pure, put_unsigned_char}
use lmpc.Binblock.Number.{put_short}
use lmpc.Binblock.Float.{Floats}
use lmpc.Binblock.Argument.{
  quit, int_at, float_at, first, rest_of, write_first, do_simple_arguments_write_bin,
}
use lmpc.Dem.Read.Plain.{low_bits}
use lmpc.Dem.Token.{
  Numbering, dem_token, token_vol, token_attenuation, token_entity, token_default_modelindex,
  token_default_frame, token_default_colormap, token_default_skin, token_default_origin,
  token_default_angles,
}

-- `*(long*)c->down->down` and `*(float*)c->down->down` of the first command of a chain.
abbrev pub int_argument : Nodes → Cmd ℤ
int_argument c = do n ← first c; a ← first (chain_of n); int_at (down_of a)

abbrev pub float_argument : Nodes → Cmd ℕ
float_argument c = do n ← first c; a ← first (chain_of n); float_at (down_of a)

module _ {D : Type 0} (N : Numbering) (F : Floats D) where
  -- `WriteByte(m,node_token_id(n->type))`
  abbrev pub write_id : Node → Cmd (Unit {0})
  write_id n = put_unsigned_char (node_token_id (dem_token N) (type_of n))

  -- `do_simple_argument_write_bin(c->down,m)` of the first command of a chain.
  abbrev pub write_argument : Nodes → Cmd (Unit {0})
  write_argument c = do n ← first c; write_first F (chain_of n)

  -- `if (cond) { do_simple_argument_write_bin(c->down,m); c=c->next; }`, which gives the new `c`.
  abbrev pub write_if : Bool → Nodes → Cmd Nodes
  write_if cond c = if cond then (do write_argument c; pure (rest_of c)) else pure c

  -- `n->type==t`
  abbrev pub of_type : Node → ℕ → Bool
  of_type n t = type_of n == N.number t

  abbrev pub pack : ℤ → ℤ → ℤ
  pack channel entity = pos (low_bits channel 8 + low_bits entity 8192 * 8)

  unfoldable pub do_dem_sound_message_write_bin : Node → Cmd (Unit {0})
  do_dem_sound_message_write_bin n = do
    write_id n
    let c = chain_of n
    c1 ← first c
    c2 ← first (rest_of c)
    let vol = of_type c1 token_vol
    let attenuation = of_type c1 token_attenuation || of_type c2 token_attenuation
    put_unsigned_char ((if vol then 1 else 0) + (if attenuation then 2 else 0))
    c ← write_if vol (chain_of n)
    c ← write_if attenuation c
    channel ← int_argument c
    entity ← int_argument (rest_of c)
    put_short (pack channel entity)
    write_argument (rest_of (rest_of c))
    origin ← first (rest_of (rest_of (rest_of c)))
    do_simple_arguments_write_bin F (chain_of origin)

  unfoldable pub do_dem_stopsound_message_write_bin : Node → Cmd (Unit {0})
  do_dem_stopsound_message_write_bin n = do
    write_id n
    channel ← int_argument (chain_of n)
    entity ← int_argument (rest_of (chain_of n))
    put_short (pack channel entity)

  unfoldable pub do_dem_updatecolors_message_write_bin : Node → Cmd (Unit {0})
  do_dem_updatecolors_message_write_bin n = do
    write_id n
    write_argument (chain_of n)
    c ← first (rest_of (chain_of n))
    a1 ← first (chain_of c)
    shirt ← int_at (down_of a1)
    a2 ← first (rest_of (chain_of c))
    pants ← int_at (down_of a2)
    put_unsigned_char (low_bits shirt 16 * 16 + low_bits pants 16)

  -- The two vectors of three arguments that are written in turns.
  abbrev turns : Nodes → Nodes → Cmd (Unit {0})
  turns a a2 = do
    write_first F a
    write_first F a2
    write_first F (rest_of a)
    write_first F (rest_of a2)
    write_first F (rest_of (rest_of a))
    write_first F (rest_of (rest_of a2))

  -- A command that must be there, of a type: its argument is written.
  abbrev expect_type : Node → ℕ → Cmd (Unit {0})
  expect_type c t = if of_type c t then pure tt else quit Error.syntax

  abbrev expect : Nodes → ℕ → Cmd (Unit {0})
  expect nil t = quit Error.syntax
  expect (cons c cs) t = do expect_type c t; write_first F (chain_of c)

  -- Without the test for NULL.
  abbrev expect_next : Nodes → ℕ → Cmd (Unit {0})
  expect_next c t = do n ← first c; expect_type n t; write_first F (chain_of n)

  unfoldable pub do_dem_spawnstatic_message_write_bin : Node → Cmd (Unit {0})
  do_dem_spawnstatic_message_write_bin n = do
    write_id n
    let c1 = chain_of n
    expect c1 token_default_modelindex
    let c2 = rest_of c1
    expect_next c2 token_default_frame
    let c3 = rest_of c2
    expect_next c3 token_default_colormap
    let c4 = rest_of c3
    expect_next c4 token_default_skin
    let c5 = rest_of c4
    origin ← first c5
    angles ← first (rest_of c5)
    turns (chain_of origin) (chain_of angles)

  -- A command that must be there, of a type.
  abbrev expect_command : Nodes → ℕ → Cmd Node
  expect_command nil t = quit Error.syntax
  expect_command (cons c cs) t = do expect_type c t; pure c

  unfoldable pub do_dem_spawnbaseline_message_write_bin : Node → Cmd (Unit {0})
  do_dem_spawnbaseline_message_write_bin n = do
    write_id n
    let c1 = chain_of n
    expect c1 token_entity
    let c2 = rest_of c1
    expect c2 token_default_modelindex
    let c3 = rest_of c2
    expect c3 token_default_frame
    let c4 = rest_of c3
    expect c4 token_default_colormap
    let c5 = rest_of c4
    expect c5 token_default_skin
    let c6 = rest_of c5
    origin ← expect_command c6 token_default_origin
    angles ← expect_command (rest_of c6) token_default_angles
    turns (chain_of origin) (chain_of angles)
