-- ===== src/Dem/Forward/Client.antt =====
-- src/udem.c: the client data and the update of an entity.
use lmpc.Base.{ℕ, zero, suc, ◌/◌, ◌%◌, ◌==◌, ◌≡◌, false, ◌<◌, arith}
use lmpc.Base.Int.{ℤ, pos}
use lmpc.Node.{Nodes, nil, long, v_int}
use lmpc.Node.Chain.{node_init_all}
use lmpc.Binblock.Hint.{h_byte}
use lmpc.Dem.Read.World.{link_if}
use lmpc.Binblock.Float.{Floats}
use lmpc.Binblock.Forward.{Forward, >>=-Forward, pure-Forward, if-Forward, need-Forward, moves}
use lmpc.Dem.State.{Dem}
use lmpc.Dem.Token.{Numbering}
use lmpc.Dem.Read.Client.{
  numbers, numbers_if, items_commands, motion_commands, status_commands,
  do_clientdata_message_read_bin,
}
use lmpc.Dem.Read.Entity.{read_mask, read_update, build_update, do_updateentity_message_read_bin}

-- The loop ends: halving takes a number above zero down.
numbers-Forward : (k i j : ℕ) (tn : Nodes) → j < k → Forward (numbers k i j tn)
unfolding numbers
numbers-Forward zero i j tn h = absurd (omega arith)
numbers-Forward (suc k) i zero tn h = pure-Forward tn
numbers-Forward (suc k) i (suc j) tn h =
    let more : (suc j == 0) ≡ false = ground arith in
    rw (more, numbers)
      (>>=-Forward (link_if (suc j % 2 == 1) tn (node_init_all v_int h_byte (long (pos i)) 0))
        (numbers k (suc i) (suc j / 2)) (if-Forward _ _ _ (need-Forward _) (pure-Forward tn))
        (λ tn'. numbers-Forward k (suc i) (suc j / 2) tn' (omega arith)))

module _ {D : Type 0} (N : Numbering) (F : Floats D) where
  numbers_if-Forward : (value i t : ℕ) (n : Nodes) → Forward (numbers_if N F value i t n)
  unfolding numbers_if
  numbers_if-Forward value i t n =
      let loop : Forward (numbers (suc value) i value nil) =
        numbers-Forward (suc value) i value nil (omega arith) in
      search (moves, loop)

  items_commands-Forward : (items : ℕ) (n : Nodes) → Forward (items_commands N F items n)
  unfolding items_commands
  items_commands-Forward items n = search (moves, numbers_if-Forward) depth 40

  motion_commands-Forward : (mask : ℕ) → Forward (motion_commands N F mask)
  unfolding motion_commands
  motion_commands-Forward mask = search moves depth 40

  status_commands-Forward :
      (mask : ℕ) (d : Dem) (n : Nodes) → Forward (status_commands N F mask d n)
  unfolding status_commands
  status_commands-Forward mask d n = search (moves, numbers_if-Forward) depth 60

  pub do_clientdata_message_read_bin-Forward :
      (d : Dem) → Forward (do_clientdata_message_read_bin N F d)
  unfolding do_clientdata_message_read_bin
  do_clientdata_message_read_bin-Forward d =
      search (moves, motion_commands-Forward, items_commands-Forward, status_commands-Forward) depth
        20

  read_mask-Forward : (mask : ℕ) → Forward (read_mask N F mask)
  unfolding read_mask
  read_mask-Forward mask = search moves

  read_update-Forward : (mask : ℕ) → Forward (read_update N F mask)
  unfolding read_update
  read_update-Forward mask = search moves depth 40

  build_update-Forward :
      (mask : ℕ) (d : Dem) (r : ℤ × (ℕ × ℕ × ℕ × ℕ × ℕ) × (ℕ × ℕ × ℕ) × (ℕ × ℕ × ℕ))
      → Forward (build_update N F mask d r)
  build_update-Forward mask d (entity, (m, f, c, s, e), (x, y, z), (a1, a2, a3)) =
      search moves depth 40

  pub do_updateentity_message_read_bin-Forward :
      (low : ℕ) (d : Dem) → Forward (do_updateentity_message_read_bin N F low d)
  unfolding do_updateentity_message_read_bin
  do_updateentity_message_read_bin-Forward low d =
      search (moves, read_mask-Forward, read_update-Forward, build_update-Forward)

pub ruleset client_rules =
    (do_clientdata_message_read_bin-Forward, do_updateentity_message_read_bin-Forward)
