-- ===== src/Dem/Block/Laws.antt =====
-- src/udem.c, `DEM_bin_to_node`: the loop over the messages of a block ends.
use lmpc.Base.{
  inl, inr, ℕ, zero, suc, ◌+◌, ◌-◌, ◌<◌, ◌≤◌, Option, none, some, arith, ltb, ltb→lt, Bool-cases,
  bit_and, nonzero,
}
use lmpc.Node.{Nodes, chain, nil, gen_nothing}
use lmpc.Node.Chain.{node_add_next, node_init_all}
use lmpc.Binblock.Hint.{h_nothing}
use lmpc.Binblock.Argument.{need}
use lmpc.Binblock.{Block, Run, ok, exit, fault, hangs, Cmd, and_then, pure}
use lmpc.Binblock.Float.{Floats}
use lmpc.Binblock.Forward.{
  Forward, forward, After, Advances, Behind, Behind-Advances, moves, if-Forward, need-Forward,
  pure-Forward, After-Forward, first-Advances, later-Advances,
}
use lmpc.Dem.State.{Dem, note}
use lmpc.Dem.Token.{Numbering}
use lmpc.Dem.Forward.Message.{do_message_read_bin-Advances}
use lmpc.Dem.Block.{
  Printf, address_note, next_message, read_messages, dem_bin_to_node, read_head, block_node,
  camera_command,
}

-- A run that has come to an end: no loop of it, the inner ones included, goes on for ever.
abbrev pub Ends : {A : Type 0} → Run (Option A) → Type 0
Ends (ok none m) = ⊥
Ends (ok (some a) m) = Unit
Ends (exit e) = Unit
Ends fault = Unit
Ends hangs = ⊥

module _ {D : Type 0} (N : Numbering) (F : Floats D) (P : Printf) where
  address_note-Forward : (opt : ℕ) (n : Nodes) → Forward (address_note N F P opt n)
  address_note-Forward opt n = forward (λ m.
      After-Forward
        (if-Forward (nonzero (bit_and opt 1)) _ _
          (need-Forward (
            node_add_next n (
              note (some (P.hex (m.base + m.p)))
                (node_init_all gen_nothing h_nothing (chain nil) 0))))
          (pure-Forward n))
        m)

  next_message-Advances : (opt : ℕ) (n : Nodes) (d : Dem) → Advances (next_message N F P opt n d)
  next_message-Advances opt n d =
      later-Advances _ _ (address_note-Forward opt n)
        (λ n'. first-Advances _ _ (do_message_read_bin-Advances N F d) (λ (tn, d'). search moves))

  Ends-and_then :
      (fuel opt : ℕ) (m : Block) (r : Run (Nodes × Dem))
      → Behind m r
      → m.end - m.p ≤ fuel
      → m.p < m.end
      → ((n : Nodes) (d : Dem) (m' : Block)
          → m'.end - m'.p < fuel
          → Ends (read_messages N F P fuel opt n d m'))
      → Ends (and_then r (λ (n, d). read_messages N F P fuel opt n d))
  Ends-and_then fuel opt m (ok (n, d) m') (h, e) enough inside ih = ih n d m' (omega arith)
  Ends-and_then fuel opt m (exit c) h enough inside ih = tt
  Ends-and_then fuel opt m fault h enough inside ih = tt
  Ends-and_then fuel opt m hangs h enough inside ih = absurd h

  -- With fuel above the bytes that are left, the loop over the messages of a block does not use it up,
  -- whatever the bytes are: each round reads a byte at least.
  pub read_messages-Ends :
      (fuel opt : ℕ) (n : Nodes) (d : Dem) (m : Block)
      → m.end - m.p < fuel
      → Ends (read_messages N F P fuel opt n d m)
  unfolding read_messages
  read_messages-Ends zero opt n d m h = elim h [ ]
  read_messages-Ends (suc fuel) opt n d m h = elim (Bool-cases (ltb m.p m.end)) [
    | inl more ↦
        rw (more, read_messages)
          (Ends-and_then fuel opt m (next_message N F P opt n d m)
            (Behind-Advances (next_message-Advances opt n d) m) (omega arith) (ltb→lt _ _ more)
            (λ n' d' m' h'. read_messages-Ends fuel opt n' d' m' h'))
    | inr done ↦ rw (done, read_messages) tt
  ]

  Ends-block_node :
      (opt frame : ℕ) (r : Run (Option (Nodes × Dem)))
      → Ends r
      → Ends (and_then r (λ o. pure (block_node N F P opt frame o)))
  Ends-block_node opt frame (ok none m) h = h
  Ends-block_node opt frame (ok (some (n, d)) m) h = tt
  Ends-block_node opt frame (exit e) h = tt
  Ends-block_node opt frame fault h = tt
  Ends-block_node opt frame hangs h = h

  read_head-Forward : Forward read_head
  unfolding read_head
  read_head-Forward = search moves

  -- The head of a block.
  Ends-first :
      {A B : Type 0} (start : Block) (r : Run A) (k : A → Cmd (Option B))
      → After start r
      → ((a : A) (m : Block) → Ends (k a m))
      → Ends (and_then r k)
  Ends-first start (ok a m) k r h = h a m
  Ends-first start (exit e) k r h = tt
  Ends-first start fault k r h = tt
  Ends-first start hangs k r h = absurd r

  -- The conversion of a block ends for every content of the block and every state: the fuel that it
  -- gives to its loop is enough.
  pub dem_bin_to_node-Ends :
      (opt frame : ℕ) (d : Dem) (m : Block) → Ends (dem_bin_to_node N F P opt frame d m)
  unfolding dem_bin_to_node
  dem_bin_to_node-Ends opt frame d m =
      Ends-first m (read_head m) _ (After-Forward read_head-Forward m) λ (ca1, ca2, ca3) m1.
        Ends-first m1 (need (camera_command N F P ca1 ca2 ca3) m1) _
          (After-Forward (need-Forward (camera_command N F P ca1 ca2 ca3)) m1)
          λ n m2.
            Ends-block_node opt frame (read_messages N F P (suc (m2.end - m2.p)) opt n d m2)
              (read_messages-Ends (suc (m2.end - m2.p)) opt n d m2 (omega arith))
