-- ===== src/Dem/RoundTrip/Block.antt =====
-- src/udem.c: `DEM_bin_to_node` and `DEM_block_write_bin`, one after the other.
use lmpc.Base.{
  ℕ, zero, suc, ◌+◌, ◌-◌, ◌^◌, ◌<◌, ◌≤◌, ◌≡◌, ◌∙◌, refl, ap, sym, false, none, some, List, [], ◌∷◌,
  ◌++◌, arith, length, All, ltb, lt→ltb, length-append,
}
use lmpc.Base.Int.{ℤ, pos}
use lmpc.Node.{float, v_float, Node, Nodes, node, nil, cons, chain, ◌+++◌}
use lmpc.Node.Chain.{node_add_next}
use lmpc.Node.Chain.Laws.{node_add_next-+++, +++_assoc}
use lmpc.Binblock.{Block, ok, and_then, ◌>>=◌, pure}
use lmpc.Binblock.Bytes.{Holds, skip, skip-back_to}
use lmpc.Binblock.Argument.{need}
use lmpc.Binblock.Float.{Floats}
use lmpc.Binblock.Codec.{
  Reads, Writes, Reads-run, >>=-Reads, map-Reads, long-Reads, float-Reads, pure-Writes, >>-Writes,
  Holds-append, Holds-skip, skip-append, IsLong,
}
use lmpc.Binblock.Number.{signed_long, get_next_long, get_next_float}
use lmpc.Binblock.RoundTrip.{long_bytes}
use lmpc.Dem.State.{Dem}
use lmpc.Dem.Token.{Numbering, token_camera, token_block}
use lmpc.Binblock.Hint.{h_float}
use lmpc.Dem.Block.{Printf, read_head, next_message, read_messages, dem_bin_to_node}
use lmpc.Dem.Write.Block.{write_messages}
use lmpc.Dem.RoundTrip.Simple.{write_message-do_message_read_bin}
use lmpc.Dem.RoundTrip.Message.{Message, IsMessage, encode, encode-nonempty}

abbrev pub encode_all : List Message → List ℕ
encode_all [] = []
encode_all (x ∷ xs) = encode x ++ encode_all xs

skip-p : (n : ℕ) (m : Block) → (skip n m).p ≡ m.p + n
skip-p n m = ap (λ b. b.p) (skip-back_to n m)

skip-end : (n : ℕ) (m : Block) → (skip n m).end ≡ m.end
skip-end n m = ap (λ b. b.end) (skip-back_to n m)

not_ltb : (a b : ℕ) → b ≤ a → ltb a b ≡ false
not_ltb a b h = ground arith

+++-nil : (a : Nodes) → a +++ nil ≡ a
+++-nil nil = refl
+++-nil (cons n a) = ap (cons n) (+++-nil a)

module _ {D : Type 0} (N : Numbering) (F : Floats D) (P : Printf) (d : Dem) where
  -- The nodes of the messages.
  unfoldable pub nodes : (xs : List Message) → All IsMessage xs → Nodes
  nodes [] h = nil
  nodes (x ∷ xs) (h, hs) = cons (write_message-do_message_read_bin N F d x h).0 (nodes xs hs)

  pub nodes-Writes :
      (xs : List Message) (h : All IsMessage xs)
      → Writes (write_messages N F (nodes xs h)) (encode_all xs)
  unfolding write_messages nodes
  nodes-Writes [] h = pure-Writes
  nodes-Writes (x ∷ xs) (h, hs) =
      >>-Writes _ _ (encode x) (encode_all xs) (write_message-do_message_read_bin N F d x h).1.1
        (nodes-Writes xs hs)

  next_message-node :
      (c : Node) (cs : Nodes) (x : Message) (h : IsMessage x) (m : Block)
      → Holds m.buffer m.p (encode x)
      → next_message N F P 0 (cons c cs) d m
        ≡ ok
            ((cons c cs +++ cons (write_message-do_message_read_bin N F d x h).0 nil), d)
            (skip (length (encode x)) m)
  next_message-node c cs x h m holds =
      ap
        (λ r.
          and_then r (λ (tn, d'). need (node_add_next (cons c cs) tn) >>= λ n''. pure (n'', d')))
        (Reads-run (write_message-do_message_read_bin N F d x h).1.0 m holds)
      ∙ ap (λ o. and_then (need o (skip (length (encode x)) m)) (λ n''. pure (n'', d)))
          (node_add_next-+++ c cs (cons (write_message-do_message_read_bin N F d x h).0 nil))

  read_messages-nodes :
      (xs : List Message) (h : All IsMessage xs) (fuel : ℕ) (c : Node) (cs : Nodes) (m : Block)
      → Holds m.buffer m.p (encode_all xs)
      → m.end ≡ m.p + length (encode_all xs)
      → length (encode_all xs) < fuel
      → read_messages N F P fuel 0 (cons c cs) d m
        ≡ ok (some (cons c cs +++ nodes xs h, d)) (skip (length (encode_all xs)) m)
  unfolding read_messages nodes
  read_messages-nodes [] h zero c cs m holds end few = elim few [ ]
  read_messages-nodes [] h (suc fuel) c cs m holds end few =
      rw (not_ltb m.p m.end (omega arith), read_messages)
        (ap (λ l. ok (some (cons c l, d)) m) (sym (+++-nil cs)))
  read_messages-nodes (x ∷ xs) (h, hs) zero c cs m holds end few = elim few [ ]
  read_messages-nodes (x ∷ xs) (h, hs) (suc fuel) c cs m holds end few =
      let (here, there) = Holds-append (encode x) (encode_all xs) m.buffer m.p holds in
      let joined = length-append (encode x) (encode_all xs) in
      let positive = encode-nonempty x in
      let m' = skip (length (encode x)) m in
      let t = (write_message-do_message_read_bin N F d x h).0 in
      rw (lt→ltb m.p m.end (omega arith), read_messages)
        (rw (next_message-node c cs x h m here) (
          read_messages-nodes xs hs fuel c (cs +++ cons t nil) m'
            (Holds-skip (length (encode x)) (encode_all xs) m there)
            (omega (arith, skip-p (length (encode x)) m, skip-end (length (encode x)) m))
            (omega arith)
          ∙ ap (λ l. ok (some (cons c l, d)) (skip (length (encode_all xs)) m'))
              (+++_assoc cs (cons t nil) (nodes xs hs))
          ∙ ap (λ b. ok (some (cons c (cs +++ cons t (nodes xs hs)), d)) b)
              (skip-append (encode x) (encode_all xs) m)))

-- The bytes of a block: the length of its messages, the three angles of the camera, the messages.
abbrev pub float_bytes : ℕ → List ℕ
float_bytes w = long_bytes (signed_long w)

abbrev pub camera_bytes : ℕ → ℕ → ℕ → List ℕ
camera_bytes c1 c2 c3 = float_bytes c1 ++ (float_bytes c2 ++ float_bytes c3)

abbrev pub size_bytes : List Message → List ℕ
size_bytes xs = long_bytes (pos (length (encode_all xs)))

abbrev pub block_bytes : ℕ → ℕ → ℕ → List Message → List ℕ
block_bytes c1 c2 c3 xs = (size_bytes xs ++ camera_bytes c1 c2 c3) ++ encode_all xs

read_head-Reads :
    (size : ℤ) (c1 c2 c3 : ℕ)
    → IsLong size
    → c1 < 2 ^ 32
    → c2 < 2 ^ 32
    → c3 < 2 ^ 32
    → Reads read_head (long_bytes size ++ camera_bytes c1 c2 c3) (c1, c2, c3)
unfolding read_head
read_head-Reads size c1 c2 c3 s h1 h2 h3 =
    >>=-Reads get_next_long _ (long_bytes size) (camera_bytes c1 c2 c3) size _ (long-Reads size s) (
      >>=-Reads get_next_float _ (float_bytes c1) (float_bytes c2 ++ float_bytes c3) c1 _
        (float-Reads c1 h1)
        (>>=-Reads get_next_float _ (float_bytes c2) (float_bytes c3) c2 _ (float-Reads c2 h2)
          (map-Reads get_next_float _ (float_bytes c3) c3 (float-Reads c3 h3))))

module _ {D : Type 0} (N : Numbering) (F : Floats D) (P : Printf) (d : Dem) where
  abbrev pub camera_node : ℕ → ℕ → ℕ → Node
  camera_node c1 c2 c3 =
      node (N.number token_camera) 0 none
        (chain (
          cons (node v_float h_float none (float c1) 0) (
            cons (node v_float h_float none (float c2) 0)
              (cons (node v_float h_float none (float c3) 0) nil))))
        0

  abbrev pub block_of : ℕ → ℕ → ℕ → Nodes → Node
  block_of c1 c2 c3 ns =
      node (N.number token_block) 0 none (chain (cons (camera_node c1 c2 c3) ns)) 0

  pub dem_bin_to_node-block :
      (frame c1 c2 c3 : ℕ) (xs : List Message) (h : All IsMessage xs) (m : Block)
      → c1 < 2 ^ 32
      → c2 < 2 ^ 32
      → c3 < 2 ^ 32
      → length (encode_all xs) ≤ 65536
      → Holds m.buffer m.p (block_bytes c1 c2 c3 xs)
      → m.end ≡ m.p + length (block_bytes c1 c2 c3 xs)
      → dem_bin_to_node N F P 0 frame d m
        ≡ ok
            (some (cons (block_of c1 c2 c3 (nodes N F P d xs h)) nil, d))
            (skip (length (block_bytes c1 c2 c3 xs)) m)
  unfolding dem_bin_to_node
  dem_bin_to_node-block frame c1 c2 c3 xs h m h1 h2 h3 small holds end =
      let head = size_bytes xs ++ camera_bytes c1 c2 c3 in
      let size = pos (length (encode_all xs)) in
      let (here, there) = Holds-append head (encode_all xs) m.buffer m.p holds in
      let m1 = skip (length head) m in
      rw (Reads-run (read_head-Reads size c1 c2 c3 (omega arith) h1 h2 h3) m here, dem_bin_to_node)
        (rw
          (read_messages-nodes N F P d xs h (suc (m1.end - m1.p)) (camera_node c1 c2 c3) nil m1
            (Holds-skip (length head) (encode_all xs) m there)
            (omega (arith, length-append head (encode_all xs)))
            (omega (arith, length-append head (encode_all xs))))
          refl)
