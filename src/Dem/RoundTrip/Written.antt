-- ===== src/Dem/RoundTrip/Written.antt =====
-- src/udem.c, `DEM_block_write_bin`: the bytes that a block of messages is written as.
use lmpc.Base.{
  ℕ, ◌+◌, ◌-◌, ◌^◌, ◌<◌, ◌≤◌, ◌≡◌, ◌∙◌, refl, ap, some, List, ◌∷◌, ◌++◌, arith, length, All, take,
}
use lmpc.Base.Int.{pos}
use lmpc.Node.{Nodes, nil, cons, chain_of}
use lmpc.Binblock.{Block, Run, Cmd, ok, and_then, ◌>>◌, pure}
use lmpc.Binblock.Bytes.{
  Holds, written, splice, splice-Holds, length-splice, written-p, written-buffer, back_to, skip,
}
use lmpc.Binblock.Joined.{take-Holds, Holds-splice_above, Holds-join}
use lmpc.Binblock.Float.{Floats}
use lmpc.Binblock.Codec.{Writes, Writes-run, >>-Writes, float-Writes, long-Writes, written-append}
use lmpc.Binblock.Number.{put_long}
use lmpc.Binblock.RoundTrip.{long_bytes}
use lmpc.Dem.State.{Dem}
use lmpc.Dem.Token.{Numbering, token_track, token_block, token_camera}
use lmpc.Dem.Block.{Printf, dem_bin_to_node}
use lmpc.Dem.Write.Block.{write_camera, write_behind, dem_block_write_bin}
use lmpc.Dem.RoundTrip.Table.{==_self, same_number}
use lmpc.Dem.RoundTrip.Message.{Message, IsMessage}
use lmpc.Dem.RoundTrip.Block.{
  encode_all, nodes, nodes-Writes, camera_bytes, float_bytes, size_bytes, block_bytes, camera_node,
  block_of, dem_bin_to_node-block,
}

minus : (n : ℕ) → 16 + n - 16 ≡ n
minus n = omega arith

-- Bytes behind the first four, and then the first four.
abbrev around : List ℕ → List ℕ → List ℕ → List ℕ
around buf body size = splice (splice buf 4 body) 0 size

take-around :
    (buf body size : List ℕ)
    → length size ≡ 4
    → 4 + length body ≤ length buf
    → take (length (size ++ body)) (around buf body size) ≡ size ++ body
take-around buf body size four room = take-Holds (size ++ body) (around buf body size) (
    Holds-join size body (around buf body size) 0 4 (omega (arith, four))
      (splice-Holds size (splice buf 4 body) 0 (omega (arith, four, length-splice body buf 4)))
      (Holds-splice_above body size (splice buf 4 body) 0 4 (omega (arith, four))
        (splice-Holds body buf 4 room)))

-- The length is written last, in front: what `write_behind` does after the messages.
abbrev length_last : Cmd ℕ
length_last m = and_then (put_long (pos (m.p - 16)) (back_to 0 m)) (λ _. pure m.p)

abbrev AsBlock : List ℕ → List ℕ → Block → Run ℕ → Type 0
AsBlock eb cb m r =
    (m' : Block) × (r ≡ ok (16 + length eb) m')
    × (m'.buffer ≡ around m.buffer (cb ++ eb) (long_bytes (pos (length eb))))

write_parts :
    (camera messages : Cmd (Unit {0})) (cb eb : List ℕ) (m : Block)
    → Writes camera cb
    → Writes messages eb
    → length cb ≡ 12
    → 16 + length eb ≤ length m.buffer
    → AsBlock eb cb m ((camera >> (messages >> length_last)) (back_to 4 m))
write_parts camera messages cb eb m hc he twelve room =
    let w1 = written cb (back_to 4 m) in
    let w2 = written eb w1 in
    let size = long_bytes (pos (length eb)) in
    let l1 : length w1.buffer ≡ length m.buffer =
      ap length (written-buffer cb (back_to 4 m)) ∙ length-splice cb m.buffer 4 in
    let l2 : length w2.buffer ≡ length w1.buffer =
      ap length (written-buffer eb w1) ∙ length-splice eb w1.buffer w1.p in
    let at1 : w1.p ≡ 16 = written-p cb (back_to 4 m) ∙ omega arith in
    let at2 : w2.p ≡ 16 + length eb = written-p eb w1 ∙ omega arith in
    (
      written size (back_to 0 w2),
      ap (λ r. and_then r (λ _. messages >> length_last))
            (Writes-run hc (back_to 4 m) (omega arith))
          ∙ ap (λ r. and_then r (λ _. length_last)) (Writes-run he w1 (omega arith))
          ∙ ap (λ n. and_then (put_long (pos (n - 16)) (back_to 0 w2)) (λ _. pure n)) at2
          ∙ ap (λ n. and_then (put_long (pos n) (back_to 0 w2)) (λ _. pure (16 + length eb)))
              (minus (length eb))
          ∙ ap (λ r. and_then r (λ _. pure (16 + length eb)))
              (Writes-run (long-Writes (pos (length eb))) (back_to 0 w2) (omega arith)),
      written-buffer size (back_to 0 w2)
          ∙ ap (λ b. splice b 0 size)
              (ap (λ x. x.buffer) (written-append cb eb (back_to 4 m))
                ∙ written-buffer (cb ++ eb) (back_to 4 m)),
    )

module _ {D : Type 0} (N : Numbering) (F : Floats D) (P : Printf) (d : Dem) where
  camera-Writes :
      (c1 c2 c3 : ℕ)
      → Writes (write_camera N F (chain_of (camera_node N F P d c1 c2 c3))) (camera_bytes c1 c2 c3)
  camera-Writes c1 c2 c3 =
      >>-Writes _ _ (float_bytes c1) (float_bytes c2 ++ float_bytes c3) (float-Writes c1)
        (>>-Writes _ _ (float_bytes c2) (float_bytes c3) (float-Writes c2) (float-Writes c3))

  -- The block after the camera and the messages, from the fifth byte on.
  abbrev body_bytes : ℕ → ℕ → ℕ → List Message → List ℕ
  body_bytes c1 c2 c3 xs = camera_bytes c1 c2 c3 ++ encode_all xs

  write_behind-AsBlock :
      (c1 c2 c3 : ℕ) (xs : List Message) (h : All IsMessage xs) (m : Block)
      → 16 + length (encode_all xs) ≤ length m.buffer
      → AsBlock
          (encode_all xs)
          (camera_bytes c1 c2 c3)
          m
          (write_behind N F (camera_node N F P d c1 c2 c3) (nodes N F P d xs h) (back_to 0 m))
  write_behind-AsBlock c1 c2 c3 xs h m room =
      write_parts _ _ (camera_bytes c1 c2 c3) (encode_all xs) m (camera-Writes c1 c2 c3)
        (nodes-Writes N F P d xs h) refl room

  write_block :
      (c1 c2 c3 : ℕ) (x : Message) (xs : List Message) (h : All IsMessage (x ∷ xs)) (out : Block)
      → length (block_bytes c1 c2 c3 (x ∷ xs)) ≤ length out.buffer
      → (out' : Block) × (dem_block_write_bin N F
            (cons (block_of N F P d c1 c2 c3 (nodes N F P d (x ∷ xs) h)) nil)
            out
          ≡ ok (block_bytes c1 c2 c3 (x ∷ xs)) out')
  unfolding dem_block_write_bin nodes
  write_block c1 c2 c3 x xs h out room =
      let (out', run, buffer) = write_behind-AsBlock c1 c2 c3 (x ∷ xs) h out (omega arith) in
      let body = body_bytes c1 c2 c3 (x ∷ xs) in
      let size = size_bytes (x ∷ xs) in
      let all : 16 + length (encode_all (x ∷ xs)) ≡ length (size ++ body) = omega arith in
      (
        out',
        rw
            (
              same_number N token_block token_track (omega arith) (omega arith),
              ==_self (N.number token_block),
              ==_self (N.number token_camera),
            )
            (rw run (
              ap (λ bs. ok bs out')
                (ap (take (16 + length (encode_all (x ∷ xs)))) buffer
                  ∙ ap (λ n. take n (around out.buffer body size)) all
                  ∙ take-around out.buffer body size refl (omega arith)))),
      )

  -- A block of messages, one at least and 65536 bytes of them at most, behind its length and three
  -- angles, is read as one node, with the cursor behind it and the state left, and this node is
  -- written, into any buffer with room for it, as the same bytes. The messages are of any kind but
  -- sound, setangle, serverinfo, clientdata, particle, damage, spawnstatic, spawnbaseline,
  -- temp_entity, spawnstaticsound, updateentity and unknown ones, with values that fit their fields.
  pub dem_block_write_bin-dem_bin_to_node :
      (frame c1 c2 c3 : ℕ) (x : Message) (xs : List Message) (m out : Block)
      → All IsMessage (x ∷ xs)
      → c1 < 2 ^ 32
      → c2 < 2 ^ 32
      → c3 < 2 ^ 32
      → length (encode_all (x ∷ xs)) ≤ 65536
      → Holds m.buffer m.p (block_bytes c1 c2 c3 (x ∷ xs))
      → m.end ≡ m.p + length (block_bytes c1 c2 c3 (x ∷ xs))
      → length (block_bytes c1 c2 c3 (x ∷ xs)) ≤ length out.buffer
      → (b : Nodes) × (dem_bin_to_node N F P 0 frame d m
          ≡ ok (some (b, d)) (skip (length (block_bytes c1 c2 c3 (x ∷ xs))) m))
        × (out' : Block) × (dem_block_write_bin N F b out ≡ ok (block_bytes c1 c2 c3 (x ∷ xs)) out')
  dem_block_write_bin-dem_bin_to_node frame c1 c2 c3 x xs m out h h1 h2 h3 small holds end room =
      let (out', e) = write_block c1 c2 c3 x xs h out room in
      (
        cons (block_of N F P d c1 c2 c3 (nodes N F P d (x ∷ xs) h)) nil,
        dem_bin_to_node-block N F P d frame c1 c2 c3 (x ∷ xs) h m h1 h2 h3 small holds end,
        out',
        e,
      )
