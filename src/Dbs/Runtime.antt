-- ===== src/Dbs/Runtime.antt =====
-- src/dbs.c, `SendRuntimeDEMPacket`: the messages of a block go out once, with the angles of the
-- camera in front if there are any.
use lmpc.Base.{
  ℕ, ◌+◌, ◌%◌, ◌^◌, ◌≤◌, ◌≡◌, refl, ap, ◌∙◌, Bool, false, not, ◌||◌, List, [], ◌∷◌, ◌++◌, length,
  ltb, ◌==◌, if◌then◌else◌, arith, Bool-cases, ◌⊎◌, inl, inr, length-append,
}
use lmpc.Base.Int.{pos}
use lmpc.Binblock.{
  Block, Run, ok, exit, fault, hangs, Cmd, ◌>>=◌, ◌>>◌, pure, put_unsigned_char, put_signed_char,
}
use lmpc.Binblock.Number.{get_next_float, write_long_be}
use lmpc.Binblock.Text.{put_chars}
use lmpc.Binblock.Float.{Floats, write_angle}
use lmpc.Binblock.Codec.{Writes, >>-Writes, byte-Writes, pure-Writes}
use lmpc.Dbs.Packet.{seek_to, non_rel}
use lmpc.Dbs.Packet.Laws.{head}
use lmpc.Dbs.Packet.Framed.{framed, framed-Writes, put_chars-Writes, number_bytes, long_be-Writes}
use lmpc.Dbs.Transfer.{messages_of, packet}

abbrev pub c_setangle : ℕ
c_setangle = 0x0A

-- `a != 0.0` of a bit pattern: both zeros are equal to 0.0.
abbrev pub is_not_zero : ℕ → Bool
is_not_zero a = not (a % 2 ^ 31 == 0)

-- The three angles of the camera, behind the length of the block.
abbrev pub read_camera : Cmd (ℕ × ℕ × ℕ)
read_camera = do
  seek_to 4
  a1 ← get_next_float
  a2 ← get_next_float
  a3 ← get_next_float
  pure (a1, a2, a3)

module _ {D : Type 0} (F : Floats D) where
  unfoldable pub put_camera : ℕ × ℕ × ℕ → Cmd (Unit {0})
  put_camera (a1, a2, a3) =
      let message = (do
        put_unsigned_char c_setangle
        write_angle F a1
        write_angle F a2
        write_angle F a3) in
      if is_not_zero a1 || is_not_zero a2 || is_not_zero a3 then message else pure tt

  abbrev pub runtime_body : ℕ → ℕ × ℕ × ℕ → List ℕ → Cmd (Unit {0})
  runtime_body sequence camera messages = do
    write_long_be (pos sequence)
    put_camera camera
    put_chars messages

  -- The block `pd` is read, and the packet is made in another. A block of less than sixteen bytes
  -- makes the length for `memcpy` negative.
  abbrev pub send_with : Block → ℕ → Block → Run (ℕ × ℕ × ℕ) → Run (List ℕ)
  send_with pd sequence pn (exit e) = exit e
  send_with pd sequence pn fault = fault
  send_with pd sequence pn hangs = hangs
  send_with pd sequence pn (ok camera pd') =
      if ltb pd.size 16
      then fault
      else framed non_rel (runtime_body sequence camera (messages_of pd)) pn

  unfoldable pub send_runtime_dem_packet : Block → ℕ → Cmd (List ℕ)
  unfolding put_camera
  send_runtime_dem_packet pd sequence pn = send_with pd sequence pn (read_camera pd)

  -- The message that sets the view: none when all three angles are zero, and else its number with a
  -- byte for each angle, which `WriteAngle` writes.
  abbrev pub SetsAngle : ℕ × ℕ × ℕ → List ℕ → Type 0
  SetsAngle (a1, a2, a3) cs =
      ((is_not_zero a1 || is_not_zero a2 || is_not_zero a3 ≡ false) × (cs ≡ []))
      ⊎ ((b1 : ℕ) × (b2 : ℕ) × (b3 : ℕ) × (cs ≡ c_setangle ∷ b1 ∷ b2 ∷ b3 ∷ [])
          × Writes (write_angle F a1) (b1 ∷ [])
          × Writes (write_angle F a2) (b2 ∷ [])
          × Writes (write_angle F a3) (b3 ∷ []))

  angle-Writes : (a : ℕ) → (b : ℕ) × Writes (write_angle F a) (b ∷ [])
  unfolding write_angle put_signed_char
  angle-Writes a = (_, byte-Writes _)

  camera-Writes :
      (camera : ℕ × ℕ × ℕ)
      → (cs : List ℕ) × Writes (put_camera camera) cs × SetsAngle camera cs × (length cs ≤ 4)
  unfolding put_camera
  camera-Writes (a1, a2, a3) =
      let any = is_not_zero a1 || is_not_zero a2 || is_not_zero a3 in
      elim (Bool-cases any) [
        | inr still ↦ ([], rw still pure-Writes, inl (still, refl), omega arith)
        | inl moved ↦
            let (b1, w1) = angle-Writes a1 in
            let (b2, w2) = angle-Writes a2 in
            let (b3, w3) = angle-Writes a3 in
            (
              c_setangle ∷ b1 ∷ b2 ∷ b3 ∷ [],
              rw moved (
                  >>-Writes _ _ _ _ (byte-Writes c_setangle)
                    (>>-Writes _ _ _ _ w1 (>>-Writes _ _ _ _ w2 w3))),
              inr (b1, b2, b3, refl, w1, w2, w3),
              omega arith,
            )
      ]

  -- A block of sixteen bytes at least goes out as one packet that wants no acknowledgement: behind
  -- the head and the number, the message that sets the view, if an angle is not zero, and then all
  -- the messages of the block, in a buffer with room for twelve bytes and the messages.
  pub send_runtime_dem_packet-packet :
      (pd pd' pn : Block) (camera : ℕ × ℕ × ℕ) (sequence : ℕ)
      → read_camera pd ≡ ok camera pd'
      → 16 ≤ pd.size
      → 12 + length (messages_of pd) ≤ length pn.buffer
      → (cs : List ℕ) × (pn' : Block) × SetsAngle camera cs
        × (send_runtime_dem_packet pd sequence pn
            ≡ ok (packet non_rel sequence (cs ++ messages_of pd)) pn')
  unfolding send_runtime_dem_packet packet
  send_runtime_dem_packet-packet pd pd' pn camera sequence e size room =
      let (cs, w, sets, short) = camera-Writes camera in
      let messages = messages_of pd in
      let bs = number_bytes sequence ++ (cs ++ messages) in
      let fits : 4 + length bs ≤ length pn.buffer = omega (arith, length-append cs messages) in
      let body : Writes (runtime_body sequence camera messages) bs =
        >>-Writes _ _ _ _ (long_be-Writes sequence)
          (>>-Writes _ _ _ _ w (put_chars-Writes messages)) in
      let (pn', sends) =
        framed-Writes non_rel (runtime_body sequence camera messages) bs pn body fits in
      let whole : ltb pd.size 16 ≡ false = ground arith in
      let long : 4 + length bs ≡ length (cs ++ messages) + 8 = omega arith in
      (
        cs,
        pn',
        sets,
        ap (send_with pd sequence pn) e
            ∙ rw whole (sends ∙ ap (λ n. ok (head non_rel n ++ bs) pn') long),
      )
