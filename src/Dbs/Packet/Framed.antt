-- ===== src/Dbs/Packet/Framed.antt =====
-- src/dbs.c: what is written behind the head of a packet goes out behind it.
use mathlib.Core.Path.{subst}
use lmpc.Base.{
  ℕ, suc, ◌+◌, ◌/◌, ◌%◌, ◌^◌, ◌≤◌, ◌≡◌, refl, ap, sym, ◌∙◌, List, [], ◌∷◌, ◌++◌, length, take, drop,
  arith,
}
use lmpc.Base.Int.{pos}
use lmpc.Binblock.{Block, ok, and_then, Cmd, ◌>>◌, low_byte, shift_right, put_unsigned_char}
use lmpc.Binblock.Number.{write_long_be}
use lmpc.Binblock.Bytes.{
  Holds, splice-Holds, length-splice, written, written-buffer, written-p, back_to,
  put_bytes-written,
}
use lmpc.Binblock.Codec.{Writes, writes, Writes-run, pure-Writes, >>-Writes, byte-Writes}
use lmpc.Binblock.Text.{put_chars}
use lmpc.Binblock.Joined.{Holds-shift, take-Holds}
use lmpc.Dbs.Packet.{seek_to, size_is_cursor, send_udp_packet}
use lmpc.Dbs.Packet.Laws.{head, packet_of, sent, send_udp_packet-head}

-- A packet of a type, behind whose head `body` writes.
abbrev pub framed : ℕ → Cmd (Unit {0}) → Cmd (List ℕ)
framed type body = do seek_to 4; body; size_is_cursor; send_udp_packet type

-- The bytes from 4 on in a buffer that holds them there.
take-drop-Holds : (bs buf : List ℕ) → Holds buf 4 bs → take (length bs) (drop 4 buf) ≡ bs
take-drop-Holds [] buf h = refl
take-drop-Holds (b ∷ bs) [] (h, hs) = cc
take-drop-Holds (b ∷ bs) (w ∷ []) (h, hs) = cc
take-drop-Holds (b ∷ bs) (w ∷ x ∷ []) (h, hs) = cc
take-drop-Holds (b ∷ bs) (w ∷ x ∷ y ∷ []) (h, hs) = cc
take-drop-Holds (b ∷ bs) (w ∷ x ∷ y ∷ z ∷ buf) h =
    let h3 = Holds-shift (b ∷ bs) (x ∷ y ∷ z ∷ buf) w 3 4 refl h in
    let h2 = Holds-shift (b ∷ bs) (y ∷ z ∷ buf) x 2 3 refl h3 in
    let h1 = Holds-shift (b ∷ bs) (z ∷ buf) y 1 2 refl h2 in
    take-Holds (b ∷ bs) buf (Holds-shift (b ∷ bs) buf z 0 1 refl h1)

pub framed-Writes :
    (type : ℕ) (body : Cmd (Unit {0})) (bs : List ℕ) (m : Block)
    → Writes body bs
    → 4 + length bs ≤ length m.buffer
    → (m' : Block) × (framed type body m ≡ ok (head type (4 + length bs) ++ bs) m')
framed-Writes type body bs m w room =
    let m4 = back_to 4 m in
    let done = record (written bs m4) { size = (written bs m4).p } in
    let size : done.size ≡ 4 + length bs = written-p bs m4 in
    let long : 4 ≤ length done.buffer =
      omega (arith, ap length (written-buffer bs m4), length-splice bs m.buffer 4) in
    let holds : Holds done.buffer 4 bs =
      subst (λ b. Holds b 4 bs) (sym (written-buffer bs m4)) (splice-Holds bs m.buffer 4 room) in
    let four : 4 + length bs ≡ suc (suc (suc (suc (length bs)))) = omega arith in
    let bytes : packet_of type done ≡ head type (4 + length bs) ++ bs =
      ap (λ n. take n (head type n ++ drop 4 done.buffer)) size
      ∙ ap (λ n. take n (head type (4 + length bs) ++ drop 4 done.buffer)) four
      ∙ ap (λ l. head type (4 + length bs) ++ l) (take-drop-Holds bs done.buffer holds) in
    (
      sent type done,
      ap (λ x. and_then x (λ _. size_is_cursor >> send_udp_packet type)) (Writes-run w m4 room)
          ∙ send_udp_packet-head type done long
          ∙ ap (λ b. ok b (sent type done)) bytes,
    )

pub put_chars-Writes : (s : List ℕ) → Writes (put_chars s) s
unfolding put_chars
put_chars-Writes [] = pure-Writes
put_chars-Writes (b ∷ s) =
    >>-Writes (put_unsigned_char b) (put_chars s) (b ∷ []) s (byte-Writes b) (put_chars-Writes s)

-- The four bytes of a number, the high byte first.
abbrev pub number_bytes : ℕ → List ℕ
number_bytes n = n / 2 ^ 24 % 256 ∷ n / 2 ^ 16 % 256 ∷ n / 2 ^ 8 % 256 ∷ n % 256 ∷ []

pub long_be-Writes : (n : ℕ) → Writes (write_long_be (pos n)) (number_bytes n)
unfolding write_long_be low_byte shift_right
long_be-Writes n = writes (λ m room. put_bytes-written (number_bytes n) m room)
