-- ===== src/Dbs/Transfer/Head.antt =====
-- src/dbs.c: the buffer that `SendInitDEMPacket` fills goes out as the packet of the model.
use lmpc.Base.{
  ℕ, suc, ◌+◌, ◌≤◌, ◌≡◌, ap, ◌∙◌, List, [], ◌∷◌, ◌++◌, length, take, drop, arith, take-append,
}
use lmpc.Binblock.{Block, ok}
use lmpc.Base.Int.{pos}
use lmpc.Binblock.Number.{write_long_be}
use lmpc.Dbs.Packet.{send_udp_packet, send_ack_packet, ack_rel}
use lmpc.Dbs.Packet.Framed.{framed-Writes, number_bytes, long_be-Writes}
use lmpc.Dbs.Packet.Laws.{head, sent, send_udp_packet-head}
use lmpc.Dbs.Transfer.{packet, long_be}

-- With the number at offset 4 of the buffer, the payload behind it and the size set to both and the
-- head, `SendUDPPacket` sends the packet of that type, number and payload.
pub send_udp_packet-packet :
    (type sequence a b c d : ℕ) (payload rest : List ℕ) (m : Block)
    → m.buffer ≡ a ∷ b ∷ c ∷ d ∷ (long_be sequence ++ (payload ++ rest))
    → m.size ≡ length payload + 8
    → send_udp_packet type m ≡ ok (packet type sequence payload) (sent type m)
unfolding packet
send_udp_packet-packet type sequence a b c d payload rest m e size =
    let eight : m.size ≡ suc (suc (suc (suc (suc (suc (suc (suc (length payload)))))))) =
      size ∙ omega arith in
    let behind : drop 4 m.buffer ≡ long_be sequence ++ (payload ++ rest) = ap (drop 4) e in
    send_udp_packet-head type m (omega (arith, ap length e))
    ∙ ap (λ bytes. ok bytes (sent type m))
        (ap (λ l. take m.size (head type m.size ++ l)) behind
          ∙ ap (λ n. take n (head type m.size ++ (long_be sequence ++ (payload ++ rest)))) eight
          ∙ ap (λ l. head type m.size ++ (long_be sequence ++ l)) (take-append payload rest)
          ∙ ap (λ n. head type n ++ (long_be sequence ++ payload)) size)

-- `SendAckPacket` sends the packet of the model with the number, in a buffer of eight bytes at least.
pub send_ack_packet-packet :
    (sequence : ℕ) (m : Block)
    → 8 ≤ length m.buffer
    → (m' : Block) × (send_ack_packet sequence m ≡ ok (packet ack_rel sequence []) m')
unfolding send_ack_packet packet
send_ack_packet-packet sequence m room =
    framed-Writes ack_rel (write_long_be (pos sequence)) (number_bytes sequence) m
      (long_be-Writes sequence) room
