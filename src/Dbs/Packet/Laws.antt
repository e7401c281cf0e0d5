-- ===== src/Dbs/Packet/Laws.antt =====
-- src/dbs.c: what goes out as a packet comes in as the same packet.
use lmpc.Base.{
  ℕ, zero, suc, ◌+◌, ◌-◌, ◌*◌, ◌/◌, ◌%◌, ◌<◌, ◌≤◌, ◌≡◌, refl, ap, sym, ◌∙◌, List, [], ◌∷◌, ◌++◌,
  take, drop, length, arith, length-take, length-drop,
}
use lmpc.Binblock.{Block, ok, put_unsigned_char}
use lmpc.Binblock.Bytes.{splice, splice-Holds, skip, get_next_unsigned_char-Holds}
use lmpc.Binblock.Joined.{take-Holds}
use lmpc.Binblock.Text.RoundTrip.{take-all}
use lmpc.Dbs.Packet.{send_udp_packet, receive_udp_packet}

-- The head of a packet, and all of it.
abbrev pub head : ℕ → ℕ → List ℕ
head type size = type / 256 % 256 ∷ type % 256 ∷ size / 256 % 256 ∷ size % 256 ∷ []

abbrev pub packet_of : ℕ → Block → List ℕ
packet_of type m = take m.size (head type m.size ++ drop 4 m.buffer)

-- The block after a packet of the type has gone out of it.
abbrev pub sent : ℕ → Block → Block
sent type m = record m { buffer = head type m.size ++ drop 4 m.buffer; p = 4 }

abbrev SendsHead : ℕ → Block → Type 0
SendsHead type m = send_udp_packet type m ≡ ok (packet_of type m) (sent type m)

send_with :
    (type : ℕ) (m : Block) (buffer : List ℕ)
    → 4 ≤ length buffer
    → SendsHead type (record m { buffer = buffer })
unfolding send_udp_packet put_unsigned_char
send_with type m [] h = absurd (omega arith)
send_with type m (a ∷ []) h = absurd (omega arith)
send_with type m (a ∷ b ∷ []) h = absurd (omega arith)
send_with type m (a ∷ b ∷ c ∷ []) h = absurd (omega arith)
send_with type m (a ∷ b ∷ c ∷ d ∷ rest) h = ground arith

pub send_udp_packet-head : (type : ℕ) (m : Block) → 4 ≤ length m.buffer → SendsHead type m
send_udp_packet-head type m h = send_with type m m.buffer h

-- The block that has received a packet.
abbrev received : List ℕ → ℕ → Block → Block
received bytes size n = record n {
  buffer = splice n.buffer 0 bytes;
  p = 4;
  size = size;
  end = size;
}

receive_udp_packet-Holds :
    (t1 t0 s1 s0 : ℕ) (body : List ℕ) (n : Block)
    → length (t1 ∷ t0 ∷ s1 ∷ s0 ∷ body) ≤ length n.buffer
    → receive_udp_packet (t1 ∷ t0 ∷ s1 ∷ s0 ∷ body) n
      ≡ ok (t1 * 256 + t0) (received (t1 ∷ t0 ∷ s1 ∷ s0 ∷ body) (s1 * 256 + s0) n)
unfolding receive_udp_packet
receive_udp_packet-Holds t1 t0 s1 s0 body n room =
    let bytes = t1 ∷ t0 ∷ s1 ∷ s0 ∷ body in
    let m : Block = record n { buffer = splice n.buffer 0 bytes; p = 0 } in
    let (h1, (h2, (h3, (h4, rest)))) = splice-Holds bytes n.buffer 0 (omega arith) in
    rw (
      take-all (length n.buffer) bytes room,
      get_next_unsigned_char-Holds m h1,
      get_next_unsigned_char-Holds (skip 1 m) h2,
      get_next_unsigned_char-Holds (skip 2 m) h3,
      get_next_unsigned_char-Holds (skip 3 m) h4,
    )

take_nil : (k : ℕ) → take {A = ℕ} k [] ≡ []
take_nil zero = refl
take_nil (suc k) = refl

drop-take : (k : ℕ) (xs : List ℕ) → drop 4 (take (suc (suc (suc (suc k)))) xs) ≡ take k (drop 4 xs)
drop-take k [] = sym (take_nil k)
drop-take k (a ∷ []) = sym (take_nil k)
drop-take k (a ∷ b ∷ []) = sym (take_nil k)
drop-take k (a ∷ b ∷ c ∷ []) = sym (take_nil k)
drop-take k (a ∷ b ∷ c ∷ d ∷ xs) = refl

-- The round trip of a packet, with what holds of its parts.
abbrev Arrives : ℕ → Block → Block → Type 0
Arrives type m n =
    (bytes : List ℕ) × (m' : Block) × (n' : Block) × (send_udp_packet type m ≡ ok bytes m')
    × (receive_udp_packet bytes n ≡ ok type n')
    × (n'.p ≡ 4)
    × (n'.end ≡ m.size)
    × (drop 4 (take m.size n'.buffer) ≡ drop 4 (take m.size m.buffer))

Arrives-with :
    (type k : ℕ) (m n : Block)
    → type < 65536
    → m.size ≡ suc (suc (suc (suc k)))
    → m.size < 65536
    → m.size ≤ length m.buffer
    → m.size ≤ length n.buffer
    → Arrives type m n
Arrives-with type k m n low e small fits room =
    let body = take k (drop 4 m.buffer) in
    let bytes = head type m.size ++ body in
    let long : length bytes ≡ m.size =
      omega (arith, length-take k (drop 4 m.buffer), length-drop 4 m.buffer) in
    let sends : packet_of type m ≡ bytes =
      ap (λ j. take j (head type m.size ++ drop 4 m.buffer)) e in
    let n' = received bytes m.size n in
    let holds = splice-Holds bytes n.buffer 0 (omega arith) in
    let values : receive_udp_packet bytes n ≡ ok type n' = ground (
      arith,
      receive_udp_packet-Holds (type / 256 % 256) (type % 256) (m.size / 256 % 256) (m.size % 256)
          body n (omega arith),
    ) in
    let same : take m.size n'.buffer ≡ bytes =
      ap (λ j. take j n'.buffer) (sym long) ∙ take-Holds bytes n'.buffer holds in
    (
      bytes,
      sent type m,
      n',
      send_udp_packet-head type m (omega arith) ∙ ap (λ b. ok b (sent type m)) sends,
      values,
      refl,
      refl,
      ap (drop 4) same ∙ sym (ap (λ j. drop 4 (take j m.buffer)) e ∙ drop-take k m.buffer),
    )

-- A packet of a type below 65536, of as many bytes as its block says, four at least and less than
-- 65536, goes out and comes in with its type and its length, the cursor behind the head and the
-- same bytes behind the head, where both buffers have room for it.
pub receive_udp_packet-send_udp_packet :
    (type : ℕ) (m n : Block)
    → type < 65536
    → 4 ≤ m.size
    → m.size < 65536
    → m.size ≤ length m.buffer
    → m.size ≤ length n.buffer
    → Arrives type m n
receive_udp_packet-send_udp_packet type m n low four small fits room =
    Arrives-with type (m.size - 4) m n low (omega arith) small fits room
