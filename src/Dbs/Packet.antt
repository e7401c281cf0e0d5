-- ===== src/Dbs/Packet.antt =====
-- src/dbs.c: the packets of the server. A packet is the list of its bytes: a head of four bytes,
-- with the type and the length, the high byte first, and what follows.
pub mod Laws
pub mod Framed
use lmpc.Base.{ℕ, ◌+◌, ◌*◌, ◌/◌, ◌%◌, List, Bool, ◌==◌, ◌&&◌, take, length}
use lmpc.Base.Int.{pos}
use lmpc.Binblock.{Block, ok, Cmd, ◌>>=◌, ◌>>◌, pure, put_unsigned_char, get_next_unsigned_char}
use lmpc.Binblock.Number.{write_long_be}
use lmpc.Binblock.Bytes.{splice, back_to}

abbrev pub control : ℕ
control = 0x8000

abbrev pub part_rel : ℕ
part_rel = 0x0001

abbrev pub ack_rel : ℕ
ack_rel = 0x0002

abbrev pub last_rel : ℕ
last_rel = 0x0009

abbrev pub non_rel : ℕ
non_rel = 0x0010

-- The part of `struct sockaddr_in` that the program compares.
pub record Address : Type 0 where
  pub sin_addr : ℕ
  pub sin_port : ℕ

unfoldable pub equal_addr_in : Address → Address → Bool
equal_addr_in a b = (a.sin_addr == b.sin_addr) && (a.sin_port == b.sin_port)

-- `m->p = m->buffer + i`, and the bytes that `sendto` takes from the buffer.
abbrev pub seek_to : ℕ → Cmd (Unit {0})
seek_to i m = ok tt (back_to i m)

abbrev pub size_of : Cmd ℕ
size_of m = ok m.size m

abbrev pub datagram : Cmd (List ℕ)
datagram m = ok (take m.size m.buffer) m

-- `SendUDPPacket(m, type, ...)` up to `sendto`: the bytes that go out.
unfoldable pub send_udp_packet : ℕ → Cmd (List ℕ)
send_udp_packet type = do
  seek_to 0
  put_unsigned_char (type / 256 % 256)
  put_unsigned_char (type % 256)
  size ← size_of
  put_unsigned_char (size / 256 % 256)
  put_unsigned_char (size % 256)
  datagram

-- `m.size = m.p - m.buffer`
abbrev pub size_is_cursor : Cmd (Unit {0})
size_is_cursor m = ok tt (record m { size = m.p })

unfoldable pub send_ack_packet : ℕ → Cmd (List ℕ)
unfolding send_udp_packet
send_ack_packet sequence = do
  seek_to 4
  write_long_be (pos sequence)
  size_is_cursor
  send_udp_packet ack_rel

-- `recvfrom` of a packet, cut at the length of the buffer; the rest of the buffer stays.
abbrev pub recvfrom : List ℕ → Cmd (Unit {0})
recvfrom bytes m = ok tt (record m { buffer = splice m.buffer 0 (take (length m.buffer) bytes) })

abbrev pub ends_at : ℕ → Cmd (Unit {0})
ends_at size m = ok tt (record m { size = size; end = size })

-- `ReceiveUDPPacket` of a packet that has come: `*type`, and the block that holds it.
unfoldable pub receive_udp_packet : List ℕ → Cmd ℕ
receive_udp_packet bytes = do
  recvfrom bytes
  seek_to 0
  t1 ← get_next_unsigned_char
  t0 ← get_next_unsigned_char
  s1 ← get_next_unsigned_char
  s0 ← get_next_unsigned_char
  ends_at (s1 * 256 + s0)
  pure (t1 * 256 + t0)
