-- ===== src/Dbs/Transfer.antt =====
-- src/dbs.c, `SendInitDEMPacket`: the messages of a block go out in pieces, each again and again
-- until its acknowledgement comes in.
pub mod Head
pub mod Receiver
pub mod Laws
pub mod Late
pub mod Confirmed
use lmpc.Base.{
  ℕ, zero, suc, ◌+◌, ◌*◌, ◌-◌, ◌/◌, ◌%◌, ◌^◌, Bool, true, false, List, [], ◌∷◌, ◌++◌, ◌==◌, ltb,
  if◌then◌else◌, take, drop, length,
}
use lmpc.Binblock.{Block}
use lmpc.Dbs.Packet.{Address, equal_addr_in, part_rel, ack_rel, last_rel}

abbrev pub max_blocksize : ℕ
max_blocksize = 0x0400

abbrev pub keep_alive : ℕ
keep_alive = 0x01

-- `WriteLongBE` of an unsigned long.
abbrev pub long_be : ℕ → List ℕ
long_be n = n / 2 ^ 24 % 256 ∷ n / 2 ^ 16 % 256 ∷ n / 2 ^ 8 % 256 ∷ n % 256 ∷ []

-- The packet with the head of `SendUDPPacket`, a sequence number and a payload.
unfoldable pub packet : ℕ → ℕ → List ℕ → List ℕ
packet type sequence payload =
    let size = length payload + 8 in
    type / 256 % 256 ∷ type % 256 ∷ size / 256 % 256 ∷ size % 256 ∷ (long_be sequence ++ payload)

-- What one try meets: `SendUDPPacket` fails, `select` fails, `select` finds nothing in time, or the
-- variables `aaddr` and `atype` and the bytes of `am` behind its head after `ReceiveUDPPacket`.
pub data Try : Type 0 where
  send_fails select_fails silence : Try
  hears : Address → ℕ → (ℕ → ℕ) → Try

abbrev pub read_sequence : (ℕ → ℕ) → ℕ
read_sequence am = am 0 * 2 ^ 24 + am 1 * 2 ^ 16 + am 2 * 2 ^ 8 + am 3

-- The end of a round of the loop `for (gotit=0, retry=0; !gotit && retry<maxretry; retry++)`, with
-- the packets that it sent and `retry` behind the round.
pub data Round : Type 0 where
  stop : List (List ℕ) → Round
  again got : List (List ℕ) → ℕ → Round

-- What a packet from the right address does: a `keep alive` is acknowledged and sets `retry` back.
unfoldable pub heard : ℕ → List ℕ → ℕ → ℕ → (ℕ → ℕ) → Round
heard sequence pn retry atype am =
    let aseq = read_sequence am in
    if atype == last_rel
    then if am 4 == keep_alive
      then again (pn ∷ packet ack_rel aseq [] ∷ []) 1
      else again (pn ∷ []) (retry + 1)
    else if atype == ack_rel
    then if aseq == sequence then got (pn ∷ []) (retry + 1) else again (pn ∷ []) (retry + 1)
    else again (pn ∷ []) (retry + 1)

unfoldable pub one_try : Address → ℕ → List ℕ → ℕ → Try → Round
unfolding heard
one_try toaddr sequence pn retry send_fails = stop []
one_try toaddr sequence pn retry select_fails = stop (pn ∷ [])
one_try toaddr sequence pn retry silence = again (pn ∷ []) (retry + 1)
one_try toaddr sequence pn retry (hears aaddr atype am) =
    if equal_addr_in aaddr toaddr
    then heard sequence pn retry atype am
    else again (pn ∷ []) (retry + 1)

-- How the loop for one piece ends, with all the packets that have gone out, in order: by its test,
-- with `retry`; by a `return -1`; or, where no try is left, it is still waiting in `select`.
pub data Tried : Type 0 where
  left : ℕ → List Try → List (List ℕ) → Tried
  broken waiting : List (List ℕ) → Tried

unfoldable pub tries : ℕ → Address → ℕ → List ℕ → ℕ → List Try → List (List ℕ) → Tried
unfolding one_try
tries maxretry toaddr sequence pn retry [] log =
    if ltb retry maxretry then waiting (log ++ (pn ∷ [])) else left retry [] log
tries maxretry toaddr sequence pn retry (t ∷ ts) log = elim (ltb retry maxretry) [
  | false ↦ left retry (t ∷ ts) log
  | true ↦ elim (one_try toaddr sequence pn retry t) [
    | stop out ↦ broken (log ++ out)
    | again out r ↦ tries maxretry toaddr sequence pn r ts (log ++ out)
    | got out r ↦ left r ts (log ++ out)
  ]
]

-- `1` with `*sequence`, the tries that are left and the packets that have gone out; `-1`; waiting
-- for ever; or a loop that has used up its fuel.
pub data Sending : Type 0 where
  done : ℕ → List Try → List (List ℕ) → Sending
  failed still_waiting : List (List ℕ) → Sending
  endless : Sending

-- `blocksize` for the bytes that are left, and the type of the piece.
abbrev pub piece_size : ℕ → ℕ
piece_size bytesleft = if ltb max_blocksize bytesleft then max_blocksize else bytesleft

abbrev pub piece_code : ℕ → ℕ
piece_code bytesleft = if ltb max_blocksize bytesleft then part_rel else last_rel

-- The loop over the pieces, on fuel.
unfoldable pub send_pieces : ℕ → ℕ → Address → ℕ → List ℕ → List Try → List (List ℕ) → Sending
send_pieces zero maxretry toaddr sequence bytes ts log = endless
send_pieces (suc k) maxretry toaddr sequence [] ts log = done sequence ts log
send_pieces (suc k) maxretry toaddr sequence (b ∷ bs) ts log =
    let n = piece_size (length (b ∷ bs)) in
    let pn = packet (piece_code (length (b ∷ bs))) sequence (take n (b ∷ bs)) in
    elim (tries maxretry toaddr sequence pn 0 ts log) [
      | broken log' ↦ failed log'
      | waiting log' ↦ still_waiting log'
      | left retry ts' log' ↦ elim (retry == maxretry) [
        | true ↦ failed log'
        | false ↦ send_pieces k maxretry toaddr (sequence + 1) (drop n (b ∷ bs)) ts' log'
      ]
    ]

-- The messages of the block, without the first sixteen bytes; no more than a round for each byte.
abbrev pub messages_of : Block → List ℕ
messages_of pd = take (pd.size - 16) (drop 16 pd.buffer)

unfoldable pub send_init_dem_packet : ℕ → Address → Block → ℕ → List Try → Sending
unfolding send_pieces
send_init_dem_packet maxretry toaddr pd sequence ts =
    send_pieces (suc (length (messages_of pd))) maxretry toaddr sequence (messages_of pd) ts []
