-- ===== src/Dbs/Transfer/Laws.antt =====
-- src/dbs.c: the packets of `SendInitDEMPacket`, all of them and in their order, make up the messages
-- of a block.
mod Piece
use mathlib.Core.List.{append_assoc}
use mathlib.Core.Path.{subst}
use lmpc.Base.{
  ℕ, zero, suc, ◌+◌, ◌-◌, ◌^◌, ◌<◌, ◌≤◌, ◌≡◌, ◌≢◌, refl, ap, sym, ◌∙◌, ◌⊎◌, inl, inr, true, false,
  List, [], ◌∷◌, ◌++◌, ◌==◌, ltb, take, drop, length, arith, Bool-cases, length-drop, ltb→lt,
  take-append-drop, drop_whole,
}
use lmpc.Binblock.{Block}
use lmpc.Dbs.Packet.{Address, part_rel, last_rel}
use lmpc.Dbs.Transfer.{
  Try, Tried, left, broken, waiting, tries, packet, Sending, done, failed, still_waiting, endless,
  send_pieces, send_init_dem_packet, messages_of, max_blocksize, piece_size, piece_code,
}
use lmpc.Dbs.Transfer.Receiver.{
  Receiver, accept, receive, receive_all, receive-expected, receive-other,
}
use Piece.{Either, Fate, tries-Fate}

-- The receiver has one message more, and waits for the piece after the last; or it has given up,
-- with the message or without it, and with no other.
abbrev pub Delivers : Receiver → List (List ℕ) → List ℕ → Sending → Type 0
Delivers start old message (done s ts log) =
    receive_all start log ≡ record { expected = s; partial = []; messages = old ++ (message ∷ []) }
Delivers start old message (failed log) =
    ((receive_all start log).messages ≡ old)
    ⊎ ((receive_all start log).messages ≡ old ++ (message ∷ []))
Delivers start old message (still_waiting log) =
    ((receive_all start log).messages ≡ old)
    ⊎ ((receive_all start log).messages ≡ old ++ (message ∷ []))
Delivers start old message endless = ⊥

take_whole : (xs : List ℕ) → take (length xs) xs ≡ xs
take_whole [] = refl
take_whole (x ∷ xs) = ap (◌∷◌ x) (take_whole xs)

-- The receiver with the message.
abbrev finished_with : List (List ℕ) → ℕ → List ℕ → Receiver
finished_with old sequence m = record {
  expected = sequence;
  partial = [];
  messages = old ++ (m ∷ []);
}

module _ (maxretry : ℕ) (toaddr : Address) (start : Receiver) (old : List (List ℕ))
    (message : List ℕ) where
  abbrev Known : Receiver → Type 0
  Known r = (r.messages ≡ old) ⊎ (r.messages ≡ old ++ (message ∷ []))

  known :
      (before after : Receiver) (log : List (List ℕ))
      → Known before
      → Known after
      → (receive_all start log ≡ before) ⊎ (receive_all start log ≡ after)
      → Known (receive_all start log)
  known before after log b a (inl e) = rw e b
  known before after log b a (inr e) = rw e a

  -- From the end of the loop for one piece to the next piece.
  next_piece :
      (k sequence : ℕ) (rest : List ℕ) (before after : Receiver) (pn : List ℕ)
      (counts : receive before pn ≡ after) (stays : receive after pn ≡ after) (t : Tried)
      → Fate maxretry toaddr sequence start before after pn counts stays t
      → Known before
      → Known after
      → ((ts : List Try) (log : List (List ℕ))
          → receive_all start log ≡ after
          → Delivers start old message (send_pieces k maxretry toaddr (sequence + 1) rest ts log))
      → Delivers start old message (elim t [
        | broken log' ↦ failed log'
        | waiting log' ↦ still_waiting log'
        | left retry ts' log' ↦ elim (retry == maxretry) [
          | true ↦ failed log'
          | false ↦ send_pieces k maxretry toaddr (sequence + 1) rest ts' log'
        ]
      ])
  next_piece k sequence rest before after pn counts stays (broken log) f b a go =
      known before after log b a f
  next_piece k sequence rest before after pn counts stays (waiting log) f b a go =
      known before after log b a f
  next_piece k sequence rest before after pn counts stays (left r ts log) (inr e) b a go =
      elim (Bool-cases (r == maxretry)) [
        | inl over ↦ rw over (known before after log b a (inr e))
        | inr more ↦ rw more (go ts log e)
      ]
  next_piece k sequence rest before after pn counts stays (left r ts log) (inl (last, h)) b a go =
      let over : (r == maxretry) ≡ true = ground arith in rw over (known before after log b a h)

  piece :
      (k sequence code : ℕ) (payload rest partial : List ℕ) (after : Receiver) (ts : List Try)
      (log : List (List ℕ))
      → code < 65536
      → sequence < 2 ^ 32
      → accept code payload (record { expected = sequence; partial = partial; messages = old })
        ≡ after
      → after.expected ≡ sequence + 1
      → Known after
      → receive_all start log ≡ record { expected = sequence; partial = partial; messages = old }
      → ((ts : List Try) (log : List (List ℕ))
          → receive_all start log ≡ after
          → Delivers start old message (send_pieces k maxretry toaddr (sequence + 1) rest ts log))
      → Delivers start old message
          (elim (tries maxretry toaddr sequence (packet code sequence payload) 0 ts log) [
            | broken log' ↦ failed log'
            | waiting log' ↦ still_waiting log'
            | left retry ts' log' ↦ elim (retry == maxretry) [
              | true ↦ failed log'
              | false ↦ send_pieces k maxretry toaddr (sequence + 1) rest ts' log'
            ]
          ])
  piece k sequence code payload rest partial after ts log small low accepts more a h go =
      let before : Receiver = record { expected = sequence; partial = partial; messages = old } in
      let pn = packet code sequence payload in
      let counts : receive before pn ≡ after =
        receive-expected code payload before small low ∙ accepts in
      let stays : receive after pn ≡ after =
        receive-other code sequence payload after low (omega arith) in
      next_piece k sequence rest before after pn counts stays _
        (tries-Fate maxretry toaddr sequence start before after pn counts stays ts 0 log
          (omega arith) (inl h))
        (inl refl) a go

  -- All the pieces from `bytes` on.
  abbrev Completes : ℕ → ℕ → List ℕ → List ℕ → Type 0
  Completes k sequence partial bytes =
      (ts : List Try) (log : List (List ℕ))
      → receive_all start log ≡ record { expected = sequence; partial = partial; messages = old }
      → Delivers start old message (send_pieces k maxretry toaddr sequence bytes ts log)

  -- The last piece leaves none.
  last_piece :
      (k sequence : ℕ)
      → 0 < k
      → (ts : List Try) (log : List (List ℕ))
      → receive_all start log
        ≡ record { expected = sequence; partial = []; messages = old ++ (message ∷ []) }
      → Delivers start old message (send_pieces k maxretry toaddr sequence [] ts log)
  unfolding send_pieces
  last_piece zero sequence h ts log e = absurd (omega arith)
  last_piece (suc k) sequence h ts log e = e

  last_step :
      (k sequence b : ℕ) (bs partial : List ℕ)
      → 0 < k
      → sequence < 2 ^ 32
      → partial ++ (b ∷ bs) ≡ message
      → ltb max_blocksize (length (b ∷ bs)) ≡ false
      → Completes (suc k) sequence partial (b ∷ bs)
  unfolding send_pieces
  last_step k sequence b bs partial fuel low e small ts log h =
      let bytes = b ∷ bs in
      let before : Receiver = record { expected = sequence; partial = partial; messages = old } in
      let payload = take (piece_size (length bytes)) bytes in
      let n : piece_size (length bytes) ≡ length bytes = rw small in
      let code : piece_code (length bytes) ≡ last_rel = rw small in
      let whole : payload ≡ bytes = ap (λ j. take j bytes) n ∙ take_whole bytes in
      let none_left = ap (λ j. drop j bytes) n ∙ drop_whole bytes in
      piece k sequence (piece_code (length bytes)) payload (drop (piece_size (length bytes)) bytes)
        partial _ ts log (rw code (omega arith)) low
        (ap (λ c. accept c payload before) code
          ∙ ap (λ p. accept last_rel p before) whole
          ∙ ap (λ m. finished_with old (sequence + 1) m) e)
        refl (inr refl) h
        λ ts' log' h'.
          subst
            (λ r.
              Delivers start old message (send_pieces k maxretry toaddr (sequence + 1) r ts' log'))
            (sym none_left) (last_piece k (sequence + 1) fuel ts' log' h')

  part_step :
      (k sequence b : ℕ) (bs partial : List ℕ)
      → sequence < 2 ^ 32
      → ltb max_blocksize (length (b ∷ bs)) ≡ true
      → Completes k
          (sequence + 1)
          (partial ++ take max_blocksize (b ∷ bs))
          (drop max_blocksize (b ∷ bs))
      → Completes (suc k) sequence partial (b ∷ bs)
  unfolding send_pieces
  part_step k sequence b bs partial low large rest ts log h =
      let bytes = b ∷ bs in
      let before : Receiver = record { expected = sequence; partial = partial; messages = old } in
      let payload = take (piece_size (length bytes)) bytes in
      let n : piece_size (length bytes) ≡ max_blocksize = rw large in
      let code : piece_code (length bytes) ≡ part_rel = rw large in
      piece k sequence (piece_code (length bytes)) payload (drop (piece_size (length bytes)) bytes)
        partial _ ts log (rw code (omega arith)) low
        (ap (λ c. accept c payload before) code ∙ ap (λ j. accept part_rel (take j bytes) before) n)
        refl (inl refl) h
        λ ts' log' h'.
          subst
            (λ j.
              Delivers start old message
                (send_pieces k maxretry toaddr (sequence + 1) (drop j bytes) ts' log'))
            (sym n) (rest ts' log' h')

  send_pieces-Completes :
      (k sequence : ℕ) (bytes partial : List ℕ)
      → 0 < length bytes
      → length bytes < k
      → sequence + length bytes < 2 ^ 32
      → partial ++ bytes ≡ message
      → Completes k sequence partial bytes
  send_pieces-Completes k sequence [] partial some_left fuel low e = absurd (omega arith)
  send_pieces-Completes zero sequence (b ∷ bs) partial some_left fuel low e = absurd (omega arith)
  send_pieces-Completes (suc k) sequence (b ∷ bs) partial some_left fuel low e =
      let bytes = b ∷ bs in
      elim (Bool-cases (ltb max_blocksize (length bytes))) [
        | inr small ↦ last_step k sequence b bs partial (omega arith) (omega arith) e small
        | inl large ↦
            let shorter = length-drop max_blocksize bytes in
            let longer : max_blocksize < length bytes = ltb→lt _ _ large in
            part_step k sequence b bs partial (omega arith) large (
              send_pieces-Completes k (sequence + 1) (drop max_blocksize bytes)
                (partial ++ take max_blocksize bytes) (omega (arith, shorter))
                (omega (arith, shorter)) (omega (arith, shorter))
                (append_assoc partial (take max_blocksize bytes) (drop max_blocksize bytes)
                  ∙ ap (◌++◌ partial) (take-append-drop max_blocksize bytes)
                  ∙ e))
      ]

-- Where every packet arrives, in order, whatever each try meets, the packets that
-- `SendInitDEMPacket` sends bring a receiver, which counts
-- each piece once and in the order of the numbers and waits for `sequence`, the messages of the
-- block as one message, complete and alone, when it returns 1, and the receiver then waits for the
-- new `*sequence`; when it returns -1 or waits for ever, the receiver has that message or none; and
-- it never runs out of fuel. The block has a message byte at least, and the numbers fit 32 bits.
pub send_init_dem_packet-Delivers :
    (maxretry : ℕ) (toaddr : Address) (pd : Block) (sequence : ℕ) (ts : List Try)
    (old : List (List ℕ))
    → 0 < length (messages_of pd)
    → sequence + length (messages_of pd) < 2 ^ 32
    → Delivers
        (record { expected = sequence; partial = []; messages = old })
        old
        (messages_of pd)
        (send_init_dem_packet maxretry toaddr pd sequence ts)
unfolding send_init_dem_packet receive_all
send_init_dem_packet-Delivers maxretry toaddr pd sequence ts old some_left low =
    send_pieces-Completes maxretry toaddr
      (record { expected = sequence; partial = []; messages = old }) old (messages_of pd)
      (suc (length (messages_of pd))) sequence (messages_of pd) [] some_left (omega arith) low refl
      ts [] refl
