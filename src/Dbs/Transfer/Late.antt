-- ===== src/Dbs/Transfer/Late.antt =====
-- src/dbs.c: an acknowledgement in good time carries a piece on, and one for the last try is too
-- late.
use lmpc.Base.{
  ℕ, zero, suc, ◌+◌, ◌-◌, ◌/◌, ◌<◌, ◌≤◌, ◌≡◌, refl, ap, ◌∙◌, true, false, List, [], ◌∷◌, ◌++◌, ◌==◌,
  ltb, take, drop, length, replicate, arith, length-drop,
}
use lmpc.Binblock.{Block}
use lmpc.Dbs.Packet.{Address, equal_addr_in, ack_rel}
use lmpc.Dbs.Transfer.{
  Try, silence, hears, Tried, left, broken, waiting, still_waiting, tries, one_try, heard, Sending,
  done, failed, send_pieces, packet, piece_code, piece_size, send_init_dem_packet, messages_of,
  max_blocksize, read_sequence,
}

equal_addr_in_refl : (a : Address) → equal_addr_in a a ≡ true
unfolding equal_addr_in
equal_addr_in_refl a = ground arith

-- Some tries without an answer, and then the acknowledgement of the number.
abbrev pub answer : Address → (ℕ → ℕ) → ℕ → List Try → List Try
answer toaddr am quiet ts = replicate quiet silence ++ (hears toaddr ack_rel am ∷ ts)

tries-answer :
    (maxretry : ℕ) (toaddr : Address) (sequence : ℕ) (pn : List ℕ) (am : ℕ → ℕ) (quiet retry : ℕ)
    (ts : List Try) (log : List (List ℕ))
    → read_sequence am ≡ sequence
    → retry + quiet < maxretry
    → (log' : List (List ℕ)) × (tries maxretry toaddr sequence pn retry
          (answer toaddr am quiet ts)
          log
        ≡ left (retry + quiet + 1) ts log')
unfolding tries one_try heard
tries-answer maxretry toaddr sequence pn am zero retry ts log e h =
    let more : ltb retry maxretry ≡ true = ground arith in
    let same : (read_sequence am == sequence) ≡ true = ground arith in
    (
      log ++ (pn ∷ []),
      rw (more, tries)
          (rw (equal_addr_in_refl toaddr, one_try)
            (rw (same, heard) (ap (λ r. left r ts (log ++ (pn ∷ []))) (omega arith)))),
    )
tries-answer maxretry toaddr sequence pn am (suc quiet) retry ts log e h =
    let more : ltb retry maxretry ≡ true = ground arith in
    let (log', rest) =
      tries-answer maxretry toaddr sequence pn am quiet (retry + 1) ts (log ++ (pn ∷ [])) e
        (omega arith) in
    (log', rw (more, tries) (rest ∙ ap (λ r. left r ts log') (omega arith)))

-- The tries of a watcher that keeps silent for some tries of each piece and then acknowledges it.
abbrev pub answers : Address → List (ℕ × (ℕ → ℕ)) → List Try → List Try
answers toaddr [] ts = ts
answers toaddr ((quiet, am) ∷ rest) ts = answer toaddr am quiet (answers toaddr rest ts)

-- The acknowledgements are those of the numbers from `sequence` on, each before the last try.
abbrev pub Prompt : ℕ → ℕ → List (ℕ × (ℕ → ℕ)) → Type 0
Prompt maxretry sequence [] = Unit
Prompt maxretry sequence ((quiet, am) ∷ rest) =
    (read_sequence am ≡ sequence) × (quiet + 1 < maxretry) × Prompt maxretry (sequence + 1) rest

-- The number of pieces of so many bytes.
abbrev pub pieces : ℕ → ℕ
pieces bytes = (bytes + max_blocksize - 1) / max_blocksize

-- What follows the loop for one piece.
abbrev pub go_on : ℕ → ℕ → Address → ℕ → List ℕ → Tried → Sending
go_on k maxretry toaddr sequence rest (broken log) = failed log
go_on k maxretry toaddr sequence rest (waiting log) = still_waiting log
go_on k maxretry toaddr sequence rest (left retry ts log) = elim (retry == maxretry) [
  | true ↦ failed log
  | false ↦ send_pieces k maxretry toaddr (sequence + 1) rest ts log
]

pub send_pieces-cons :
    (k maxretry : ℕ) (toaddr : Address) (sequence b : ℕ) (bs : List ℕ) (ts : List Try)
    (log : List (List ℕ))
    → send_pieces (suc k) maxretry toaddr sequence (b ∷ bs) ts log
      ≡ go_on k maxretry toaddr sequence (drop (piece_size (length (b ∷ bs))) (b ∷ bs)) (
          tries maxretry toaddr sequence
            (packet
              (piece_code (length (b ∷ bs)))
              sequence
              (take (piece_size (length (b ∷ bs))) (b ∷ bs)))
            0
            ts
            log)
unfolding send_pieces
send_pieces-cons k maxretry toaddr sequence b bs ts log = refl

module _ (k maxretry : ℕ) (toaddr : Address) (sequence : ℕ) (rest : List ℕ) (retry : ℕ)
    (ts : List Try) (log : List (List ℕ)) where
  gives_up :
      retry ≡ maxretry → go_on k maxretry toaddr sequence rest (left retry ts log) ≡ failed log
  gives_up e = let over : (retry == maxretry) ≡ true = ground arith in rw (over, go_on)

  carries_on :
      retry < maxretry
      → go_on k maxretry toaddr sequence rest (left retry ts log)
        ≡ send_pieces k maxretry toaddr (sequence + 1) rest ts log
  carries_on h = let more : (retry == maxretry) ≡ false = ground arith in rw (more, go_on)

send_pieces-answered :
    (k maxretry : ℕ) (toaddr : Address) (sequence : ℕ) (bytes : List ℕ)
    (replies : List (ℕ × (ℕ → ℕ))) (ts : List Try) (log : List (List ℕ))
    → length bytes < k
    → length replies ≡ pieces (length bytes)
    → Prompt maxretry sequence replies
    → (log' : List (List ℕ)) × (send_pieces k maxretry toaddr sequence bytes
          (answers toaddr replies ts)
          log
        ≡ done (sequence + length replies) ts log')
unfolding send_pieces
send_pieces-answered zero maxretry toaddr sequence bytes replies ts log fuel many p =
    absurd (omega arith)
send_pieces-answered (suc k) maxretry toaddr sequence [] [] ts log fuel many p =
    (log, ap (λ n. done n ts log) (omega arith))
send_pieces-answered (suc k) maxretry toaddr sequence [] (r ∷ rs) ts log fuel many p =
    absurd (omega arith)
send_pieces-answered (suc k) maxretry toaddr sequence (b ∷ bs) [] ts log fuel many p =
    absurd (omega arith)
send_pieces-answered (suc k) maxretry toaddr sequence (b ∷ bs) ((quiet, am) ∷ rs) ts log fuel many
      (e, short, p) =
    let bytes = b ∷ bs in
    let n = piece_size (length bytes) in
    let size : (n ≤ length bytes)
        × (0 < n)
        × (pieces (length bytes) ≡ suc (pieces (length bytes - n))) =
      ground arith in
    let pn = packet (piece_code (length bytes)) sequence (take n bytes) in
    let fewer = length-drop n bytes in
    let (log1, one) =
      tries-answer maxretry toaddr sequence pn am quiet 0 (answers toaddr rs ts) log e
        (omega arith) in
    let (log2, rest) =
      send_pieces-answered k maxretry toaddr (sequence + 1) (drop n bytes) rs ts log1
        (omega (arith, fewer, size.0, size.1)) (omega (arith, many, size.2, ap pieces fewer)) p in
    (
      log2,
      send_pieces-cons k maxretry toaddr sequence b bs (answers toaddr ((quiet, am) ∷ rs) ts) log
          ∙ ap (go_on k maxretry toaddr sequence (drop n bytes)) one
          ∙ carries_on k maxretry toaddr sequence (drop n bytes) (0 + quiet + 1)
              (answers toaddr rs ts) log1 (omega arith)
          ∙ (rest ∙ ap (λ j. done j ts log2) (omega arith)),
    )

-- When each piece is acknowledged under its number after fewer silent tries than `maxretry - 1`,
-- `SendInitDEMPacket` returns 1, has counted `*sequence` up by the number of the pieces of up to 1024
-- bytes, and leaves the tries that come later.
pub send_init_dem_packet-answered :
    (maxretry : ℕ) (toaddr : Address) (pd : Block) (sequence : ℕ) (replies : List (ℕ × (ℕ → ℕ)))
    (ts : List Try)
    → length replies ≡ pieces (length (messages_of pd))
    → Prompt maxretry sequence replies
    → (log : List (List ℕ)) × (send_init_dem_packet maxretry toaddr pd sequence
          (answers toaddr replies ts)
        ≡ done (sequence + pieces (length (messages_of pd))) ts log)
unfolding send_init_dem_packet
send_init_dem_packet-answered maxretry toaddr pd sequence replies ts many p =
    let bytes = messages_of pd in
    let (log, e) =
      send_pieces-answered (suc (length bytes)) maxretry toaddr sequence bytes replies ts []
        (omega arith) many p in
    (log, e ∙ ap (λ n. done (sequence + n) ts log) many)

late_piece :
    (k n : ℕ) (toaddr : Address) (sequence : ℕ) (bytes : List ℕ) (am : ℕ → ℕ) (ts : List Try)
    → 0 < length bytes
    → read_sequence am ≡ sequence
    → (log : List (List ℕ)) × (send_pieces
          (suc k)
          (suc n)
          toaddr
          sequence
          bytes
          (answer toaddr am n ts)
          []
        ≡ failed log)
unfolding send_pieces
late_piece k n toaddr sequence [] am ts h e = absurd (omega arith)
late_piece k n toaddr sequence (b ∷ bs) am ts h e =
    let size = piece_size (length (b ∷ bs)) in
    let pn = packet (piece_code (length (b ∷ bs))) sequence (take size (b ∷ bs)) in
    let (log, one) = tries-answer (suc n) toaddr sequence pn am n 0 ts [] e (omega arith) in
    (
      log,
      send_pieces-cons k (suc n) toaddr sequence b bs (answer toaddr am n ts) []
          ∙ ap (go_on k (suc n) toaddr sequence (drop size (b ∷ bs))) one
          ∙ gives_up k (suc n) toaddr sequence (drop size (b ∷ bs)) (0 + n + 1) ts log
              (omega arith),
    )

-- An acknowledgement of the first piece that comes in the last of the `n + 1` tries is of no use:
-- `SendInitDEMPacket` takes the watcher for silent and returns -1, whatever comes later.
pub send_init_dem_packet-late :
    (n : ℕ) (toaddr : Address) (pd : Block) (sequence : ℕ) (am : ℕ → ℕ) (ts : List Try)
    → 0 < length (messages_of pd)
    → read_sequence am ≡ sequence
    → (log : List (List ℕ)) × (send_init_dem_packet
          (suc n)
          toaddr
          pd
          sequence
          (answer toaddr am n ts)
        ≡ failed log)
unfolding send_init_dem_packet
send_init_dem_packet-late n toaddr pd sequence am ts h e =
    late_piece (length (messages_of pd)) n toaddr sequence (messages_of pd) am ts h e
