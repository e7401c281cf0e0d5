-- ===== src/Dbs/Transfer/Confirmed.antt =====
-- src/dbs.c: where `SendInitDEMPacket` returns 1, the watcher has acknowledged every piece.
use lmpc.Base.{
  ℕ, zero, suc, ◌+◌, ◌-◌, ◌<◌, ◌≤◌, ◌≡◌, ◌⊎◌, inl, inr, ap, sym, ◌∙◌, true, List, [], ◌∷◌, ◌++◌,
  ◌==◌, ltb, take, drop, length, arith, Bool-cases, length-drop,
}
use lmpc.Binblock.{Block}
use lmpc.Dbs.Packet.{Address, equal_addr_in, ack_rel, last_rel}
use lmpc.Dbs.Transfer.{
  Try, send_fails, select_fails, silence, hears, Round, stop, again, got, Tried, left, broken,
  waiting, still_waiting, tries, one_try, heard, Sending, done, failed, endless, send_pieces,
  packet, piece_code, piece_size, send_init_dem_packet, messages_of, read_sequence, keep_alive,
}
use lmpc.Dbs.Transfer.Late.{pieces, go_on}

-- The tries up to those that are left bring, one after the other and among others, an acknowledgement
-- from the address for each of the numbers from the first to before the second.
pub data Confirmed (toaddr : Address) : ℕ → ℕ → List Try → List Try → Type 0 where
  no_more : (s : ℕ) (ts : List Try) → Confirmed toaddr s s ts ts
  confirmed :
      {s t : ℕ} {ts ts' : List Try} (before after : List Try) (aaddr : Address) (am : ℕ → ℕ)
      → equal_addr_in aaddr toaddr ≡ true
      → read_sequence am ≡ s
      → ts ≡ before ++ (hears aaddr ack_rel am ∷ after)
      → Confirmed toaddr (s + 1) t after ts'
      → Confirmed toaddr s t ts ts'

module _ (maxretry : ℕ) (toaddr : Address) (sequence : ℕ) (pn : List ℕ) where
  -- What one try may come to.
  abbrev Right : Try → Round → Type 0
  Right t (stop out) = Unit
  Right t (again out r) = r ≤ maxretry
  Right t (got out r) =
      (aaddr : Address) × (am : ℕ → ℕ) × (t ≡ hears aaddr ack_rel am)
      × (equal_addr_in aaddr toaddr ≡ true)
      × (read_sequence am ≡ sequence)

  heard-Right :
      (retry : ℕ) (aaddr : Address) (atype : ℕ) (am : ℕ → ℕ)
      → retry < maxretry
      → equal_addr_in aaddr toaddr ≡ true
      → Right (hears aaddr atype am) (heard sequence pn retry atype am)
  unfolding heard
  heard-Right retry aaddr atype am h e = elim (Bool-cases (atype == last_rel)) [
    | inl last ↦ elim (Bool-cases (am 4 == keep_alive)) [
      | inl alive ↦ rw (last, heard, alive) (omega arith)
      | inr other ↦ rw (last, heard, other) (omega arith)
    ]
    | inr not_last ↦ elim (Bool-cases (atype == ack_rel)) [
      | inr other ↦ rw (not_last, heard, other) (omega arith)
      | inl ack ↦ elim (Bool-cases (read_sequence am == sequence)) [
        | inr other ↦ rw (not_last, heard, ack, other) (omega arith)
        | inl same ↦
            let type : atype ≡ ack_rel = ground arith in
            rw (not_last, heard, ack, same)
              (aaddr, am, ap (λ z. hears aaddr z am) type, e, ground arith)
      ]
    ]
  ]

  one_try-Right :
      (retry : ℕ) (t : Try) → retry < maxretry → Right t (one_try toaddr sequence pn retry t)
  unfolding one_try
  one_try-Right retry send_fails h = tt
  one_try-Right retry select_fails h = tt
  one_try-Right retry silence h = omega arith
  one_try-Right retry (hears aaddr atype am) h = elim (Bool-cases (equal_addr_in aaddr toaddr)) [
    | inl e ↦ rw (e, one_try) (heard-Right retry aaddr atype am h e)
    | inr e ↦ rw (e, one_try) (omega arith)
  ]

  -- How the loop for one piece may end: the tries are used up, or the last one of those it took is
  -- the acknowledgement of the number.
  abbrev Final : List Try → Tried → Type 0
  Final ts (broken log) = Unit
  Final ts (waiting log) = Unit
  Final ts (left r ts' log) =
      (r ≡ maxretry)
      ⊎ ((before : List Try) × (aaddr : Address) × (am : ℕ → ℕ) × (equal_addr_in aaddr toaddr
            ≡ true)
          × (read_sequence am ≡ sequence)
          × (ts ≡ before ++ (hears aaddr ack_rel am ∷ ts')))

  Final-cons : (t : Try) (ts : List Try) (o : Tried) → Final ts o → Final (t ∷ ts) o
  Final-cons t ts (broken log) h = tt
  Final-cons t ts (waiting log) h = tt
  Final-cons t ts (left r ts' log) (inl e) = inl e
  Final-cons t ts (left r ts' log) (inr (before, aaddr, am, a, b, e)) =
      inr (t ∷ before, aaddr, am, a, b, ap (λ l. t ∷ l) e)

  round-Final :
      (t : Try) (ts : List Try) (log : List (List ℕ)) (o : Round)
      → Right t o
      → ((r : ℕ) (log' : List (List ℕ))
          → r ≤ maxretry
          → Final ts (tries maxretry toaddr sequence pn r ts log'))
      → Final (t ∷ ts) (elim o [
        | stop out ↦ broken (log ++ out)
        | again out r ↦ tries maxretry toaddr sequence pn r ts (log ++ out)
        | got out r ↦ left r ts (log ++ out)
      ])
  round-Final t ts log (stop out) h next = tt
  round-Final t ts log (again out r) h next =
      Final-cons t ts (tries maxretry toaddr sequence pn r ts (log ++ out)) (next r (log ++ out) h)
  round-Final t ts log (got out r) (aaddr, am, e, a, b) next =
      inr ([], aaddr, am, a, b, ap (λ z. z ∷ ts) e)

  tries-Final :
      (ts : List Try) (retry : ℕ) (log : List (List ℕ))
      → retry ≤ maxretry
      → Final ts (tries maxretry toaddr sequence pn retry ts log)
  unfolding tries
  tries-Final [] retry log h = elim (Bool-cases (ltb retry maxretry)) [
    | inl more ↦ rw (more, tries) tt
    | inr over ↦ rw (over, tries) (inl (ground arith))
  ]
  tries-Final (t ∷ ts) retry log h = elim (Bool-cases (ltb retry maxretry)) [
    | inr over ↦ rw (over, tries) (inl (ground arith))
    | inl more ↦
        rw (more, tries)
          (round-Final t ts log (one_try toaddr sequence pn retry t)
            (one_try-Right retry t (ground arith)) (λ r log' h'. tries-Final ts r log' h'))
  ]

-- What `done` has behind it.
abbrev pub Acknowledged : Address → ℕ → ℕ → List Try → Sending → Type 0
Acknowledged toaddr sequence bytes ts (done t ts' log) =
    (t ≡ sequence + pieces bytes) × Confirmed toaddr sequence t ts ts'
Acknowledged toaddr sequence bytes ts (failed log) = Unit
Acknowledged toaddr sequence bytes ts (still_waiting log) = Unit
Acknowledged toaddr sequence bytes ts endless = ⊥

one_more :
    (toaddr : Address) (sequence bytes rest : ℕ) (before ts after : List Try) (aaddr : Address)
    (am : ℕ → ℕ) (o : Sending)
    → pieces bytes ≡ suc (pieces rest)
    → equal_addr_in aaddr toaddr ≡ true
    → read_sequence am ≡ sequence
    → ts ≡ before ++ (hears aaddr ack_rel am ∷ after)
    → Acknowledged toaddr (sequence + 1) rest after o
    → Acknowledged toaddr sequence bytes ts o
one_more toaddr sequence bytes rest before ts after aaddr am (done t ts' log) n a b e (count, c) =
    (omega (arith, n, count), confirmed before after aaddr am a b e c)
one_more toaddr sequence bytes rest before ts after aaddr am (failed log) n a b e c = tt
one_more toaddr sequence bytes rest before ts after aaddr am (still_waiting log) n a b e c = tt
one_more toaddr sequence bytes rest before ts after aaddr am endless n a b e c = c

piece-Acknowledged :
    (k maxretry : ℕ) (toaddr : Address) (sequence bytes : ℕ) (rest : List ℕ) (ts : List Try)
    (o : Tried) (pn : List ℕ)
    → pieces bytes ≡ suc (pieces (length rest))
    → Final maxretry toaddr sequence pn ts o
    → ((ts' : List Try) (log : List (List ℕ))
        → Acknowledged toaddr
            (sequence + 1)
            (length rest)
            ts'
            (send_pieces k maxretry toaddr (sequence + 1) rest ts' log))
    → Acknowledged toaddr sequence bytes ts (go_on k maxretry toaddr sequence rest o)
piece-Acknowledged k maxretry toaddr sequence bytes rest ts (broken log) pn n h next = tt
piece-Acknowledged k maxretry toaddr sequence bytes rest ts (waiting log) pn n h next = tt
piece-Acknowledged k maxretry toaddr sequence bytes rest ts (left r ts' log) pn n h next =
    elim (Bool-cases (r == maxretry)) [
      | inl over ↦ rw (over, go_on) tt
      | inr more ↦ elim h [
        | inl e ↦ absurd (ground arith)
        | inr (before, aaddr, am, a, b, e) ↦
            rw (more, go_on)
              (one_more toaddr sequence bytes (length rest) before ts ts' aaddr am _ n a b e
                (next ts' log))
      ]
    ]

send_pieces-Acknowledged :
    (k maxretry : ℕ) (toaddr : Address) (sequence : ℕ) (bytes : List ℕ) (ts : List Try)
    (log : List (List ℕ))
    → length bytes < k
    → Acknowledged toaddr sequence
        (length bytes)
        ts
        (send_pieces k maxretry toaddr sequence bytes ts log)
unfolding send_pieces
send_pieces-Acknowledged zero maxretry toaddr sequence bytes ts log h = absurd (omega arith)
send_pieces-Acknowledged (suc k) maxretry toaddr sequence [] ts log h =
    (omega arith, no_more sequence ts)
send_pieces-Acknowledged (suc k) maxretry toaddr sequence (b ∷ bs) ts log h =
    let bytes = b ∷ bs in
    let n = piece_size (length bytes) in
    let size : (n ≤ length bytes)
        × (0 < n)
        × (pieces (length bytes) ≡ suc (pieces (length bytes - n))) =
      ground arith in
    let pn = packet (piece_code (length bytes)) sequence (take n bytes) in
    let fewer = length-drop n bytes in
    piece-Acknowledged k maxretry toaddr sequence (length bytes) (drop n bytes) ts
      (tries maxretry toaddr sequence pn 0 ts log) pn
      (size.2 ∙ ap (λ m. suc (pieces m)) (sym fewer))
      (tries-Final maxretry toaddr sequence pn ts 0 log (omega arith))
      (λ ts' log'.
        send_pieces-Acknowledged k maxretry toaddr (sequence + 1) (drop n bytes) ts' log'
          (omega (arith, fewer, size.0, size.1)))

-- Whatever each try meets, `SendInitDEMPacket` does not run out of fuel, and where it returns 1, it
-- has counted `*sequence` up by the number of pieces, and among the tries that it has used there are,
-- in this order, acknowledgements from the address of the watcher for the number of every piece.
pub send_init_dem_packet-Acknowledged :
    (maxretry : ℕ) (toaddr : Address) (pd : Block) (sequence : ℕ) (ts : List Try)
    → Acknowledged toaddr sequence
        (length (messages_of pd))
        ts
        (send_init_dem_packet maxretry toaddr pd sequence ts)
unfolding send_init_dem_packet
send_init_dem_packet-Acknowledged maxretry toaddr pd sequence ts =
    send_pieces-Acknowledged (suc (length (messages_of pd))) maxretry toaddr sequence
      (messages_of pd) ts [] (omega arith)
