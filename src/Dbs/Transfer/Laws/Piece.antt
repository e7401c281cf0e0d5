-- ===== src/Dbs/Transfer/Laws/Piece.antt =====
-- src/dbs.c: one piece, from the first try to the last.
use lmpc.Base.{
  ℕ, ◌<◌, ◌≤◌, ◌≡◌, refl, ◌∙◌, ◌⊎◌, inl, inr, ap, List, [], ◌∷◌, ◌++◌, ◌==◌, ltb, arith, Bool-cases,
}
use lmpc.Dbs.Packet.{Address, equal_addr_in, last_rel, ack_rel}
use lmpc.Dbs.Transfer.{
  Try, send_fails, select_fails, silence, hears, Round, stop, again, got, heard, one_try,
  read_sequence, packet, Tried, left, broken, waiting, tries, keep_alive,
}
use lmpc.Dbs.Transfer.Receiver.{Receiver, receive, receive_all, receive_all-append, receive-ack}

-- A receiver that `pn` moves from `before` to `after`, where it stays for every further copy.
module _ (maxretry : ℕ) (toaddr : Address) (sequence : ℕ) (start before after : Receiver)
    (pn : List ℕ) (counts : receive before pn ≡ after) (stays : receive after pn ≡ after) where
  abbrev pub Either : List (List ℕ) → Type 0
  Either log = (receive_all start log ≡ before) ⊎ (receive_all start log ≡ after)

  -- After these packets the receiver has the piece.
  abbrev Sent : List (List ℕ) → Type 0
  Sent out = (log : List (List ℕ)) → Either log → receive_all start (log ++ out) ≡ after

  piece-Sent : Sent (pn ∷ [])
  unfolding receive_all
  piece-Sent log (inl e) = receive_all-append log (pn ∷ []) start ∙ rw e counts
  piece-Sent log (inr e) = receive_all-append log (pn ∷ []) start ∙ rw e stays

  answered-Sent : (aseq : ℕ) → Sent (pn ∷ packet ack_rel aseq [] ∷ [])
  unfolding receive_all
  answered-Sent aseq log (inl e) =
      receive_all-append log (pn ∷ packet ack_rel aseq [] ∷ []) start
      ∙ rw (e, counts) (receive-ack aseq after)
  answered-Sent aseq log (inr e) =
      receive_all-append log (pn ∷ packet ack_rel aseq [] ∷ []) start
      ∙ rw (e, stays) (receive-ack aseq after)

  abbrev Sound : Round → Type 0
  Sound (stop out) = (out ≡ []) ⊎ (out ≡ pn ∷ [])
  Sound (again out r) = (r ≤ maxretry) × Sent out
  Sound (got out r) = Sent out

  heard-Sound :
      (retry atype : ℕ) (am : ℕ → ℕ) → retry < maxretry → Sound (heard sequence pn retry atype am)
  unfolding heard
  heard-Sound retry atype am h = elim (Bool-cases (atype == last_rel)) [
    | inl last ↦ rw last (elim (Bool-cases (am 4 == keep_alive)) [
      | inl alive ↦ rw alive (omega arith, answered-Sent (read_sequence am))
      | inr other ↦ rw other (omega arith, piece-Sent)
    ])
    | inr not_last ↦ rw not_last (elim (Bool-cases (atype == ack_rel)) [
      | inl ack ↦ rw ack (elim (Bool-cases (read_sequence am == sequence)) [
        | inl same ↦ rw same piece-Sent
        | inr other ↦ rw other (omega arith, piece-Sent)
      ])
      | inr other ↦ rw other (omega arith, piece-Sent)
    ])
  ]

  one_try-Sound :
      (retry : ℕ) (t : Try) → retry < maxretry → Sound (one_try toaddr sequence pn retry t)
  unfolding one_try
  one_try-Sound retry send_fails h = inl refl
  one_try-Sound retry select_fails h = inr refl
  one_try-Sound retry silence h = (omega arith, piece-Sent)
  one_try-Sound retry (hears aaddr atype am) h = elim (Bool-cases (equal_addr_in aaddr toaddr)) [
    | inl right ↦ rw right (heard-Sound retry atype am h)
    | inr wrong ↦ rw wrong (omega arith, piece-Sent)
  ]

  -- How the receiver stands when the loop has ended.
  abbrev pub Fate : Tried → Type 0
  Fate (left r ts log) = ((r ≡ maxretry) × Either log) ⊎ (receive_all start log ≡ after)
  Fate (broken log) = Either log
  Fate (waiting log) = Either log

  stopped :
      (log out : List (List ℕ)) → (out ≡ []) ⊎ (out ≡ pn ∷ []) → Either log → Either (log ++ out)
  unfolding receive_all
  stopped log out (inl e) h =
      let same : receive_all start (log ++ out) ≡ receive_all start log =
        receive_all-append log out start ∙ ap (receive_all (receive_all start log)) e in
      elim h [ inl b ↦ inl (same ∙ b) | inr a ↦ inr (same ∙ a) ]
  stopped log out (inr e) h = inr (ap (λ o. receive_all start (log ++ o)) e ∙ piece-Sent log h)

  -- What a loop over the tries `ts` gives, from any count and any packets before.
  abbrev Continues : List Try → Type 0
  Continues ts =
      (retry : ℕ) (log : List (List ℕ))
      → retry ≤ maxretry
      → Either log
      → Fate (tries maxretry toaddr sequence pn retry ts log)

  after_round :
      (ts : List Try) (log : List (List ℕ)) (o : Round)
      → Either log
      → Sound o
      → Continues ts
      → Fate (elim o [
        | stop out ↦ broken (log ++ out)
        | again out r ↦ tries maxretry toaddr sequence pn r ts (log ++ out)
        | got out r ↦ left r ts (log ++ out)
      ])
  after_round ts log (stop out) h s rest = stopped log out s h
  after_round ts log (again out r) h (small, s) rest = rest r (log ++ out) small (inr (s log h))
  after_round ts log (got out r) h s rest = inr (s log h)

  pub tries-Fate : (ts : List Try) → Continues ts
  unfolding tries
  tries-Fate [] retry log bound h = elim (Bool-cases (ltb retry maxretry)) [
    | inl more ↦ rw more (inr (piece-Sent log h))
    | inr over ↦ rw over (inl (ground arith, h))
  ]
  tries-Fate (t ∷ ts) retry log bound h = elim (Bool-cases (ltb retry maxretry)) [
    | inl more ↦
        rw (more, tries)
          (after_round ts log (one_try toaddr sequence pn retry t) h
            (one_try-Sound retry t (ground arith)) (tries-Fate ts))
    | inr over ↦ rw (over, tries) (inl (ground arith, h))
  ]
