-- ===== src/Dbs/Client/Twice.antt =====
-- src/dbs.c: a packet of a watcher that comes again.
use lmpc.Base.{
  ℕ, zero, suc, ◌-◌, ◌≡◌, refl, ap, sym, ◌∙◌, inl, inr, Bool, true, false, List, [], ◌∷◌, ◌++◌, ltb,
  arith, Bool-cases, Option-cases, if◌then◌else◌,
}
use mathlib.Core.Path.{subst}
use lmpc.Base.Result.{Error}
use lmpc.Base.Int.{ℤ, pos_part}
use lmpc.Base.Text.{codes}
use lmpc.Binblock.{Block, Run, ok, exit, fault, hangs}
use lmpc.Binblock.Number.{read_long_be}
use lmpc.Dem.Edit.{same}
use lmpc.Dem.Block.{dem_block_read_bin}
use lmpc.Dbs.Packet.{ack_rel}
use lmpc.Dbs.Server.{Player}
use lmpc.Dbs.Transfer.{Sending, done, failed, still_waiting, endless, packet, send_init_dem_packet}
use lmpc.Dbs.Client.{
  Scan, Session, Going, on, leaves, exits, dies, stuck, crashes, Order, alive, problem, console,
  ◌then_go◌, rename, recolor, on_name, on_color, on_request, on_begin, after_transfer,
  send_next_block, obey_console, obey, get_order, obey_all, is_new, take_numbered, take_packet,
  starts_with,
}

module _ {T : Type 0} where
  -- The child goes on with the same number of the last packet, or not at all.
  data SameNumber (p : Player T) : Going T → Type 0 where
    goes_on :
        (s : Session T) → s.pls.cseq ≡ p.cseq → s.pls.cseqused ≡ p.cseqused → SameNumber p (on s)
    has_left : (s : Session T) → SameNumber p (leaves s)
    has_ended : (e : Error) → SameNumber p (exits e)
    has_died : SameNumber p dies
    waits : (s : Session T) → SameNumber p (stuck s)
    has_crashed : SameNumber p crashes

  same_number :
      (p : Player T) (s : Session T)
      → SameNumber p (on s)
      → (s.pls.cseq ≡ p.cseq) × (s.pls.cseqused ≡ p.cseqused)
  same_number p s (goes_on _ e f) = (e, f)

  then_go-SameNumber :
      (p : Player T) (g : Going T) (k : Session T → Going T)
      → SameNumber p g
      → ((s : Session T) → SameNumber p (on s) → SameNumber p (k s))
      → SameNumber p (g then_go k)
  then_go-SameNumber p (on s) k h rest = rest s h
  then_go-SameNumber p (leaves s) k h rest = has_left s
  then_go-SameNumber p (exits e) k h rest = has_ended e
  then_go-SameNumber p dies k h rest = has_died
  then_go-SameNumber p (stuck s) k h rest = waits s
  then_go-SameNumber p crashes k h rest = has_crashed

  if-SameNumber :
      (p : Player T) (b : Bool) (g h : Going T)
      → SameNumber p g
      → SameNumber p h
      → SameNumber p (if b then g else h)
  if-SameNumber p true g h x y = x
  if-SameNumber p false g h x y = y

  -- A change of the session that leaves the number.
  change-SameNumber :
      (p : Player T) (b : Bool) (s s' : Session T)
      → s'.pls.cseq ≡ s.pls.cseq
      → s'.pls.cseqused ≡ s.pls.cseqused
      → SameNumber p (on s)
      → SameNumber p (on (if b then s' else s))
  change-SameNumber p true s s' e f h =
      let (e0, f0) = same_number p s h in goes_on s' (e ∙ e0) (f ∙ f0)
  change-SameNumber p false s s' e f h = h

module _ {T : Type 0} (S : Scan) (maxretry : ℕ) (file : List ℕ) (p : Player T) where
  abbrev Keeps : (Session T → Going T) → Type 0
  Keeps f = (s : Session T) → SameNumber p (on s) → SameNumber p (f s)

  renamed :
      (n : List ℕ) (s : Session T)
      → SameNumber p (on s)
      → SameNumber p (on (record s { pls = record s.pls { name = n } }))
  renamed n s h = let (e, f) = same_number p s h in goes_on _ e f

  rename-Keeps : (ts : List ℕ) → Keeps (rename S maxretry file ts)
  rename-Keeps ts s h = elim (Option-cases (S.name ts)) [
    | inl none_found ↦ rw (none_found, rename) h
    | inr (n, found) ↦ rw (found, rename) (if-SameNumber p _ _ _ (renamed n s h) has_crashed)
  ]

  transfer-Keeps :
      (s : Session T) (pd : Block) (offset : ℕ) (o : Sending)
      → SameNumber p (on s)
      → SameNumber p (after_transfer S maxretry file s pd offset o)
  transfer-Keeps s pd offset (done sequence ts log) h =
      let (e, f) = same_number p s h in goes_on _ e f
  transfer-Keeps s pd offset (failed log) h = has_left _
  transfer-Keeps s pd offset (still_waiting log) h = waits _
  transfer-Keeps s pd offset endless h = waits s

  read_block-Keeps :
      (s : Session T) (r : Run ℕ)
      → SameNumber p (on s)
      → SameNumber p (elim r [
        | ok offset pd ↦
            after_transfer S maxretry file s pd offset
              (send_init_dem_packet maxretry s.pls.caddr pd s.pls.sequence s.tries)
        | exit e ↦ exits e
        | fault ↦ crashes
        | hangs ↦ stuck s
      ])
  read_block-Keeps s (ok offset pd) h =
      transfer-Keeps s pd offset
        (send_init_dem_packet maxretry s.pls.caddr pd s.pls.sequence s.tries) h
  read_block-Keeps s (exit e) h = has_ended e
  read_block-Keeps s fault h = has_crashed
  read_block-Keeps s hangs h = waits s

  send_next_block-Keeps : Keeps (send_next_block S maxretry file)
  unfolding send_next_block
  send_next_block-Keeps s h = read_block-Keeps s (dem_block_read_bin file s.offset s.pd) h

  on_name-Keeps : (ts : List ℕ) → Keeps (on_name S maxretry file ts)
  on_name-Keeps ts s h = if-SameNumber p (starts_with (codes "name") ts) _ _ (rename-Keeps ts s h) h

  on_color-Keeps : (ts : List ℕ) → Keeps (on_color S maxretry file ts)
  on_color-Keeps ts s h =
      change-SameNumber p (starts_with (codes "color") ts) s (recolor S maxretry file ts s) refl
        refl h

  on_request-Keeps : (word ts : List ℕ) → Keeps (on_request S maxretry file word ts)
  on_request-Keeps word ts s h = if-SameNumber p (same ts word) _ _ (send_next_block-Keeps s h) h

  on_begin-Keeps : (ts : List ℕ) → Keeps (on_begin S maxretry file ts)
  on_begin-Keeps ts s h =
      change-SameNumber p (same ts (codes "begin")) s (record s { runtime = true }) refl refl h

  obey_console-Keeps : (ts : List ℕ) → Keeps (obey_console S maxretry file ts)
  unfolding obey_console
  obey_console-Keeps ts s h =
      then_go-SameNumber p _ (on_begin S maxretry file ts)
        (then_go-SameNumber p _ (on_request S maxretry file (codes "spawn ") ts)
          (then_go-SameNumber p _ (on_request S maxretry file (codes "prespawn") ts)
            (then_go-SameNumber p _ (on_color S maxretry file ts) (on_name-Keeps ts s h)
              (on_color-Keeps ts))
            (on_request-Keeps (codes "prespawn") ts))
          (on_request-Keeps (codes "spawn ") ts))
        (on_begin-Keeps ts)

  obey-Keeps : (o : Order) → Keeps (obey S maxretry file o)
  unfolding obey
  obey-Keeps alive s h = let (e, f) = same_number p s h in goes_on _ e f
  obey-Keeps problem s h = h
  obey-Keeps (console ts) s h =
      let (e, f) = same_number p s h in
      obey_console-Keeps ts (record s { gotit = true }) (goes_on _ e f)

  obey_round :
      (r : Run Order) (s : Session T) (rest : Session T → Block → Going T)
      → SameNumber p (on s)
      → ((s' : Session T) (am' : Block) → SameNumber p (on s') → SameNumber p (rest s' am'))
      → SameNumber p (elim r [
        | ok o am' ↦ obey S maxretry file o s then_go λ s'. rest s' am'
        | exit e ↦ exits e
        | fault ↦ crashes
        | hangs ↦ stuck s
      ])
  obey_round (ok o am') s rest h next =
      then_go-SameNumber p _ (λ s'. rest s' am') (obey-Keeps o s h) (λ s' h'. next s' am' h')
  obey_round (exit e) s rest h next = has_ended e
  obey_round fault s rest h next = has_crashed
  obey_round hangs s rest h next = waits s

  obey_all-Keeps : (fuel : ℕ) (am : Block) → Keeps (λ s. obey_all S maxretry file fuel s am)
  unfolding obey_all
  obey_all-Keeps zero am s h = waits s
  obey_all-Keeps (suc fuel) am s h = elim (Bool-cases (ltb am.p am.end)) [
    | inr over ↦ rw (over, obey_all) h
    | inl more ↦
        rw (more, obey_all)
          (obey_round (get_order am) s (obey_all S maxretry file fuel) h
            (λ s' am' h'. obey_all-Keeps fuel am' s' h'))
  ]

module _ {T : Type 0} (S : Scan) (maxretry : ℕ) (file : List ℕ) where
  -- The session with the acknowledgement of the packet sent once more.
  abbrev pub acknowledged : ℕ → Session T → Session T
  acknowledged aseq s = record s { sent = s.sent ++ (packet ack_rel aseq [] ∷ []) }

  -- After a packet its number is no new one.
  numbered_twice :
      (end : ℕ) (r : Run ℤ) (s s' : Session T)
      → take_numbered S maxretry file end r s ≡ on s'
      → (a : ℤ) × (am : Block) × (r ≡ ok a am)
        × (take_numbered S maxretry file end r s' ≡ on (acknowledged (pos_part a) s'))
  unfolding take_numbered
  numbered_twice end (exit e) s s' h = cc
  numbered_twice end fault s s' h = cc
  numbered_twice end hangs s s' h = cc
  numbered_twice end (ok a am) s s' h = elim (Bool-cases (is_new (pos_part a) s.pls)) [
    | inl new ↦
        let p = record s.pls { cseqused = true; cseq = pos_part a } in
        let first = record (acknowledged (pos_part a) s) { pls = p } in
        let run = obey_all S maxretry file (suc (end - am.p)) first am in
        let goes : run ≡ on s' = rw new at h in
        let (number, used) = same_number p s' (
          subst (SameNumber p) goes (
            obey_all-Keeps S maxretry file p (suc (end - am.p)) am first
              (goes_on first refl refl))) in
        let old : is_new (pos_part a) s'.pls ≡ false = rw (number, used) (ground arith) in
        (a, am, refl, rw old refl)
    | inr known ↦
        let goes : on (acknowledged (pos_part a) s) ≡ on s' = rw known at h in
        let same : acknowledged (pos_part a) s ≡ s' = cc in
        let old : is_new (pos_part a) s'.pls ≡ false =
          ap (λ x. is_new (pos_part a) x.pls) (sym same) ∙ known in
        (a, am, refl, rw old refl)
  ]

  -- A packet that a watcher sends again, with no other between, is acknowledged again, under
  -- the number that it has in its first four bytes behind the head, and nothing else happens: no order is obeyed, and no block is sent, a second time.
  pub take_packet-take_packet :
      (am : Block) (s s' : Session T)
      → take_packet S maxretry file am s ≡ on s'
      → (a : ℤ) × (am' : Block) × (read_long_be am ≡ ok a am')
        × (take_packet S maxretry file am s' ≡ on (acknowledged (pos_part a) s'))
  unfolding take_packet
  take_packet-take_packet am s s' h = numbered_twice am.end (read_long_be am) s s' h
