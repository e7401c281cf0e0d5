-- ===== src/Dbs/Server/Race/Overwritten.antt =====
-- src/dbs.c: two requests before the child of the first has run.
use lmpc.Base.{ℕ, zero, suc, ◌≡◌, refl, ap, ◌∙◌, List, [], ◌∷◌, some, get_elem?, false}
use lmpc.Base.Int.{pos}
use lmpc.Binblock.{Block}
use lmpc.Dbs.Packet.{Address}
use lmpc.Dbs.Server.{Player, Qsdb, serves, find_free, is_known, enlist, update, connect}
use lmpc.Dbs.Server.Table.{find_free-some, find_free-update, get_elem?-update_self}
use lmpc.Dbs.Server.Race.Serve.{connect-serves}

module _ {T : Type 0} where
  -- The table with a new address in an entry that is not used knows the same addresses.
  is_known-update :
      (a : Address) (ps : List (Player T)) (i : ℕ) (f : Player T → Player T) (p : Player T)
      → get_elem? ps i ≡ some p
      → p.used ≡ false
      → (f p).used ≡ false
      → is_known a (update i f ps) ≡ is_known a ps
  unfolding is_known
  is_known-update a [] i f p at old new = refl
  is_known-update a (q ∷ ps) zero f p at old new =
      let same : q ≡ p = cc in
      let before : q.used ≡ false = ap (λ x. x.used) same ∙ old in
      let after : (f q).used ≡ false = ap (λ x. (f x).used) same ∙ new in rw after (rw before refl)
  is_known-update a (q ∷ ps) (suc i) f p at old new =
      rw (is_known-update a ps i f p at old new) refl

  -- A second request, from an address that no watcher has, that the server takes up before the child
  -- of the first has run gets the entry of the first: the server makes a second child for the same
  -- number, and the entry then has the second address.
  pub connect-connect :
      (a b : Address) (now now' : T) (text text' : List ℕ) (n n' : ℕ) (r r' : Block) (q q' : Qsdb T)
      (i : ℕ)
      → connect a now text (pos n) r q ≡ serves i q'
      → is_known b q.shm ≡ false
      → (q'' : Qsdb T) × (connect b now' text' (pos n') r' q' ≡ serves i q'')
        × (p : Player T) × (get_elem? q''.shm i ≡ some p)
        × (p.caddr ≡ b)
  unfolding connect
  connect-connect a b now now' text text' n n' r r' q q' i h new =
      let s = connect-serves a now text (pos n) r q q' i h in
      let (p, at, unused) = find_free-some q.shm i s.is_free in
      let first = enlist a now text (pos n) in
      let second = enlist b now' text' (pos n') in
      let free : find_free q'.shm ≡ some i =
        ap find_free s.new_table ∙ find_free-update q.shm i first (λ p. refl) ∙ s.is_free in
      let unknown : is_known b q'.shm ≡ false =
        ap (is_known b) s.new_table ∙ is_known-update b q.shm i first p at unused unused ∙ new in
      let entry : get_elem? q'.shm i ≡ some (first p) =
        ap (λ t. get_elem? t i) s.new_table ∙ get_elem?-update_self q.shm i first at in
      (
        record q' { shm = update i second q'.shm },
        rw (unknown, free),
        second (first p),
        get_elem?-update_self q'.shm i second entry,
        refl,
      )
