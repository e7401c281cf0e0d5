-- ===== src/Dbs/Server/Race/Distinct.antt =====
-- src/dbs.c: while the server waits for each child to run before it serves the next request, no two
-- watchers in the table have the same address.
use lmpc.Base.{
  ℕ, ◌≡◌, ◌≢◌, refl, ap, sym, ◌∙◌, inl, inr, true, false, List, [], ◌∷◌, ◌++◌, some, get_elem?,
}
use mathlib.Core.Path.{subst}
use lmpc.Base.Int.{ℤ, pos, negsuc}
use lmpc.Dbs.Packet.{Address}
use lmpc.Dbs.Server.{Player, Qsdb, enlist, update}
use lmpc.Dbs.Server.Table.{get_elem?-update_self, update-cases, find_free-some, is_known-false}
use lmpc.Dbs.Server.Race.{
  World, set_used, Step, connects, no_child, starts, ends, Reach, here, later,
}
use lmpc.Dbs.Server.Race.Serve.{Served, connect-serves}

module _ {T : Type 0} where
  -- The addresses of the watchers differ from one another, and no watcher has the address of an
  -- entry whose child has not run yet.
  abbrev pub Distinct : List (Player T) → Type 0
  Distinct ps =
      (i j : ℕ) (p r : Player T)
      → get_elem? ps i ≡ some p
      → get_elem? ps j ≡ some r
      → p.used ≡ true
      → r.used ≡ true
      → p.caddr ≡ r.caddr
      → i ≡ j

  abbrev pub Fresh : List (Player T) → ℕ → Type 0
  Fresh ps i =
      (j : ℕ) (p r : Player T)
      → get_elem? ps i ≡ some p
      → get_elem? ps j ≡ some r
      → r.used ≡ true
      → p.caddr ≢ r.caddr

  abbrev Pending : List (Player T) → List ℕ → Type 0
  Pending ps [] = Unit
  Pending ps (i ∷ []) = Fresh ps i
  Pending ps (i ∷ j ∷ rest) = ⊥

  record Kept (ps : List (Player T)) (forked : List ℕ) : Type 0 where
    distinct : Distinct ps
    pending : Pending ps forked

  -- A watcher that has not changed, or a change that is not one of a watcher.
  abbrev Old : List (Player T) → List (Player T) → Type 0
  Old ps ps' =
      (j : ℕ) (r : Player T)
      → get_elem? ps' j ≡ some r
      → r.used ≡ true
      → (old : Player T) × (get_elem? ps j ≡ some old) × (old.used ≡ true) × (old.caddr ≡ r.caddr)

  Old-Distinct : (ps ps' : List (Player T)) → Old ps ps' → Distinct ps → Distinct ps'
  Old-Distinct ps ps' old d i j p r hp hr up ur e =
      let (p0, at_p, used_p, same_p) = old i p hp up in
      let (r0, at_r, used_r, same_r) = old j r hr ur in
      d i j p0 r0 at_p at_r used_p used_r (same_p ∙ e ∙ sym same_r)

  -- A request that is served.
  module _ {from : Address} {now : T} {text : List ℕ} {fork : ℤ} {i : ℕ} {q q' : Qsdb T}
      (s : Served from now text fork i q q') where
    enlist-unused :
        (fork : ℤ) (p : Player T) → p.used ≡ false → (enlist from now text fork p).used ≡ false
    enlist-unused (pos n) p h = h
    enlist-unused (negsuc n) p h = refl

    enlist-caddr : (fork : ℤ) (p : Player T) → (enlist from now text fork p).caddr ≡ from
    enlist-caddr (pos n) p = refl
    enlist-caddr (negsuc n) p = refl

    served_entry :
        (j : ℕ) (r : Player T)
        → get_elem? q'.shm j ≡ some r
        → r.used ≡ true
        → get_elem? q.shm j ≡ some r
    served_entry j r h used =
        elim (update-cases q.shm i j (enlist from now text fork) r
          (ap (λ t. get_elem? t j) (sym s.new_table) ∙ h)) [
            | inr same ↦ same
            | inl (e, p, at, changed) ↦
                let (p0, at0, free) = find_free-some q.shm i s.is_free in
                let same : p ≡ p0 = cc in
                let unused = enlist-unused fork p (ap (λ x. x.used) same ∙ free) in
                let out : r.used ≡ false = ap (λ x. x.used) changed ∙ unused in cc
          ]

    served-Old : Old q.shm q'.shm
    served-Old j r h used = (r, served_entry j r h used, used, refl)

    served-Fresh : Fresh q'.shm i
    served-Fresh j p r hp hr used e =
        let (p0, at0, free) = find_free-some q.shm i s.is_free in
        let entry : get_elem? q'.shm i ≡ some (enlist from now text fork p0) =
          ap (λ t. get_elem? t i) s.new_table
          ∙ get_elem?-update_self q.shm i (enlist from now text fork) at0 in
        let same : p ≡ enlist from now text fork p0 = cc in
        let address : p.caddr ≡ from = ap (λ x. x.caddr) same ∙ enlist-caddr fork p0 in
        is_known-false from q.shm j r s.is_new (served_entry j r hr used) used (sym address ∙ e)

  only_one :
      (ps : List (Player T)) (before after : List ℕ) (i : ℕ)
      → Pending ps (before ++ (i ∷ after))
      → (before ++ after ≡ []) × Fresh ps i
  only_one ps [] [] i h = (refl, h)
  only_one ps [] (j ∷ after) i h = absurd h
  only_one ps (j ∷ []) after i h = absurd h
  only_one ps (j ∷ k ∷ before) after i h = absurd h

  starts-Distinct :
      (ps : List (Player T)) (i : ℕ)
      → Fresh ps i
      → Distinct ps
      → Distinct (update i (set_used true) ps)
  starts-Distinct ps i fresh d j k p r hp hr up ur e =
      elim (update-cases ps i j (set_used true) p hp) [
        | inl (ji, p0, at_p, changed_p) ↦ elim (update-cases ps i k (set_used true) r hr) [
          | inl (ki, r0, at_r, changed_r) ↦ ji ∙ sym ki
          | inr old_r ↦ absurd (fresh k p0 r at_p old_r ur (sym (ap (λ x. x.caddr) changed_p) ∙ e))
        ]
        | inr old_p ↦ elim (update-cases ps i k (set_used true) r hr) [
          | inl (ki, r0, at_r, changed_r) ↦
              absurd (fresh j r0 p at_r old_p up (sym (ap (λ x. x.caddr) changed_r) ∙ sym e))
          | inr old_r ↦ d j k p r old_p old_r up ur e
        ]
      ]

  ends-Old : (ps : List (Player T)) (i : ℕ) → Old ps (update i (set_used false) ps)
  ends-Old ps i j r h used = elim (update-cases ps i j (set_used false) r h) [
    | inr same ↦ (r, same, used, refl)
    | inl (e, p, at, changed) ↦ let out : r.used ≡ false = ap (λ x. x.used) changed in cc
  ]

  -- A child that ends leaves those that have not run as fresh as they were.
  ends-Pending :
      (ps : List (Player T)) (i : ℕ) (forked : List ℕ)
      → Pending ps forked
      → Pending (update i (set_used false) ps) forked
  ends-Pending ps i [] h = tt
  ends-Pending ps i (k ∷ []) h = λ j p r hp hr used e.
      let (r0, at_r, used0, same_r) = ends-Old ps i j r hr used in
      elim (update-cases ps i k (set_used false) p hp) [
        | inl (ki, p0, at_p, changed) ↦
            h j p0 r0 (ap (get_elem? ps) ki ∙ at_p) at_r used0
              (sym (ap (λ x. x.caddr) changed) ∙ e ∙ sym same_r)
        | inr at_p ↦ h j p r0 at_p at_r used0 (e ∙ sym same_r)
      ]
  ends-Pending ps i (k ∷ l ∷ rest) h = absurd h

  -- The server serves a request when every child that it has made has run.
  abbrev pub Calm : World T → Type 0
  Calm w = w.forked ≡ []

  connects-Kept :
      {from : Address} {now : T} {text : List ℕ} {fork : ℤ} {i : ℕ} {q q' : Qsdb T} (w : World T)
      → q.shm ≡ w.shm
      → Served from now text fork i q q'
      → Kept w.shm w.forked
      → Distinct q'.shm
  connects-Kept {q} {q'} w e s kept =
      Old-Distinct q.shm q'.shm (served-Old s) (subst Distinct (sym e) kept.distinct)

  Step-Kept : {w w' : World T} → Step Calm w w' → Kept w.shm w.forked → Kept w'.shm w'.forked
  Step-Kept {w} (connects q q' i from now text n r calm e h) kept =
      let s = connect-serves from now text (pos n) r q q' i h in
      record {
        distinct = connects-Kept w e s kept;
        pending = subst (λ l. Pending q'.shm (i ∷ l)) (sym calm) (served-Fresh s);
      }
  Step-Kept {w} (no_child q q' i from now text n r calm e h) kept =
      let s = connect-serves from now text (negsuc n) r q q' i h in
      record { distinct = connects-Kept w e s kept; pending = subst (Pending q'.shm) (sym calm) tt }
  Step-Kept {w} (starts before after i e) kept =
      let (none_left, fresh) =
        only_one w.shm before after i (subst (Pending w.shm) e kept.pending) in
      record {
        distinct = starts-Distinct w.shm i fresh kept.distinct;
        pending = subst (Pending (update i (set_used true) w.shm)) (sym none_left) tt;
      }
  Step-Kept {w} (ends before after i e) kept = record {
    distinct = Old-Distinct w.shm _ (ends-Old w.shm i) kept.distinct;
    pending = ends-Pending w.shm i w.forked kept.pending;
  }

  Reach-Kept :
      {start w : World T} → Kept start.shm start.forked → Reach Calm start w → Kept w.shm w.forked
  Reach-Kept k here = k
  Reach-Kept k (later reach step) = Step-Kept step (Reach-Kept k reach)

  abbrev pub Unused : List (Player T) → Type 0
  Unused ps = (i : ℕ) (p : Player T) → get_elem? ps i ≡ some p → p.used ≡ false

  -- From a table without watchers, whatever requests come in and in whatever order children run and
  -- end: while each request is only served when every child of the requests before it has run, the
  -- addresses of any two watchers in the table differ.
  pub Reach-Distinct :
      {start w : World T}
      → Unused start.shm
      → start.forked ≡ []
      → Reach Calm start w
      → Distinct w.shm
  Reach-Distinct {start} unused quiet reach =
      let first : Kept start.shm start.forked = record {
        distinct = λ i j p r hp hr up ur e. absurd (no_watcher p up (unused i p hp));
        pending = subst (Pending start.shm) (sym quiet) tt;
      } in
      (Reach-Kept first reach).distinct
    where
      no_watcher : (p : Player T) → p.used ≡ true → p.used ≡ false → ⊥
      no_watcher p yes_used not_used = cc
