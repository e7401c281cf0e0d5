-- ===== src/Dbs/Server/Table.antt =====
-- src/dbs.c: the table of the watchers.
use lmpc.Base.{
  ℕ, zero, suc, ◌≤◌, ◌≡◌, ◌≢◌, refl, ap, ◌↔◌, ◌⊎◌, inl, inr, true, false, List, [], ◌∷◌, Option,
  none, some, length, get_elem?, arith, Bool-cases,
}
use lmpc.Dbs.Packet.{Address, equal_addr_in}
use lmpc.Dbs.Server.{Player, count_players, one_later, find_free, is_known, update}

pub equal_addr_in_iff : (a b : Address) → (equal_addr_in a b ≡ true) ↔ (a ≡ b)
unfolding equal_addr_in
equal_addr_in_iff a b = ground arith

find_later : (o : Option ℕ) (i : ℕ) → one_later o ≡ some i → (k : ℕ) × (o ≡ some k) × (i ≡ suc k)
find_later none i h = cc
find_later (some k) i h = (k, refl, ground arith)

module _ {T : Type 0} where
  pub get_elem?-update_self :
      (ps : List (Player T)) (i : ℕ) (f : Player T → Player T) {p : Player T}
      → get_elem? ps i ≡ some p
      → get_elem? (update i f ps) i ≡ some (f p)
  get_elem?-update_self [] i f h = cc
  get_elem?-update_self (q ∷ ps) zero f h = cc
  get_elem?-update_self (q ∷ ps) (suc i) f h = get_elem?-update_self ps i f h

  pub get_elem?-update_ne :
      (ps : List (Player T)) (i j : ℕ) (f : Player T → Player T)
      → i ≢ j
      → get_elem? (update i f ps) j ≡ get_elem? ps j
  get_elem?-update_ne [] i j f h = refl
  get_elem?-update_ne (q ∷ ps) zero zero f h = absurd (h refl)
  get_elem?-update_ne (q ∷ ps) zero (suc j) f h = refl
  get_elem?-update_ne (q ∷ ps) (suc i) zero f h = refl
  get_elem?-update_ne (q ∷ ps) (suc i) (suc j) f h =
      get_elem?-update_ne ps i j f (λ e. h (ap suc e))

  -- An entry after an update is the changed one or as it was.
  pub update-cases :
      (ps : List (Player T)) (i j : ℕ) (f : Player T → Player T) (r : Player T)
      → get_elem? (update i f ps) j ≡ some r
      → ((j ≡ i) × (p : Player T) × (get_elem? ps i ≡ some p) × (r ≡ f p))
        ⊎ (get_elem? ps j ≡ some r)
  update-cases [] i j f r h = inr h
  update-cases (q ∷ ps) zero zero f r h = inl (refl, q, refl, cc)
  update-cases (q ∷ ps) zero (suc j) f r h = inr h
  update-cases (q ∷ ps) (suc i) zero f r h = inr h
  update-cases (q ∷ ps) (suc i) (suc j) f r h = elim (update-cases ps i j f r h) [
    | inl (e, p, at, changed) ↦ inl (ap suc e, p, at, changed)
    | inr same ↦ inr same
  ]

  -- The entry that is found is not used.
  pub find_free-some :
      (ps : List (Player T)) (i : ℕ)
      → find_free ps ≡ some i
      → (p : Player T) × (get_elem? ps i ≡ some p) × (p.used ≡ false)
  unfolding find_free
  find_free-some [] i h = cc
  find_free-some (q ∷ ps) i h = elim (Bool-cases q.used) [
    | inl taken ↦
        let (k, e, next) = find_later (find_free ps) i (rw taken at h) in
        let (p, at, free) = find_free-some ps k e in (p, rw next at, free)
    | inr free ↦ let start : i ≡ 0 = ground arith in (q, rw start refl, free)
  ]

  -- A change that leaves `used` leaves the entry that is found.
  pub find_free-update :
      (ps : List (Player T)) (i : ℕ) (f : Player T → Player T)
      → ((p : Player T) → (f p).used ≡ p.used)
      → find_free (update i f ps) ≡ find_free ps
  unfolding find_free
  find_free-update [] i f same = refl
  find_free-update (q ∷ ps) zero f same = rw (same q) refl
  find_free-update (q ∷ ps) (suc i) f same = rw (find_free-update ps i f same) refl

  -- Nobody in the table has an address that is not known.
  pub is_known-false :
      (from : Address) (ps : List (Player T)) (j : ℕ) (p : Player T)
      → is_known from ps ≡ false
      → get_elem? ps j ≡ some p
      → p.used ≡ true
      → from ≢ p.caddr
  unfolding is_known
  is_known-false from [] j p h at used e = cc
  is_known-false from (q ∷ ps) zero p h at used e =
      let known : equal_addr_in from p.caddr ≡ true = (equal_addr_in_iff from p.caddr).1 e in
      ground arith
  is_known-false from (q ∷ ps) (suc j) p h at used e =
      is_known-false from ps j p (ground arith) at used e

  pub count_players-le : (ps : List (Player T)) → count_players ps ≤ length ps
  unfolding count_players
  count_players-le [] = omega arith
  count_players-le (p ∷ ps) = ground (arith, count_players-le ps)
