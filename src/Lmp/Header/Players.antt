-- ===== src/Lmp/Header/Players.antt =====
-- src/ulmp.c: the player bytes of a header, as `LMP_writeheader` sets and `LMP_readheader` reads them.
use lmpc.Base.{
  ℕ, zero, suc, ◌+◌, ◌<◌, ◌≤◌, List, [], ◌∷◌, length, get_or, set, get_or-set_self, get_or-set_ne,
  length-set, ◌≡◌, ◌⊎◌, inl, inr, refl, sym, ap, ◌∙◌, arith,
}
use mathlib.Core.Path.{subst}
use lmpc.Lmp.{Player}
use lmpc.Lmp.Header.{player, read_players, put_players}

-- The players of a list have numbers from i on and below n, in ascending order, and no class.
abbrev pub Ascending : ℕ → ℕ → List Player → Type 0
Ascending i n [] = Unit
Ascending i n (p ∷ ps) =
    (i ≤ p.num) × (p.num < n) × (p.playerclass ≡ 0) × Ascending (p.num + 1) n ps

-- The bytes from `base + i` on and below `base + n` are 0.
abbrev pub Clear : List ℕ → ℕ → ℕ → ℕ → Type 0
Clear header base i n = (j : ℕ) → base + i ≤ j → j < base + n → get_or header j 0 ≡ 0

equal_or_above : (a b : ℕ) → b ≤ a → (a ≡ b) ⊎ (b + 1 ≤ a)
equal_or_above a b h = ground arith

put_players-below :
    (ps : List Player) (i n base j : ℕ) (h : List ℕ)
    → Ascending i n ps
    → j < base + i
    → get_or (put_players ps base h) j 0 ≡ get_or h j 0
unfolding put_players
put_players-below [] i n base j h asc l = refl
put_players-below (p ∷ ps) i n base j h (a, b, c, asc) l =
    put_players-below ps (p.num + 1) n base j (set h (base + p.num) 1) asc (omega arith)
    ∙ get_or-set_ne h (base + p.num) j 1 0 (omega arith)

read_here :
    (h : List ℕ) (base i k v : ℕ)
    → get_or h (base + i) 0 ≡ suc v
    → read_players h base i (suc k) ≡ player i 0 ∷ read_players h base (i + 1) k
unfolding read_players
read_here h base i k v e = rw (e, read_players) (ground arith)

read_none :
    (h : List ℕ) (base i k : ℕ)
    → get_or h (base + i) 0 ≡ 0
    → read_players h base i (suc k) ≡ read_players h base (i + 1) k
unfolding read_players
read_none h base i k e = rw (e, read_players)

read_players-past :
    (k i base : ℕ) (h : List ℕ) → Clear h base i (i + k) → read_players h base i k ≡ []
unfolding read_players
read_players-past zero i base h clear = refl
read_players-past (suc k) i base h clear =
    read_none h base i k (clear (base + i) (omega arith) (omega arith))
    ∙ read_players-past k (i + 1) base h (λ j l m. clear j (omega arith) (omega arith))

read_players-from :
    (k i n base : ℕ) (ps : List Player) (h : List ℕ)
    → n ≡ i + k
    → Ascending i n ps
    → Clear h base i n
    → base + n ≤ length h
    → read_players (put_players ps base h) base i k ≡ ps
unfolding put_players
read_players-from k i n base [] h hn asc clear room =
    read_players-past k i base h (λ j l m. clear j l (omega arith))
read_players-from zero i n base (p ∷ ps) h hn (a, b, c, asc) clear room = absurd (omega arith)
read_players-from (suc k) i n base (p ∷ ps) h hn (a, b, c, asc) clear room =
    elim (equal_or_above p.num i a) [
      | inl e ↦
          let h' = set h (base + p.num) 1 in
          let byte : get_or (put_players ps base h') (base + i) 0 ≡ 1 =
            put_players-below ps (p.num + 1) n base (base + i) h' asc (omega arith)
            ∙ ap (λ z. get_or h' (base + z) 0) (sym e)
            ∙ get_or-set_self h (base + p.num) 1 0 (omega arith) in
          let rest =
            read_players-from k (i + 1) n base ps h' (omega arith)
              (subst (λ z. Ascending (z + 1) n ps) e asc)
              (λ j l m.
                get_or-set_ne h (base + p.num) j 1 0 (omega arith) ∙ clear j (omega arith) m)
              (omega (arith, length-set h (base + p.num) 1)) in
          read_here (put_players ps base h') base i k 0 byte
          ∙ ap (λ t. player i 0 ∷ t) rest
          ∙ ap (λ z. z ∷ ps) (ap (λ z. player z 0) (sym e) ∙ ap (λ z. player p.num z) (sym c))
      | inr above ↦
          read_none (put_players (p ∷ ps) base h) base i k (
            put_players-below (p ∷ ps) (i + 1) n base (base + i) h (above, b, c, asc) (omega arith)
            ∙ clear (base + i) (omega arith) (omega arith))
          ∙ read_players-from k (i + 1) n base (p ∷ ps) h (omega arith) (above, b, c, asc)
              (λ j l m. clear j (omega arith) m) room
    ]

-- The reader of the player bytes of a game other than HEXEN gives back the players that the writer
-- has set in a header, where their bytes were 0: n places from `base` on in the header, the players
-- in ascending order, below n, and of class 0.
pub read_players-put_players :
    (n base : ℕ) (ps : List Player) (header : List ℕ)
    → Ascending 0 n ps
    → Clear header base 0 n
    → base + n ≤ length header
    → read_players (put_players ps base header) base 0 n ≡ ps
read_players-put_players n base ps header asc clear room =
    read_players-from n 0 n base ps header (omega arith) asc clear room
