-- ===== src/Dem/Forward/Names.antt =====
-- src/udem.c: the loops over the names of models and sounds end.
use mathlib.Core.Path.{subst}
use lmpc.Base.{
  ℕ, zero, suc, ◌+◌, ◌<◌, ◌≤◌, ◌≡◌, refl, ap, sym, ◌∙◌, ◌⊎◌, some, inl, inr, List, [], ◌∷◌, ◌==◌,
  length, get_elem?, arith, Bool-cases, Option-cases, if◌then◌else◌,
}
use lmpc.Binblock.{Block, Run, ok, exit, fault, hangs, and_then, ◌>>◌, ◌>>=◌, pure, peek, advance}
use lmpc.Binblock.Text.{get_string_loop, get_next_string, string_limit}
use lmpc.Binblock.Forward.{Forward, forward, After, After-trans}
use lmpc.Dem.Read.World.{read_names, read_all_names}

get_elem?-some : (bs : List ℕ) (i : ℕ) {b : ℕ} → get_elem? bs i ≡ some b → i < length bs
get_elem?-some [] i h = cc
get_elem?-some (a ∷ bs) zero h = omega arith
get_elem?-some (a ∷ bs) (suc i) h = let below = get_elem?-some bs i h in omega arith

-- A string is read within the buffer, which stays.
abbrev Within : Block → Run (List ℕ) → Type 0
Within m (ok s m') = (m.p ≤ m'.p) × (m'.end ≡ m.end) × (m'.buffer ≡ m.buffer)
Within m (exit e) = Unit
Within m fault = Unit
Within m hangs = ⊥

Within-trans :
    (m m' : Block) (r : Run (List ℕ))
    → m.p ≤ m'.p
    → m'.end ≡ m.end
    → m'.buffer ≡ m.buffer
    → Within m' r
    → Within m r
Within-trans m m' (ok s m'') h e f (h', e', f') = (omega arith, e' ∙ e, f' ∙ f)
Within-trans m m' (exit c) h e f x = tt
Within-trans m m' fault h e f x = tt
Within-trans m m' hangs h e f x = x

Within-map :
    (m : Block) (r : Run (List ℕ)) (g : List ℕ → List ℕ)
    → Within m r
    → Within m (and_then r (λ s. pure (g s)))
Within-map m (ok s m') g h = h
Within-map m (exit e) g h = tt
Within-map m fault g h = tt
Within-map m hangs g h = h

get_string_loop-Within : (k : ℕ) (m : Block) → Within m (get_string_loop k m)
unfolding get_string_loop peek
get_string_loop-Within zero m = (omega arith, refl, refl)
get_string_loop-Within (suc k) m = elim (Option-cases (get_elem? m.buffer m.p)) [
  | inl outside ↦ rw (outside, get_string_loop, peek) tt
  | inr (b, found) ↦ elim (Bool-cases (b == 0)) [
    | inl last ↦ rw (found, get_string_loop, peek, last) (omega arith, refl, refl)
    | inr more ↦
        let m' = record m { p = m.p + 1 } in
        rw (found, get_string_loop, peek, more)
          (Within-map m (get_string_loop k m') (λ rest. b ∷ rest)
            (Within-trans m m' (get_string_loop k m') (omega arith) refl refl
              (get_string_loop-Within k m')))
  ]
]

-- What `get_next_string` leaves: a byte at least is taken, and it was in the buffer.
abbrev Taken : Block → Run (List ℕ) → Type 0
Taken m (ok s m') =
    (m.p < length m.buffer) × (m.p < m'.p) × (m'.end ≡ m.end) × (m'.buffer ≡ m.buffer)
Taken m (exit e) = Unit
Taken m fault = Unit
Taken m hangs = ⊥

first_byte : (m : Block) → (get_string_loop string_limit m ≡ fault) ⊎ (m.p < length m.buffer)
unfolding get_string_loop peek
first_byte m = elim (Option-cases (get_elem? m.buffer m.p)) [
  | inl outside ↦ inl (rw (outside, get_string_loop, peek))
  | inr (b, found) ↦ inr (get_elem?-some m.buffer m.p found)
]

Taken-advance :
    (m : Block) (r : Run (List ℕ))
    → m.p < length m.buffer
    → Within m r
    → Taken m (and_then r (λ s. advance 1 >> pure s))
Taken-advance m (ok s m') inside (h, e, f) = (inside, omega arith, e, f)
Taken-advance m (exit e) inside h = tt
Taken-advance m fault inside h = tt
Taken-advance m hangs inside h = h

get_next_string-Taken : (m : Block) → Taken m (get_next_string m)
unfolding get_next_string
get_next_string-Taken m = elim (first_byte m) [
  | inl outside ↦ subst (λ r. Taken m (and_then r (λ s. advance 1 >> pure s))) (sym outside) tt
  | inr inside ↦
      Taken-advance m (get_string_loop string_limit m) inside
        (get_string_loop-Within string_limit m)
]

After-map :
    (m : Block) (r : Run (List (List ℕ))) (g : List (List ℕ) → List (List ℕ))
    → After m r
    → After m (and_then r (λ s. pure (g s)))
After-map m (ok s m') g h = h
After-map m (exit e) g h = tt
After-map m fault g h = tt
After-map m hangs g h = h

names_on :
    (k : ℕ) (m : Block) (r : Run (List ℕ))
    → Taken m r
    → ((m' : Block)
        → m.p < length m.buffer
        → m.p < m'.p
        → m'.buffer ≡ m.buffer
        → After m' (read_names k m'))
    → After m (
        and_then r
          (λ buf. if length buf == 0 then pure [] else read_names k >>= λ rest. pure (buf ∷ rest)))
names_on k m (ok buf m') (inside, h, e, f) next = elim (Bool-cases (length buf == 0)) [
  | inl last ↦ rw last (omega arith, e)
  | inr more ↦ rw more (
      After-trans m m' _ (omega arith) e
        (After-map m' (read_names k m') (λ rest. buf ∷ rest) (next m' inside h f)))
]
names_on k m (exit e) h next = tt
names_on k m fault h next = tt
names_on k m hangs h next = h

-- The loop ends: each round takes a byte of the buffer.
read_names-After :
    (k : ℕ) (m : Block) → length m.buffer < k + m.p → 0 < k → After m (read_names k m)
unfolding read_names
read_names-After zero m h some_left = absurd (omega arith)
read_names-After (suc k) m h some_left =
    names_on k m (get_next_string m) (get_next_string-Taken m) (λ m' inside further same.
      read_names-After k m' (omega (arith, ap length same)) (omega arith))

pub read_all_names-Forward : Forward read_all_names
read_all_names-Forward =
    forward (λ m. read_names-After (suc (length m.buffer)) m (omega arith) (omega arith))
