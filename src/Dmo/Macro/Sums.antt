-- ===== src/Dmo/Macro/Sums.antt =====
-- src/udmo.c: the loops of `DMO_readmacroblock` that add up the differences.
use lmpc.Base.{ℕ, zero, suc, ◌+◌, ◌-◌, ◌*◌, ◌%◌, ◌<◌, ◌≤◌, ◌≡◌, ◌≢◌, refl, ap, sym, ◌∙◌, arith}
use native.Mathlib.Decide.{dec_lt, ℕ_discrete}
use lmpc.Dmo.Macro.{Bytes, store, first_tic, next_tic, tics_from, sum_tics}

store_self : (b : Bytes) (i v : ℕ) → store b i v i ≡ v
unfolding store
store_self b i v = ground arith

store_ne : (b : Bytes) (i j v : ℕ) → j ≢ i → store b i v j ≡ b j
unfolding store
store_ne b i j v h = ground arith

-- The sum of the bytes at the place `j` of the tics up to `i`, of `tic_size` bytes each.
abbrev pub sum_to : ℕ → Bytes → ℕ → ℕ → ℕ
sum_to tic_size c j zero = c j
sum_to tic_size c j (suc i) = sum_to tic_size c j i + c (suc i * tic_size + j)

module _ (tic_size : ℕ) (c : Bytes) where
  -- The first tic is copied, and nothing below it written.
  first_tic-kept : (k j : ℕ) (u : Bytes) (p : ℕ) → p < j → first_tic tic_size c k j u p ≡ u p
  unfolding first_tic
  first_tic-kept zero j u p h = refl
  first_tic-kept (suc k) j u p h =
      first_tic-kept k (j + 1) (store u j (c j)) p (omega arith)
      ∙ store_ne u j p (c j) (ground arith)

  first_tic-copied :
      (k j : ℕ) (u : Bytes) (p : ℕ) → j ≤ p → p < j + k → first_tic tic_size c k j u p ≡ c p
  unfolding first_tic
  first_tic-copied zero j u p lo hi = absurd (omega arith)
  first_tic-copied (suc k) j u p lo hi = elim (ℕ_discrete p j) [
    | yes e ↦
        rw e (first_tic-kept k (j + 1) (store u j (c j)) j (omega arith) ∙ store_self u j (c j))
    | no ne ↦ first_tic-copied k (j + 1) (store u j (c j)) p (ground arith) (omega arith)
  ]

  -- A tic is written from the one before it, and nothing below it is.
  next_tic-kept :
      (k j i : ℕ) (u : Bytes) (p : ℕ) → p < i * tic_size + j → next_tic tic_size c k j i u p ≡ u p
  unfolding next_tic
  next_tic-kept zero j i u p h = refl
  next_tic-kept (suc k) j i u p h =
      next_tic-kept k (j + 1) i _ p (omega arith) ∙ store_ne u (i * tic_size + j) p _ (ground arith)

  one_more : (i : ℕ) → suc i * tic_size ≡ i * tic_size + tic_size
  one_more i = grind arith

  next_tic-summed :
      (k j i : ℕ) (u : Bytes) (p : ℕ)
      → j ≤ p
      → p < j + k
      → p < tic_size
      → next_tic tic_size c k j (suc i) u (suc i * tic_size + p)
        ≡ (u (i * tic_size + p) + c (suc i * tic_size + p)) % 256
  unfolding next_tic
  next_tic-summed zero j i u p lo hi inside = absurd (omega arith)
  next_tic-summed (suc k) j i u p lo hi inside =
      let v = (u ((suc i - 1) * tic_size + j) + c (suc i * tic_size + j)) % 256 in
      let u' = store u (suc i * tic_size + j) v in
      let less : suc i - 1 ≡ i = omega arith in
      elim (ℕ_discrete p j) [
        | yes e ↦
            next_tic-kept k (j + 1) (suc i) u' (suc i * tic_size + p) (omega arith)
            ∙ ap (λ q. u' (suc i * tic_size + q)) e
            ∙ store_self u (suc i * tic_size + j) v
            ∙ ap (λ q. (u (q * tic_size + j) + c (suc i * tic_size + j)) % 256) less
            ∙ ap (λ q. (u (i * tic_size + q) + c (suc i * tic_size + q)) % 256) (sym e)
        | no ne ↦
            let other : i * tic_size + p ≢ suc i * tic_size + j =
              λ e. absurd (omega (arith, one_more i)) in
            next_tic-summed k (j + 1) i u' p (ground arith) (omega arith) inside
            ∙ ap (λ q. (q + c (suc i * tic_size + p)) % 256)
                (store_ne u (suc i * tic_size + j) (i * tic_size + p) v other)
      ]

  -- The first `n` tics of `u` are the sums.
  abbrev Summed : Bytes → ℕ → Type 0
  Summed u n = (a j : ℕ) → a < n → j < tic_size → u (a * tic_size + j) ≡ sum_to tic_size c j a % 256

  in_tics : (a n j : ℕ) → a < n → j < tic_size → a * tic_size + j < n * tic_size + 0
  in_tics a n j h h' = grind arith

  next_tic-Summed :
      (i : ℕ) (u : Bytes)
      → Summed u (suc i)
      → Summed (next_tic tic_size c tic_size 0 (suc i) u) (suc (suc i))
  next_tic-Summed i u s a j h h' = elim (dec_lt a (suc i)) [
    | yes old ↦
        next_tic-kept tic_size 0 (suc i) u (a * tic_size + j) (in_tics a (suc i) j old h')
        ∙ s a j old h'
    | no new ↦
        let same : a ≡ suc i = omega arith in
        ap (λ q. next_tic tic_size c tic_size 0 (suc i) u (q * tic_size + j)) same
        ∙ next_tic-summed tic_size 0 i u j (omega arith) (omega arith) h'
        ∙ ap (λ q. (q + c (suc i * tic_size + j)) % 256) (s i j (omega arith) h')
        ∙ omega arith
        ∙ ap (λ q. sum_to tic_size c j q % 256) (sym same)
  ]

  tics_from-Summed :
      (k i : ℕ) (u : Bytes)
      → Summed u (suc i)
      → Summed (tics_from tic_size c k (suc i) u) (suc i + k)
  unfolding tics_from
  tics_from-Summed zero i u s a j h h' = s a j (omega arith) h'
  tics_from-Summed (suc k) i u s a j h h' =
      let u' = next_tic tic_size c tic_size 0 (suc i) u in
      let later : suc i + 1 ≡ suc (suc i) = omega arith in
      ap (λ q. tics_from tic_size c k q u' (a * tic_size + j)) later
      ∙ tics_from-Summed k (suc i) u' (next_tic-Summed i u s) a j (omega arith) h'

  start_at : (k : ℕ) → 0 * tic_size + k ≡ k
  start_at k = omega arith

  -- After the loops, each byte of each of the tics is the sum of the bytes at its place of this tic and
  -- of all tics before, in eight bits.
  pub sum_tics-sum_to :
      (tics : ℕ) (u : Bytes) (a j : ℕ)
      → ((p : ℕ) → c p < 256)
      → a < tics
      → j < tic_size
      → sum_tics tic_size c tics u (a * tic_size + j) ≡ sum_to tic_size c j a % 256
  unfolding sum_tics
  sum_tics-sum_to zero u a j bytes h h' = absurd (omega arith)
  sum_tics-sum_to (suc n) u a j bytes h h' =
      let first = first_tic tic_size c tic_size 0 u in
      let rounds : suc n - 1 ≡ n = omega arith in
      let copied : Summed first 1 = λ b k few inside.
        let start : b ≡ 0 = omega arith in
        rw start (
          ap first (start_at k)
          ∙ first_tic-copied tic_size 0 u k (omega arith) (omega arith)
          ∙ omega (arith, bytes k)) in
      ap (λ r. tics_from tic_size c r 1 first (a * tic_size + j)) rounds
      ∙ tics_from-Summed n 0 first copied a j (omega arith) h'
