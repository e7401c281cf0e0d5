-- ===== src/Dmo/Tail/Ends.antt =====
-- src/udmo.c: `checkDMOtail` and `isDMO` end for every file.
use lmpc.Base.{
  ℕ, zero, suc, ◌+◌, ◌-◌, ◌/◌, ◌%◌, ◌^◌, ◌<◌, ◌≤◌, ◌≡◌, refl, ap, ◌∙◌, inl, inr, Bool, true, false,
  not, ◌||◌, List, [], ◌∷◌, Option, none, some, ◌==◌, ltb, length, drop, arith, Bool-cases,
  Option-cases, length-drop, if◌then◌else◌,
}
use lmpc.Dmo.{
  chunk_header_size, dmo_tic, header_duke_old, header_duke_new, header_duke_14plus,
  header_redneck_base, duke_old, duke_new, redneck, duke_14plus, short_at, long_at,
}
use lmpc.Dmo.Tail.{chunk_sizes, check_dmo_tail, tail_at, or_next, try_redneck, try_14plus, is_dmo}

-- A chunk that is found has at least four bytes before the end.
chunk_sizes-some : (bs : List ℕ) {c u : ℕ} → chunk_sizes bs ≡ some (c, u) → 4 ≤ length bs
unfolding chunk_sizes
chunk_sizes-some [] h = cc
chunk_sizes-some (a ∷ []) h = cc
chunk_sizes-some (a ∷ b ∷ []) h = cc
chunk_sizes-some (a ∷ b ∷ c ∷ []) h = cc
chunk_sizes-some (a ∷ b ∷ c ∷ d ∷ bs) h = omega arith

-- What the loop makes of a chunk.
module _ (k : ℕ) (f : List ℕ) (pos tics : ℕ) where
  abbrev pub after_chunk : Option (ℕ × ℕ) → Option Bool
  after_chunk none = some false
  after_chunk (some (c, u)) =
      if ltb c chunk_header_size || not (u % dmo_tic == 0)
      then some false
      else check_dmo_tail k f (pos + 4 + (c - 2)) ((suc tics + 2 ^ 64 - u / dmo_tic) % 2 ^ 64)

  pub unfold_tail : check_dmo_tail (suc k) f pos (suc tics) ≡ after_chunk (chunk_sizes (drop pos f))
  unfolding check_dmo_tail
  unfold_tail = refl

-- Each chunk takes eight bytes of the file at least, so a round for each byte is enough, and one
-- more.
check_dmo_tail-Ends :
    (k : ℕ) (f : List ℕ) (pos tics : ℕ)
    → length f < k + pos
    → 0 < k
    → (b : Bool) × (check_dmo_tail k f pos tics ≡ some b)
unfolding check_dmo_tail
check_dmo_tail-Ends zero f pos tics h some_left = absurd (omega arith)
check_dmo_tail-Ends (suc k) f pos zero h some_left = (pos == length f, refl)
check_dmo_tail-Ends (suc k) f pos (suc tics) h some_left =
    elim (Option-cases (chunk_sizes (drop pos f))) [
      | inl none_left ↦ (false, unfold_tail k f pos tics ∙ ap (after_chunk k f pos tics) none_left)
      | inr ((c, u), found) ↦
          let step = unfold_tail k f pos tics ∙ ap (after_chunk k f pos tics) found in
          elim (Bool-cases (ltb c chunk_header_size || not (u % dmo_tic == 0))) [
            | inl bad ↦ (false, step ∙ rw bad)
            | inr good ↦
                let four = chunk_sizes-some (drop pos f) found in
                let big : chunk_header_size ≤ c = ground arith in
                let tics' = (suc tics + 2 ^ 64 - u / dmo_tic) % 2 ^ 64 in
                let (b, rest) =
                  check_dmo_tail-Ends k f (pos + 4 + (c - 2)) tics'
                    (omega (arith, four, length-drop pos f))
                    (omega (arith, four, length-drop pos f)) in
                (b, step ∙ (rw good rest))
          ]
    ]

or_next-Ends :
    (o : Option Bool) (game : ℕ) (next : Option ℕ)
    → (b : Bool) × (o ≡ some b)
    → (g : ℕ) × (next ≡ some g)
    → (g : ℕ) × (or_next o game next ≡ some g)
or_next-Ends none game next (b, e) h = cc
or_next-Ends (some true) game next e h = (game, refl)
or_next-Ends (some false) game next e h = h

-- Either way of a test ends.
if-Ends :
    (b : Bool) (x y : Option ℕ)
    → (g : ℕ) × (x ≡ some g)
    → (g : ℕ) × (y ≡ some g)
    → (g : ℕ) × ((if b then x else y) ≡ some g)
if-Ends true x y h k = h
if-Ends false x y h k = k

tail_at-Ends : (f : List ℕ) (pos tics : ℕ) → (b : Bool) × (tail_at f pos tics ≡ some b)
tail_at-Ends f pos tics =
    check_dmo_tail-Ends (suc (length f)) f pos tics (omega arith) (omega arith)

-- Recognition comes to an end for every file.
pub is_dmo-Ends : (f : List ℕ) → (game : ℕ) × (is_dmo f ≡ some game)
unfolding is_dmo try_14plus try_redneck
is_dmo-Ends f =
    let tics = long_at f 0 in
    let playernum = short_at f 0x0A in
    let last : (g : ℕ) × (try_redneck f tics ≡ some g) =
      if-Ends _ _ _ (0, refl)
        (if-Ends _ _ _ (0, refl)
          (or_next-Ends _ redneck (some 0) (tail_at-Ends f (header_redneck_base + playernum) tics)
            (0, refl))) in
    let third : (g : ℕ) × (try_14plus f tics ≡ some g) =
      if-Ends _ _ _
        (or_next-Ends _ duke_14plus (try_redneck f tics)
          (tail_at-Ends f (header_duke_14plus + playernum) tics) last)
        last in
    if-Ends _ _ _ (0, refl)
      (or_next-Ends _ duke_old _ (tail_at-Ends f header_duke_old tics)
        (or_next-Ends _ duke_new (try_14plus f tics) (tail_at-Ends f header_duke_new tics) third))
