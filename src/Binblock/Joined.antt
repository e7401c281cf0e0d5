-- ===== src/Binblock/Joined.antt =====
-- src/binblock.c: bytes that stand one behind the other in a buffer.
use lmpc.Base.{
  ℕ, suc, ◌+◌, ◌≤◌, ◌≡◌, ◌∙◌, refl, ap, some, List, [], ◌∷◌, ◌++◌, arith, length, get_elem?, take,
}
use mathlib.Core.Path.{subst}
use lmpc.Binblock.Bytes.{Holds, splice, get_elem?-splice_above}

-- What stands in a buffer behind its first byte stands in the rest of it.
pub Holds-shift : (bs buf : List ℕ) (x i j : ℕ) → j ≡ suc i → Holds (x ∷ buf) j bs → Holds buf i bs
Holds-shift [] buf x i j e h = tt
Holds-shift (b ∷ bs) buf x i j e (h, hs) = (
  subst (λ n. get_elem? (x ∷ buf) n ≡ some b) e h,
  Holds-shift bs buf x (i + 1) (j + 1) (omega arith) hs,
)

-- What stands at the start of a buffer is its first bytes.
pub take-Holds : (bs buf : List ℕ) → Holds buf 0 bs → take (length bs) buf ≡ bs
take-Holds [] buf h = refl
take-Holds (b ∷ bs) [] (h, hs) = cc
take-Holds (b ∷ bs) (x ∷ buf) (h, hs) =
    let rest = take-Holds bs buf (Holds-shift bs buf x 0 1 (omega arith) hs) in
    let e : x ≡ b = cc in ap (λ y. y ∷ take (length bs) buf) e ∙ ap (◌∷◌ b) rest

-- Bytes behind those that are written stay.
pub Holds-splice_above :
    (cs xs buf : List ℕ) (i j : ℕ)
    → i + length xs ≤ j
    → Holds buf j cs
    → Holds (splice buf i xs) j cs
Holds-splice_above [] xs buf i j le h = tt
Holds-splice_above (c ∷ cs) xs buf i j le (h, hs) = (
  get_elem?-splice_above xs buf i j le ∙ h,
  Holds-splice_above cs xs buf i (j + 1) (omega arith) hs,
)

pub Holds-join :
    (bs cs buf : List ℕ) (i j : ℕ)
    → j ≡ i + length bs
    → Holds buf i bs
    → Holds buf j cs
    → Holds buf i (bs ++ cs)
Holds-join [] cs buf i j e h hc = subst (λ n. Holds buf n cs) (e ∙ omega arith) hc
Holds-join (b ∷ bs) cs buf i j e (h, hs) hc =
    (h, Holds-join bs cs buf (i + 1) j (e ∙ omega arith) hs hc)
