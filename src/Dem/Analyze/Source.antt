-- ===== src/Dem/Analyze/Source.antt =====
-- src/udem.c: `isDEMtxt` passes over white space and comments.
use lmpc.Base.{
  ℕ, zero, suc, ◌+◌, ◌≤◌, ◌-◌, ◌≡◌, ◌≢◌, refl, true, false, List, [], ◌∷◌, ◌++◌, arith, ◌==◌, take,
  length, length-take, ltb, All, ◌∙◌, ap, length-append,
}
use mathlib.Core.List.{append_assoc}
use lmpc.Base.Text.{codes}
use lmpc.Dem.Analyze.{is_blank, text_loop, is_dem_txt}

-- What may stand in front of the first word of a text: a blank, or a comment up to its line end.
pub data Lead : Type 0 where
  blank : (c : ℕ) → Lead
  comment : List ℕ → Lead

abbrev pub IsLead : Lead → Type 0
IsLead (blank c) = is_blank c ≡ true
IsLead (comment cs) = All (λ c. c ≢ 10) cs

abbrev pub lead_text : Lead → List ℕ
lead_text (blank c) = c ∷ []
lead_text (comment cs) = codes "//" ++ (cs ++ 10 ∷ [])

abbrev pub leads : List Lead → List ℕ
leads [] = []
leads (l ∷ ls) = lead_text l ++ leads ls

-- No blank is a letter or a stroke.
no_letter : (c : ℕ) → is_blank c ≡ true → (d : ℕ) → is_blank d ≡ false → (d == c) ≡ false
no_letter c h d k = ground arith

text_loop-comment :
    (cs rest : List ℕ)
    → All (λ c. c ≢ 10) cs
    → text_loop true ((cs ++ 10 ∷ []) ++ rest) ≡ text_loop false rest
unfolding text_loop
text_loop-comment [] rest h = refl
text_loop-comment (c ∷ cs) rest (h, hs) = ground (arith, text_loop-comment cs rest hs)

text_loop-leads :
    (ls : List Lead) (rest : List ℕ)
    → All IsLead ls
    → text_loop false (leads ls ++ rest) ≡ text_loop false rest
unfolding text_loop
text_loop-leads [] rest h = refl
text_loop-leads (blank c ∷ ls) rest (h, hs) =
    rw (no_letter c h 116 refl, no_letter c h 47 refl, h, text_loop) (text_loop-leads ls rest hs)
text_loop-leads (comment cs ∷ ls) rest (h, hs) =
    ap (text_loop true) (append_assoc (cs ++ 10 ∷ []) (leads ls) rest)
    ∙ text_loop-comment cs (leads ls ++ rest) h
    ∙ text_loop-leads ls rest hs

take-append_le :
    (n : ℕ) (xs ys : List ℕ) → length xs ≤ n → take n (xs ++ ys) ≡ xs ++ take (n - length xs) ys
take-append_le n [] ys h = ap (λ k. take k ys) (omega arith)
take-append_le zero (x ∷ xs) ys h = absurd (omega arith)
take-append_le (suc n) (x ∷ xs) ys h =
    ap (◌∷◌ x) (take-append_le n xs ys (omega arith))
    ∙ ap (λ k. x ∷ (xs ++ take k ys)) (omega arith)

long_enough : (n : ℕ) → 20 ≤ n → ltb n 20 ≡ false
long_enough n h = ground arith

-- A text of twenty characters or more, which starts with blanks and comments that end in a line end
-- and then has the word "track" within its first 1000 characters, is the source of a recording.
pub is_dem_txt-leads :
    (ls : List Lead) (rest : List ℕ)
    → All IsLead ls
    → length (leads ls) + 5 ≤ 1000
    → 15 ≤ length (leads ls) + length rest
    → is_dem_txt (leads ls ++ (codes "track" ++ rest)) ≡ true
unfolding is_dem_txt text_loop
is_dem_txt-leads ls rest h fits long =
    let k = 1000 - length (leads ls) in
    let text = codes "track" ++ rest in
    let e = take-append_le 1000 (leads ls) text (omega arith) in
    let e' = take-append_le k (codes "track") rest (omega arith) in
    let joined = length-append (leads ls) (codes "track" ++ take (k - 5) rest) in
    rw (e, is_dem_txt)
      (rw e' (
        rw
          (long_enough (length (leads ls ++ (codes "track" ++ take (k - 5) rest)))
            (omega (arith, length-take (k - 5) rest)))
          (text_loop-leads ls (codes "track" ++ take (k - 5) rest) h)))
