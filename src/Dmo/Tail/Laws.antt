-- ===== src/Dmo/Tail/Laws.antt =====
-- src/udmo.c: `checkDMOtail` finds the files whose chunks have all the tics.
use mathlib.Core.List.{append_assoc}
use mathlib.Core.Path.{subst}
use lmpc.Base.{
  ℕ, zero, suc, ◌+◌, ◌-◌, ◌*◌, ◌/◌, ◌%◌, ◌^◌, ◌<◌, ◌≤◌, ◌≡◌, refl, ap, sym, ◌∙◌, inl, inr, true,
  false, not, ◌||◌, List, [], ◌∷◌, ◌++◌, some, ◌==◌, ltb, length, drop, arith, Bool-cases,
  Option-cases, length-drop, length-append, drop-append, length-take, take-append-drop, drop_whole,
  drop-drop, ◌↔◌, All, take,
}
use lmpc.Dmo.{chunk_header_size, dmo_tic}
use lmpc.Dmo.Tail.{chunk_sizes, check_dmo_tail, tail_at}
use lmpc.Dmo.Tail.Ends.{after_chunk, unfold_tail}

-- The rest of a recording that has the tics: chunks of a size and a number of bytes of ten for each
-- tic, no byte behind the last one, and none that is not needed.
pub data Chunks : ℕ → List ℕ → Type 0 where
  no_more : Chunks 0 []
  chunk :
      {tics : ℕ} {rest : List ℕ} (b0 b1 b2 b3 n t : ℕ) (body r : List ℕ)
      → 0 < tics
      → 6 ≤ b0 + b1 * 256
      → b2 + b3 * 256 ≡ 10 * n
      → length body ≡ b0 + b1 * 256 - 2
      → tics ≡ n + t
      → rest ≡ b0 ∷ b1 ∷ b2 ∷ b3 ∷ (body ++ r)
      → Chunks t r
      → Chunks tics rest

-- A file whose rest has the tics is accepted.
pub check_dmo_tail-Chunks :
    (k : ℕ) (before rest : List ℕ) (tics : ℕ)
    → length rest < k
    → tics < 2 ^ 64
    → Chunks tics rest
    → check_dmo_tail k (before ++ rest) (length before) tics ≡ some true
unfolding check_dmo_tail
check_dmo_tail-Chunks zero before rest tics fuel low c = absurd (omega arith)
check_dmo_tail-Chunks (suc k) before rest tics fuel low no_more =
    ground (arith, length-append before [])
check_dmo_tail-Chunks (suc k) before rest zero fuel low
      (chunk b0 b1 b2 b3 n t body r some_left size tens long sum e c) =
    absurd (omega arith)
check_dmo_tail-Chunks (suc k) before rest (suc tics) fuel low
      (chunk b0 b1 b2 b3 n t body r some_left size tens long sum e c) =
    let this = b0 ∷ b1 ∷ b2 ∷ b3 ∷ body in
    let f = before ++ rest in
    let pos = length before in
    let next_pos = pos + 4 + (b0 + b1 * 256 - 2) in
    let next_tics = (suc tics + 2 ^ 64 - (b2 + b3 * 256) / dmo_tic) % 2 ^ 64 in
    let found : chunk_sizes (drop pos f) ≡ some (b0 + b1 * 256, b2 + b3 * 256) =
      unfold chunk_sizes in ap chunk_sizes (drop-append before rest ∙ e) in
    let good : (ltb (b0 + b1 * 256) chunk_header_size || not ((b2 + b3 * 256) % dmo_tic == 0))
        ≡ false =
      ground arith in
    let file : f ≡ (before ++ this) ++ r = ap (◌++◌ before) e ∙ sym (append_assoc before this r) in
    let place : next_pos ≡ length (before ++ this) = omega (arith, length-append before this) in
    let left : next_tics ≡ t = omega arith in
    unfold_tail k f pos tics
    ∙ ap (after_chunk k f pos tics) found
    ∙ (rw good (
        ap (λ g. check_dmo_tail k g next_pos next_tics) file
        ∙ ap (λ p. check_dmo_tail k ((before ++ this) ++ r) p next_tics) place
        ∙ ap (check_dmo_tail k ((before ++ this) ++ r) (length (before ++ this))) left
        ∙ check_dmo_tail-Chunks k (before ++ this) r t
            (omega (arith, ap length e, length-append body r)) (omega arith) c))

abbrev pub IsByte : ℕ → Type 0
IsByte b = b < 256

-- The head of a chunk that is found.
record HeadOf (bs : List ℕ) (c u : ℕ) : Type 0 where
  b0 : ℕ
  b1 : ℕ
  b2 : ℕ
  b3 : ℕ
  more : List ℕ
  bytes : bs ≡ b0 ∷ b1 ∷ b2 ∷ b3 ∷ more
  first : c ≡ b0 + b1 * 256
  second : u ≡ b2 + b3 * 256

chunk_sizes-HeadOf : (bs : List ℕ) (c u : ℕ) → chunk_sizes bs ≡ some (c, u) → HeadOf bs c u
unfolding chunk_sizes
chunk_sizes-HeadOf [] c u h = cc
chunk_sizes-HeadOf (x ∷ []) c u h = cc
chunk_sizes-HeadOf (x ∷ y ∷ []) c u h = cc
chunk_sizes-HeadOf (x ∷ y ∷ z ∷ []) c u h = cc
chunk_sizes-HeadOf (x ∷ y ∷ z ∷ w ∷ bs) c u h = record {
  b0 = x;
  b1 = y;
  b2 = z;
  b3 = w;
  more = bs;
  bytes = refl;
  first = ground arith;
  second = ground arith;
}

All-drop : (n : ℕ) (bs : List ℕ) → All IsByte bs → All IsByte (drop n bs)
All-drop zero bs h = h
All-drop (suc n) [] h = h
All-drop (suc n) (b ∷ bs) h = All-drop n bs h.1

-- What a file that is accepted has from `pos` on.
abbrev Accepted : List ℕ → ℕ → ℕ → Type 0
Accepted f pos tics = (pos ≤ length f) × (tics ≤ 6554 * (length f - pos)) × Chunks tics (drop pos f)

accepted :
    (k : ℕ) (f : List ℕ) (pos tics : ℕ)
    → All IsByte f
    → length f < 2 ^ 48
    → tics < 2 ^ 64
    → check_dmo_tail k f pos tics ≡ some true
    → Accepted f pos tics
unfolding check_dmo_tail
accepted zero f pos tics bytes small low h = cc
accepted (suc k) f pos zero bytes small low h =
    let last : pos ≡ length f = ground arith in
    let nothing_left : drop pos f ≡ [] = ap (λ n. drop n f) last ∙ drop_whole f in
    (omega arith, omega arith, subst (Chunks 0) (sym nothing_left) no_more)
accepted (suc k) f pos (suc tics) bytes small low h =
    elim (Option-cases (chunk_sizes (drop pos f))) [
      | inl none_left ↦
          let out = sym (unfold_tail k f pos tics ∙ ap (after_chunk k f pos tics) none_left) ∙ h in
          cc
      | inr ((c, u), found) ↦
          let step = sym (unfold_tail k f pos tics ∙ ap (after_chunk k f pos tics) found) ∙ h in
          elim (Bool-cases (ltb c chunk_header_size || not (u % dmo_tic == 0))) [
            | inl bad ↦ let out : some false ≡ some true = rw bad at step in cc
            | inr good ↦
                let next_tics = (suc tics + 2 ^ 64 - u / dmo_tic) % 2 ^ 64 in
                let rest : check_dmo_tail k f (pos + 4 + (c - 2)) next_tics ≡ some true =
                  rw good at step in
                let big : 6 ≤ c = ground arith in
                let (inside, few, chunks) =
                  accepted k f (pos + 4 + (c - 2)) next_tics bytes small (omega arith) rest in
                let head = chunk_sizes-HeadOf (drop pos f) c u found in
                let more = head.more in
                let (l0, (l1, (l2, (l3, l4)))) =
                  subst (All IsByte) head.bytes (All-drop pos f bytes) in
                let behind : drop (pos + 4 + (c - 2)) f ≡ drop (c - 2) more =
                  drop-drop (pos + 4) (c - 2) f
                  ∙ ap (drop (c - 2)) (drop-drop pos 4 f ∙ ap (drop 4) head.bytes) in
                let room : 4 + length more ≡ length f - pos =
                  omega (arith, ap length head.bytes, length-drop pos f) in
                let tens : u ≡ 10 * (u / 10) = ground arith in
                let fewer : u < 65536 = omega (arith, head.second) in
                let sum : suc tics ≡ u / 10 + next_tics = omega arith in
                (
                  omega arith,
                  omega arith,
                  chunk head.b0 head.b1 head.b2 head.b3 (u / 10) next_tics (take (c - 2) more)
                      (drop (c - 2) more) (omega arith) (omega (arith, head.first))
                      (sym head.second ∙ tens) (omega (arith, head.first, length-take (c - 2) more))
                      sum
                      (head.bytes
                        ∙ ap (λ l. head.b0 ∷ head.b1 ∷ head.b2 ∷ head.b3 ∷ l)
                            (sym (take-append-drop (c - 2) more)))
                      (subst (Chunks next_tics) behind chunks),
                )
          ]
    ]

-- A file of less than 2 ^ 48 bytes is accepted from a place on exactly if the place is in the file and
-- the rest of the file is a row of chunks that has just the tics, fewer than 2 ^ 64: each of a size
-- of six at least and of ten bytes for each tic, none behind the last tic, and no byte behind.
pub check_dmo_tail_iff :
    (f : List ℕ) (pos tics : ℕ)
    → All IsByte f
    → length f < 2 ^ 48
    → tics < 2 ^ 64
    → (tail_at f pos tics ≡ some true) ↔ ((pos ≤ length f) × Chunks tics (drop pos f))
check_dmo_tail_iff f pos tics bytes small low = (
  λ h.
      let (inside, few, chunks) = accepted (suc (length f)) f pos tics bytes small low h in
      (inside, chunks),
  λ (h : (pos ≤ length f) × Chunks tics (drop pos f)).
      let before = take pos f in
      let rest = drop pos f in
      let whole : before ++ rest ≡ f = take-append-drop pos f in
      let place : length before ≡ pos = omega (arith, length-take pos f, h.0) in
      ap (λ g. check_dmo_tail (suc (length f)) g pos tics) (sym whole)
      ∙ ap (λ p. check_dmo_tail (suc (length f)) (before ++ rest) p tics) (sym place)
      ∙ check_dmo_tail-Chunks (suc (length f)) before rest tics (omega (arith, length-drop pos f))
          low h.1,
)
