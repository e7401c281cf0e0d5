-- ===== src/Dmo/Header/Recognised.antt =====
-- src/udmo.c: what `isDMO` has checked of a file that it takes for one of the two newer games.
use lmpc.Base.{
  ℕ, zero, suc, ◌+◌, ◌^◌, ◌<◌, ◌≤◌, ◌≡◌, ◌≢◌, ◌⊎◌, ◌||◌, Option, none, some, All, refl, inl, inr,
  Bool, true, false, ◌==◌, List, [], ◌∷◌, ltb, length, get_or, arith, Bool-cases, not, ◌&&◌, leb,
}
use lmpc.Dmo.{
  duke_old, duke_new, redneck, duke_14plus, header_duke_old, header_duke_new, header_duke_14plus,
  header_redneck_base, short_at, long_at,
}
use lmpc.Dmo.Tail.{tail_at, or_next, try_redneck, try_14plus, is_dmo}
use lmpc.Dmo.Tail.Laws.{IsByte, check_dmo_tail_iff}

get_or-IsByte : (xs : List ℕ) (i : ℕ) → All IsByte xs → get_or xs i 0 < 256
get_or-IsByte [] i h = omega arith
get_or-IsByte (x ∷ xs) zero h = h.0
get_or-IsByte (x ∷ xs) (suc i) h = get_or-IsByte xs i h.1

or_next-cases :
    (o : Option Bool) (game g : ℕ) (next : Option ℕ)
    → or_next o game next ≡ some g
    → ((o ≡ some true) × (g ≡ game)) ⊎ (next ≡ some g)
or_next-cases none game g next h = cc
or_next-cases (some true) game g next h = inl (refl, ground arith)
or_next-cases (some false) game g next h = inr h

-- What recognition has checked.
abbrev pub Checked : List ℕ → ℕ → Type 0
Checked f base =
    (base ≤ length f)
    × (0 < short_at f 0x0A)
    × (short_at f 0x0A ≤ 16)
    × (tail_at f (base + short_at f 0x0A) (long_at f 0) ≡ some true)

pub redneck-Checked :
    (f : List ℕ) (g : ℕ)
    → try_redneck f (long_at f 0) ≡ some g
    → g ≢ 0
    → (g ≡ redneck) × Checked f header_redneck_base × (short_at f 0x0A ≤ 8)
unfolding try_redneck
redneck-Checked f g h ne = elim (Bool-cases (ltb (length f) header_redneck_base)) [
  | inl short ↦ let e : some 0 ≡ some g = rw short at h in absurd (ne (ground arith))
  | inr long ↦ elim (Bool-cases (short_at f 0x0A == 0 || ltb 8 (short_at f 0x0A))) [
    | inl bad ↦ let e : some 0 ≡ some g = rw (long, bad) at h in absurd (ne (ground arith))
    | inr good ↦ elim (or_next-cases _ redneck g (some 0) (rw (long, good) at h)) [
      | inr e ↦ absurd (ne (ground arith))
      | inl (tail, e) ↦ (e, (ground arith, ground arith, ground arith, tail), ground arith)
    ]
  ]
]

pub plus-Checked :
    (f : List ℕ) (g : ℕ)
    → try_14plus f (long_at f 0) ≡ some g
    → ((g ≡ duke_14plus) × Checked f header_duke_14plus) ⊎ (try_redneck f (long_at f 0) ≡ some g)
unfolding try_14plus
plus-Checked f g h =
    let version = get_or f 0x04 0 in
    let test =
      not (ltb (length f) header_duke_14plus)
      && (version == 116 || version == 117)
      && (ltb 0 (short_at f 0x0A) && leb (short_at f 0x0A) 16) in
    elim (Bool-cases test) [
      | inr bad ↦ inr (rw bad at h)
      | inl good ↦
          elim (or_next-cases (tail_at f (header_duke_14plus + short_at f 0x0A) (long_at f 0))
            duke_14plus g (try_redneck f (long_at f 0)) (rw good at h)) [
              | inl (tail, e) ↦ inl (e, (ground arith, ground arith, ground arith, tail))
              | inr later ↦ inr later
            ]
    ]

-- Nine bytes are there, and an answer that is neither of the two older games comes from the others.
pub is_dmo-later :
    (f : List ℕ) (g : ℕ)
    → is_dmo f ≡ some g
    → g ≢ 0
    → g ≢ duke_old
    → g ≢ duke_new
    → (header_duke_old ≤ length f) × (try_14plus f (long_at f 0) ≡ some g)
unfolding is_dmo
is_dmo-later f g h zero_not old_not new_not = elim (Bool-cases (ltb (length f) header_duke_old)) [
  | inl short ↦ let e : some 0 ≡ some g = rw short at h in absurd (zero_not (ground arith))
  | inr long ↦
      elim (or_next-cases (tail_at f header_duke_old (long_at f 0)) duke_old g
        (or_next (tail_at f header_duke_new (long_at f 0)) duke_new (try_14plus f (long_at f 0)))
        (rw long at h)) [
          | inl (tail, e) ↦ absurd (old_not e)
          | inr h1 ↦
              elim (or_next-cases (tail_at f header_duke_new (long_at f 0)) duke_new g
                (try_14plus f (long_at f 0)) h1) [
                  | inl (tail, e) ↦ absurd (new_not e)
                  | inr h2 ↦ (ground arith, h2)
                ]
        ]
]

-- The place behind the header is in the file.
pub Checked-inside :
    (f : List ℕ) (base : ℕ)
    → All IsByte f
    → length f < 2 ^ 48
    → Checked f base
    → base + short_at f 0x0A ≤ length f
Checked-inside f base bytes small (long, some_players, few, tail) =
    let b0 = get_or-IsByte f 0 bytes in
    let b1 = get_or-IsByte f 1 bytes in
    let b2 = get_or-IsByte f 2 bytes in
    let b3 = get_or-IsByte f 3 bytes in
    ((check_dmo_tail_iff f (base + short_at f 0x0A) (long_at f 0) bytes small (omega arith)).0
      tail).0
