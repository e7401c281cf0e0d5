-- ===== src/Lmp/Stat/Laws.antt =====
-- src/ulmp.c, `STAT_calc`: the three places hold the three greatest counts.
use lmpc.Base.{
  ℕ, zero, suc, ◌+◌, ◌<◌, ◌≤◌, ◌≡◌, ◌≢◌, ◌⊎◌, inl, inr, refl, ltb, get_or, arith, ◌%◌, ◌∙◌,
  Bool-cases,
}
use native.Mathlib.Nat.{add-zero}
use mathlib.Core.Path.{subst}
use lmpc.Lmp.Stat.{Stat, hist_at, ulong_mod, rank, calc_round, calc_loop, stat_calc}

-- The value `j` has one of the three places, or counts no more than the third.
abbrev pub Placed : Stat → ℕ → Type 0
Placed s j = (j ≡ s.m0) ⊎ ((j ≡ s.m1) ⊎ ((j ≡ s.m2) ⊎ (hist_at s j ≤ hist_at s s.m2)))

-- The three places are in order, and distinct where their counts are not 0.
pub record Ranked (s : Stat) : Type 0 where
  pub first : hist_at s s.m1 ≤ hist_at s s.m0
  pub second : hist_at s s.m2 ≤ hist_at s s.m1
  pub apart01 : 0 < hist_at s s.m1 → s.m0 ≢ s.m1
  pub apart12 : 0 < hist_at s s.m2 → s.m1 ≢ s.m2
  pub apart02 : 0 < hist_at s s.m2 → s.m0 ≢ s.m2

record Below (s : Stat) (i : ℕ) : Type 0 where
  zero_count : get_or s.hist 0 0 ≡ 0
  m0_below : (s.m0 ≡ 0) ⊎ (s.m0 < i)
  m1_below : (s.m1 ≡ 0) ⊎ (s.m1 < i)
  m2_below : (s.m2 ≡ 0) ⊎ (s.m2 < i)

rank-Below : (s : Stat) (i : ℕ) → Below s i → Below (rank s i) (i + 1)
unfolding rank
rank-Below s i b = ground arith

rank-Placed :
    (s : Stat) (i j : ℕ) → Ranked s → j < i + 1 → (j < i → Placed s j) → Placed (rank s i) j
unfolding rank
rank-Placed s i j r h p = grind arith

rank-Ranked : (s : Stat) (i : ℕ) → Below s i → Ranked s → Ranked (rank s i)
unfolding rank
rank-Ranked s i b r = record {
  first = ground arith;
  second = ground arith;
  apart01 = ground arith;
  apart12 = ground arith;
  apart02 = ground arith;
}

-- The state of the loop before round `i`.
record Inv (s : Stat) (i : ℕ) : Type 0 where
  below : Below s i
  ranked : Ranked s
  placed : (j : ℕ) → j < i → Placed s j

rank-Inv : (s : Stat) (i : ℕ) → Inv s i → Inv (rank s i) (i + 1)
rank-Inv s i v = record {
  below = rank-Below s i v.below;
  ranked = rank-Ranked s i v.below v.ranked;
  placed = λ j h. rank-Placed s i j v.ranked h (v.placed j);
}

-- `sum` and `last` play no part in the invariant.
Inv-other : {s : Stat} {i : ℕ} (n k : ℕ) → Inv s i → Inv (record s { sum = n; last = k }) i
Inv-other n k v = record {
  below = record {
    zero_count = v.below.zero_count;
    m0_below = v.below.m0_below;
    m1_below = v.below.m1_below;
    m2_below = v.below.m2_below;
  };
  ranked = record {
    first = v.ranked.first;
    second = v.ranked.second;
    apart01 = v.ranked.apart01;
    apart12 = v.ranked.apart12;
    apart02 = v.ranked.apart02;
  };
  placed = v.placed;
}

calc_round-Inv : (s : Stat) (i : ℕ) → Inv s i → Inv (calc_round s i) (i + 1)
unfolding calc_round
calc_round-Inv s i v =
    let n = (s.sum + hist_at s i) % ulong_mod in
    let s' = rank (record s { sum = n }) i in
    let v' = rank-Inv (record s { sum = n }) i (Inv-other n s.last v) in
    elim (Bool-cases (ltb 0 (hist_at s' i))) [
      | inl e ↦ rw e (Inv-other s'.sum i v')
      | inr e ↦ rw e v'
    ]

calc_loop-Inv : (k i : ℕ) (s : Stat) → Inv s i → Inv (calc_loop k i s) (i + k)
unfolding calc_loop
calc_loop-Inv zero i s v = rw add-zero v
calc_loop-Inv (suc k) i s v =
    subst (λ n. Inv (calc_loop k (i + 1) (calc_round s i)) n) (omega arith)
      (calc_loop-Inv k (i + 1) (calc_round s i) (calc_round-Inv s i v))

calc_round-hist : (s : Stat) (i : ℕ) → (calc_round s i).hist ≡ s.hist
unfolding calc_round rank
calc_round-hist s i = ground arith

calc_loop-hist : (k i : ℕ) (s : Stat) → (calc_loop k i s).hist ≡ s.hist
unfolding calc_loop
calc_loop-hist zero i s = refl
calc_loop-hist (suc k) i s = calc_loop-hist k (i + 1) (calc_round s i) ∙ calc_round-hist s i

-- Where the value 0 has no count, `STAT_calc` leaves the counts as they are and finds the three
-- greatest: the places are in order of their counts and distinct where these are not 0, and of the
-- 128 values none without a place counts more than the third.
pub stat_calc-Ranked :
    (s : Stat)
    → get_or s.hist 0 0 ≡ 0
    → Ranked (stat_calc s)
      × ((j : ℕ) → j < 128 → Placed (stat_calc s) j)
      × ((stat_calc s).hist ≡ s.hist)
unfolding stat_calc
stat_calc-Ranked s h =
    let s0 = record s { m0 = 0; m1 = 0; m2 = 0; sum = 0 } in
    let start : Inv s0 0 = record {
      below = record {
        zero_count = h;
        m0_below = inl refl;
        m1_below = inl refl;
        m2_below = inl refl;
      };
      ranked = ground arith;
      placed = λ j lt. absurd (omega arith);
    } in
    let v = calc_loop-Inv 128 0 s0 start in
    (
      record {
        first = v.ranked.first;
        second = v.ranked.second;
        apart01 = v.ranked.apart01;
        apart12 = v.ranked.apart12;
        apart02 = v.ranked.apart02;
      },
      λ j lt. v.placed j lt,
      calc_loop-hist 128 0 s0,
    )
