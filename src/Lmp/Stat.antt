-- ===== src/Lmp/Stat.antt =====
-- src/ulmp.c, the STAT_ functions: which turning values a player uses most, from which the program
-- tells a keyboard from a mouse. `STAT_writehist`, which prints, is left out.
pub mod Laws
use lmpc.Base.{
  ℕ, zero, suc, ◌+◌, ◌%◌, ◌^◌, Bool, ◌&&◌, ◌||◌, List, [], ◌∷◌, ◌==◌, ltb, get_or, replicate,
  if◌then◌else◌,
}

abbrev pub c_mouse : ℕ
c_mouse = 1

abbrev pub c_key : ℕ
c_key = 6

-- STAT_t; the array `m` is the three fields `m0` to `m2`.
pub record Stat : Type 0 where
  pub hist : List ℕ
  pub sum : ℕ
  pub command : List ℕ
  pub maxm : ℕ
  pub m0 : ℕ
  pub m1 : ℕ
  pub m2 : ℕ
  pub control : ℕ
  pub last : ℕ

abbrev pub hist_at : Stat → ℕ → ℕ
hist_at s i = get_or s.hist i 0

abbrev pub ulong_mod : ℕ
ulong_mod = 2 ^ 64

unfoldable pub stat_init : Stat → List ℕ → ℕ → Stat
stat_init s command maxm = record s {
  hist = replicate 128 0;
  sum = 0;
  command = command;
  maxm = maxm;
}

-- One round of the loop of `STAT_calc`: the ladder of the three places, and `last`.
unfoldable pub rank : Stat → ℕ → Stat
rank s i =
    if ltb (hist_at s s.m0) (hist_at s i)
    then record s { m2 = s.m1; m1 = s.m0; m0 = i }
    else if ltb (hist_at s s.m1) (hist_at s i)
    then record s { m2 = s.m1; m1 = i }
    else if ltb (hist_at s s.m2) (hist_at s i)
    then record s { m2 = i }
    else s

unfoldable pub calc_round : Stat → ℕ → Stat
unfolding rank
calc_round s i =
    let s' = rank (record s { sum = (s.sum + hist_at s i) % ulong_mod }) i in
    if ltb 0 (hist_at s' i) then record s' { last = i } else s'

-- `k` rounds are left, the next is `i`.
unfoldable pub calc_loop : ℕ → ℕ → Stat → Stat
calc_loop zero i s = s
calc_loop (suc k) i s = calc_loop k (i + 1) (calc_round s i)

unfoldable pub stat_calc : Stat → Stat
unfolding calc_loop
stat_calc s =
    let s' = calc_loop 128 0 (record s { m0 = 0; m1 = 0; m2 = 0; sum = 0 }) in
    let top = (hist_at s' s'.m0 + hist_at s' s'.m1 + hist_at s' s'.m2) % ulong_mod in
    record s' { control = if top == s'.sum then c_key else c_mouse }

unfoldable pub stat_turncheck : Stat → ℕ → ℕ → ℕ → Bool
stat_turncheck s t0 t1 t2 =
    ((s.m0 == t0) || (s.m0 == t1) || (s.m0 == t2) || (s.m0 == 0))
    && ((s.m1 == t0) || (s.m1 == t1) || (s.m1 == t2) || (s.m1 == 0))
    && ((s.m2 == t0) || (s.m2 == t1) || (s.m2 == t2) || (s.m2 == 0))
