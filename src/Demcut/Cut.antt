-- ===== src/Demcut/Cut.antt =====
-- src/demcut.c: the command that writes a range of frames.
use lmpc.Base.{
  ℕ, zero, suc, ◌+◌, ◌-◌, Bool, true, false, List, [], ◌∷◌, Option, some, length, leb,
  if◌then◌else◌, ◌≡◌, refl, sym, ap, ◌∙◌, arith, ◌<◌, Bool-cases, inl, inr, All,
}
use mathlib.Core.Path.{subst, subst₂}
use lmpc.Base.Int.{pos, negsuc, ◌-ℤ◌}
use lmpc.Demcut.State.{range_is, Real, Demfile, State, current_demfile, c_range, running_is}
use lmpc.Demcut.Output.{print, nonzero_ℤ, stop_running_range, run_range}
use lmpc.Demcut.Command.{Command}
use lmpc.Demcut.Dispatch.{direction, distance, do_command}
use lmpc.Demcut.Film.{tape, film, print-tape, write_all-tape}
use lmpc.Demcut.Loop.{
  ascending, descending, between, Walk, ascending-Walk, descending-Walk, run_range-Walk, write_all,
  finish,
}

ascending-All : (k i n : ℕ) → k + i < n → All (λ j. j < n) (ascending k i)
ascending-All zero i n h = (omega arith, _)
ascending-All (suc k) i n h = (omega arith, ascending-All k (suc i) n (omega arith))

descending-All : (k i n : ℕ) → k + i < n → All (λ j. j < n) (descending k i)
descending-All zero i n h = (omega arith, _)
descending-All (suc k) i n h = (omega arith, descending-All k i n (omega arith))

-- What the loop needs to know of the frames between two.
abbrev pub Route : (n i j : ℕ) → Type 0
Route n i j =
    (is : List ℕ) × (between i j ≡ i ∷ is)
    × (length is ≡ distance (pos i) (pos j))
    × Walk (direction (pos i) (pos j)) j (i ∷ is)
    × All (λ k. k < n) (i ∷ is)

ascending-cons : (k i : ℕ) → (is : List ℕ) × (ascending k i ≡ i ∷ is) × (length is ≡ k)
ascending-cons zero i = ([], refl, refl)
ascending-cons (suc k) i =
    let (is, e, l) = ascending-cons k (suc i) in (ascending k (suc i), refl, rw (e, l))

descending-cons : (k i : ℕ) → (is : List ℕ) × (descending k i ≡ (k + i) ∷ is) × (length is ≡ k)
descending-cons zero i = ([], ap (λ z. z ∷ []) (omega arith), refl)
descending-cons (suc k) i =
    let (is, e, l) = descending-cons k i in
    (descending k i, ap (λ z. z ∷ descending k i) (omega arith), rw (e, l))

if_false {ℓ} : {A : Type ℓ} (x y : A) (b : Bool) → b ≡ false → (if b then x else y) ≡ y
if_false x y b h = rw h

direction-nonzero : (i j : ℕ) → nonzero_ℤ (direction (pos i) (pos j)) ≡ true
direction-nonzero i j = ground arith

direction_up : (i k : ℕ) → direction (pos i) (pos (k + i)) ≡ pos 1
direction_up i k = ground arith

direction_down : (i k : ℕ) → direction (pos (suc k + i)) (pos i) ≡ negsuc 0
direction_down i k = ground arith

distance_up : (i k : ℕ) → k ≡ distance (pos i) (pos (k + i))
unfolding ◌-ℤ◌
distance_up i k = ground arith

distance_down : (i k : ℕ) → suc k ≡ distance (pos (suc k + i)) (pos i)
unfolding ◌-ℤ◌
distance_down i k = ground arith

between_up : (i k : ℕ) → between i (k + i) ≡ ascending k i
between_up i k =
    let t : leb i (k + i) ≡ true = ground arith in let e : k + i - i ≡ k = omega arith in rw (t, e)

between_down : (i k : ℕ) → between (suc k + i) i ≡ descending (suc k) i
between_down i k =
    let t : leb (suc k + i) i ≡ false = ground arith in
    let e : suc k + i - i ≡ suc k = omega arith in rw (t, e)

Route-up : (n i k : ℕ) → k + i < n → Route n i (k + i)
Route-up n i k h =
    let (is, e, l) = ascending-cons k i in
    (
      is,
      between_up i k ∙ e,
      l ∙ distance_up i k,
      subst₂ (λ z w. Walk z (k + i) w) (sym (direction_up i k)) e (ascending-Walk k i (k + i) refl),
      subst (All (λ k. k < n)) e (ascending-All k i n h),
    )

Route-down : (n i k : ℕ) → suc k + i < n → Route n (suc k + i) i
Route-down n i k h =
    let (is, e, l) = descending-cons (suc k) i in
    (
      is,
      between_down i k ∙ e,
      l ∙ distance_down i k,
      subst₂ (λ z w. Walk z i w) (sym (direction_down i k)) e (descending-Walk (suc k) i),
      subst (All (λ k. k < n)) e (descending-All (suc k) i n h),
    )

pub route : (n i j : ℕ) → i < n → j < n → Route n i j
route n i j hi hj = elim (Bool-cases (leb i j)) [
  | inl e ↦
      let h : (j - i) + i ≡ j = ground arith in
      subst (Route n i) h (Route-up n i (j - i) (omega arith))
  | inr e ↦
      let h : suc (i - j - 1) + j ≡ i = ground arith in
      subst (λ z. Route n z j) h (Route-down n j (i - j - 1) (omega arith))
]

module _ {F : Type 0} where
  abbrev pub selected : (i j : ℕ) → State F → State F
  selected i j s = record s {
    range_start = pos i;
    range_end = pos j;
    range_direction = direction (pos i) (pos j);
    range_running = direction (pos i) (pos j);
    frame = pos i;
  }

  abbrev pub range_command : (i j : ℕ) → F → List ℕ → Command F
  range_command i j f w = record {
    code = c_range;
    argi1 = pos i;
    argi2 = pos j;
    argf = f;
    args = w;
    to_do = true;
  }

module _ {F : Type 0} (R : Real F) (prepare_demfile : List ℕ → Option (Demfile F)) (now : F) where
  pub stop_running_range_lem : (s : State F) → s.range_running ≡ pos 0 → stop_running_range R s ≡ s
  unfolding stop_running_range
  stop_running_range_lem s h = rw h

  do_command-c_range :
      (i j : ℕ) (f : F) (w : List ℕ) (s : State F)
      → s.inter ≡ false
      → s.range_running ≡ pos 0
      → do_command R prepare_demfile now (range_command i j f w) s
        ≡ run_range R (suc (suc (distance (pos i) (pos j)))) now (selected i j s)
  unfolding do_command
  do_command-c_range i j f w s hi hr = rw (stop_running_range_lem s hr) (
      if_false (some (print (running_is (direction (pos i) (pos j))) (selected i j s)))
        (run_range R (suc (suc (distance (pos i) (pos j)))) now (selected i j s)) s.inter hi)

  -- Outside the interactive mode, with no range running, the range command for two frames of the
  -- current file ends: it writes every frame from the first to the second, both included, upwards or
  -- downwards and in this order, then reports the range, does not run any more, and leaves the last
  -- frame selected. Behind the output before come, for each frame, as many copies of its block as the
  -- loop says, with the time of the output in it, which moves on by the length of the frame behind
  -- each; a block with nothing behind its camera is not put out.
  pub do_command-range :
      (d : Demfile F) (i j : ℕ) (f : F) (w : List ℕ) (s : State F)
      → current_demfile s ≡ some d
      → i < length d.frames
      → j < length d.frames
      → s.inter ≡ false
      → s.range_running ≡ pos 0
      → (s' : State F) × (write_all R now (between i j) (selected i j s) ≡ some s')
        × (do_command R prepare_demfile now (range_command i j f w) s ≡ some (finish R now s'))
        × (s'.frame ≡ pos j)
        × (tape (finish R now s') ≡ film R d (between i j) (tape s))
  unfolding current_demfile
  do_command-range d i j f w s hd li lj hi hr =
      let (is, e, l, wk, al) = route (length d.frames) i j li lj in
      let (s', wa, pl, rn) =
        run_range-Walk R now d i j is (selected i j s)
          (hd, refl, refl, hi, direction-nonzero i j, wk, al) in
      (
        s',
        ap (λ z. write_all R now z (selected i j s)) e ∙ wa,
        do_command-c_range i j f w s hi hr
            ∙ ap (λ z. run_range R (suc (suc z)) now (selected i j s)) (sym l)
            ∙ rn,
        ap (λ p. p.frame) pl,
        print-tape R (range_is s'.range_start s'.range_end) (record s' { range_running = pos 0 })
            ∙ write_all-tape R now d (between i j) (selected i j s) s' hd
                (subst (All (λ k. k < length d.frames)) (sym e) al)
                (ap (λ z. write_all R now z (selected i j s)) e ∙ wa),
      )
