-- ===== src/Demcut/Loop.antt =====
-- src/demcut.c: a range outside the interactive mode, against the frames that it should write.
use lmpc.Base.{
  ℕ, zero, suc, ◌+◌, ◌-◌, true, false, List, [], ◌∷◌, Option, none, some, length, leb,
  if◌then◌else◌, ◌≡◌, ◌≢◌, refl, sym, ap, ◌∙◌, arith, ◌<◌, Bool-cases, inl, inr, All, get_elem?,
}
use mathlib.Core.Path.{subst}
use lmpc.Base.Int.{ℤ, pos, negsuc, ◌+ℤ◌}
use lmpc.Demcut.State.{Real, Frame, Demfile, State, current_demfile, frame_at, range_is}
use lmpc.Demcut.Output.{eq_ℤ, nonzero_ℤ, print, write_frame, write_next_range_frame, run_range}
use lmpc.Demcut.Range.{Place, place, write_frame-some}

-- i, i + 1, ..., i + k and i + k, ..., i: the frames of a range in the order of their output.
abbrev pub ascending : ℕ → ℕ → List ℕ
ascending zero i = i ∷ []
ascending (suc k) i = i ∷ ascending k (suc i)

abbrev pub descending : ℕ → ℕ → List ℕ
descending zero i = i ∷ []
descending (suc k) i = suc (k + i) ∷ descending k i

abbrev pub between : ℕ → ℕ → List ℕ
between i j = if leb i j then ascending (j - i) i else descending (i - j) j

-- The frames of a list end in `end`, and each is `dir` before the next.
abbrev pub Walk : ℤ → ℕ → List ℕ → Type 0
Walk dir end [] = ⊥
Walk dir end (i ∷ []) = i ≡ end
Walk dir end (i ∷ j ∷ js) = (i ≢ end) × (pos i +ℤ dir ≡ pos j) × Walk dir end (j ∷ js)

pos-suc : (i : ℕ) → pos i +ℤ pos 1 ≡ pos (suc i)
unfolding ◌+ℤ◌
pos-suc i = ground arith

pos-pred : (i : ℕ) → pos (suc i) +ℤ negsuc 0 ≡ pos i
unfolding ◌+ℤ◌
pos-pred i = ground arith

pub ascending-Walk : (k i e : ℕ) → e ≡ k + i → Walk (pos 1) e (ascending k i)
ascending-Walk zero i e h = omega arith
ascending-Walk (suc zero) i e h = ((λ e. omega arith), pos-suc i, omega arith)
ascending-Walk (suc (suc k)) i e h =
    ((λ e. omega arith), pos-suc i, ascending-Walk (suc k) (suc i) e (omega arith))

pub descending-Walk : (k i : ℕ) → Walk (negsuc 0) i (descending k i)
descending-Walk zero i = refl
descending-Walk (suc zero) i = ((λ e. omega arith), pos-pred (0 + i) ∙ ap pos (omega arith), refl)
descending-Walk (suc (suc k)) i =
    ((λ e. omega arith), pos-pred (suc k + i) ∙ ap pos (omega arith), descending-Walk (suc k) i)

pub eq_pos : (e : ℕ) → eq_ℤ (pos e) (pos e) ≡ true
eq_pos e = ground arith

pub get_elem?-some {ℓ} :
    {A : Type ℓ} (xs : List A) (i : ℕ) → i < length xs → (x : A) × (get_elem? xs i ≡ some x)
get_elem?-some [] i h = absurd (omega arith)
get_elem?-some (x ∷ xs) zero h = (x, refl)
get_elem?-some (x ∷ xs) (suc i) h = get_elem?-some xs i (omega arith)

module _ {F : Type 0} (R : Real F) (now : F) where
  -- Each frame of a list is selected and written, one after the other.
  unfoldable pub write_all : List ℕ → State F → Option (State F)
  write_all [] s = some s
  write_all (i ∷ is) s = elim (write_frame R now (record s { frame = pos i })) [
    | none ↦ none
    | some s' ↦ write_all is s'
  ]

  -- The end of a range: it is not running any more, and it is printed.
  abbrev pub finish : State F → State F
  finish s = print (range_is s.range_start s.range_end) (record s { range_running = pos 0 })

  last_frame :
      (e : ℕ) (s s' : State F)
      → write_frame R now s ≡ some s'
      → place s' ≡ place s
      → s.frame ≡ pos e
      → s.range_end ≡ pos e
      → s.inter ≡ false
      → write_next_range_frame R now s ≡ some (finish s')
  unfolding write_next_range_frame
  last_frame e s s' w p he hr hi = rw (
    w,
    write_next_range_frame,
    ap (λ p. p.inter) p,
    hi,
    ap (λ p. p.frame) p,
    he,
    ap (λ p. p.range_end) p,
    hr,
    eq_pos e,
  )

  pub inner_frame :
      (i e : ℕ) (s s' : State F)
      → write_frame R now s ≡ some s'
      → place s' ≡ place s
      → s.frame ≡ pos i
      → s.range_end ≡ pos e
      → i ≢ e
      → write_next_range_frame R now s ≡ some (record s' { frame = s'.frame +ℤ s'.range_direction })
  unfolding write_next_range_frame
  inner_frame i e s s' w p he hr ne =
      rw (w, write_next_range_frame, ap (λ p. p.frame) p, he, ap (λ p. p.range_end) p, hr)
        (ground arith)

  write_all-nil : (s : State F) → write_all [] s ≡ some s
  unfolding write_all
  write_all-nil s = refl

  -- The frame that was selected before does not matter.
  write_all-frame :
      (j : ℕ) (js : List ℕ) (s : State F) (z : ℤ)
      → write_all (j ∷ js) (record s { frame = z }) ≡ write_all (j ∷ js) s
  unfolding write_all
  write_all-frame j js s z = refl

  write_all-cons :
      (i : ℕ) (is : List ℕ) (s s' : State F)
      → write_frame R now s ≡ some s'
      → s.frame ≡ pos i
      → write_all (i ∷ is) s ≡ write_all is s'
  unfolding write_all
  write_all-cons i is s s' w h = rw (sym h, w, write_all)

  run_range-step :
      (k : ℕ) (s s' : State F)
      → nonzero_ℤ s.range_running ≡ true
      → write_next_range_frame R now s ≡ some s'
      → run_range R (suc k) now s ≡ run_range R k now s'
  unfolding run_range
  run_range-step k s s' h w = rw (h, w, run_range)

  run_range-finish : (k : ℕ) (s : State F) → run_range R (suc k) now (finish s) ≡ some (finish s)
  unfolding run_range print
  run_range-finish k s = elim (Bool-cases s.allow_output) [
    | inl e ↦ rw (e, run_range)
    | inr e ↦ rw (e, run_range)
  ]

  -- Everything a loop needs of the state before it.
  abbrev pub Ready : (d : Demfile F) (i e : ℕ) (is : List ℕ) → State F → Type 0
  Ready d i e is s =
      (current_demfile s ≡ some d)
      × (s.frame ≡ pos i)
      × (s.range_end ≡ pos e)
      × (s.inter ≡ false)
      × (nonzero_ℤ s.range_running ≡ true)
      × Walk s.range_direction e (i ∷ is)
      × All (λ j. j < length d.frames) (i ∷ is)

  pub frame_in :
      (d : Demfile F) (i : ℕ) (s : State F)
      → s.frame ≡ pos i
      → i < length d.frames
      → (f : Frame F) × (frame_at d s.frame ≡ some f)
  unfolding frame_at
  frame_in d i s h l = let (f, g) = get_elem?-some d.frames i l in (f, ap (λ z. frame_at d z) h ∙ g)

  next-Ready :
      (d : Demfile F) (i j e : ℕ) (js : List ℕ) (s s' : State F)
      → place s' ≡ place s
      → Ready d i e (j ∷ js) s
      → Ready d j e js (record s' { frame = s'.frame +ℤ s'.range_direction })
  unfolding current_demfile
  next-Ready d i j e js s s' p (h, hf, he, hi, hr, (ne, hj, hw), (hl, ha)) = (
    ap (λ p. get_elem? p.demfiles p.demfile) p ∙ h,
    ap (λ p. p.frame +ℤ p.range_direction) p ∙ ap (λ z. z +ℤ s.range_direction) hf ∙ hj,
    ap (λ p. p.range_end) p ∙ he,
    ap (λ p. p.inter) p ∙ hi,
    ap (λ p. nonzero_ℤ p.range_running) p ∙ hr,
    subst (λ z. Walk z e (j ∷ js)) (sym (ap (λ p. p.range_direction) p)) hw,
    ha,
  )

  pub run_range-Walk :
      (d : Demfile F) (i e : ℕ) (is : List ℕ) (s : State F)
      → Ready d i e is s
      → (s' : State F) × (write_all (i ∷ is) s ≡ some s')
        × (place s' ≡ record (place s) { frame = pos e })
        × (run_range R (suc (suc (length is))) now s ≡ some (finish s'))
  run_range-Walk d i e [] s (h, hf, he, hi, hr, hw, (hl, _)) =
      let (f, g) = frame_in d i s hf hl in
      let (s', w, p) = write_frame-some R now d f s h g in
      (
        s',
        write_all-cons i [] s s' w hf ∙ write_all-nil s',
        p ∙ ap (λ z. record (place s) { frame = z }) (hf ∙ ap pos hw),
        run_range-step 1 s (finish s') hr (last_frame e s s' w p (hf ∙ ap pos hw) he hi)
            ∙ run_range-finish 0 s',
      )
  run_range-Walk d i e (j ∷ js) s (h, hf, he, hi, hr, (ne, hj, hw), (hl, ha)) =
      let (f, g) = frame_in d i s hf hl in
      let (s', w, p) = write_frame-some R now d f s h g in
      let s1 = record s' { frame = s'.frame +ℤ s'.range_direction } in
      let ready = next-Ready d i j e js s s' p (h, hf, he, hi, hr, (ne, hj, hw), (hl, ha)) in
      let (s'', wa, pl, rn) = run_range-Walk d j e js s1 ready in
      (
        s'',
        write_all-cons i (j ∷ js) s s' w hf ∙ write_all-frame j js s1 s'.frame ∙ wa,
        pl ∙ ap {A = Place F} (λ z. record z { frame = pos e }) p,
        run_range-step (suc (suc (length js))) s s1 hr (inner_frame i e s s' w p hf he ne) ∙ rn,
      )
