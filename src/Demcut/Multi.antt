-- ===== src/Demcut/Multi.antt =====
-- src/demcut.c: the command that gathers names and colours from a range of frames.
use lmpc.Base.{
  ℕ, zero, suc, ◌+◌, ◌-◌, true, false, List, [], ◌∷◌, ◌++◌, Option, none, some, length, leb, ◌≡◌,
  sym, refl, ap, ◌∙◌, arith, ◌<◌, ◌≤◌, Bool-cases, inl, inr, All, get_elem?,
}
use mathlib.Core.Path.{subst}
use lmpc.Base.Int.{ℤ, pos, negsuc, ◌+ℤ◌}
use lmpc.Demcut.State.{
  Real, Message, camera, time, signonnum, disconnect, updatename, updatecolors, other, Frame,
  Demfile, State, current_demfile, frame_at, c_multi, subject,
}
use lmpc.Demcut.Output.{eq_ℤ, print, do_write_frame}
use lmpc.Demcut.Command.{Command}
use lmpc.Demcut.Dispatch.{
  direction, distance, gather, multi_messages, then_print, write_multi, do_command,
}
use lmpc.Demcut.Film.{tape, shot, print-tape, do_write_frame-tape}
use lmpc.Demcut.Loop.{ascending, descending, between, Walk, get_elem?-some}
use lmpc.Demcut.Cut.{route, stop_running_range_lem}

-- The numbers of a list are not `after`.
abbrev Before : ℤ → List ℕ → Type 0
Before after is = All (λ k. eq_ℤ (pos k) after ≡ false) is

ascending-Before : (k i m : ℕ) → k + i ≤ m → Before (pos m +ℤ pos 1) (ascending k i)
unfolding ◌+ℤ◌
ascending-Before zero i m h = (ground arith, tt)
ascending-Before (suc k) i m h = (ground arith, ascending-Before k (suc i) m (omega arith))

descending-Before : (k i m : ℕ) → m ≤ i → Before (pos m +ℤ negsuc 0) (descending k i)
unfolding ◌+ℤ◌
descending-Before zero i m h = (ground arith, tt)
descending-Before (suc k) i m h = (ground arith, descending-Before k i m h)

between-Before : (i j : ℕ) → Before (pos j +ℤ direction (pos i) (pos j)) (between i j)
between-Before i j = elim (Bool-cases (leb i j)) [
  | inl e ↦
      let dir : direction (pos i) (pos j) ≡ pos 1 = ground arith in
      rw (dir, e) (ascending-Before (j - i) i j (ground arith))
  | inr e ↦
      let dir : direction (pos i) (pos j) ≡ negsuc 0 = ground arith in
      rw (dir, e) (descending-Before (i - j) j j (omega arith))
]

eq_self : (z : ℤ) → eq_ℤ z z ≡ true
eq_self (pos n) = ground arith
eq_self (negsuc n) = ground arith

module _ {F : Type 0} where
  -- The messages that set the name or the colours of a player.
  abbrev pub told : List (Message F) → List (Message F)
  told [] = []
  told (updatename n t ∷ ms) = updatename n t ∷ told ms
  told (updatecolors n c ∷ ms) = updatecolors n c ∷ told ms
  told (camera x y z ∷ ms) = told ms
  told (time t ∷ ms) = told ms
  told (signonnum n ∷ ms) = told ms
  told (disconnect ∷ ms) = told ms
  told (other n ∷ ms) = told ms

  multi_messages-told : (ms : List (Message F)) → multi_messages ms ≡ told ms
  unfolding multi_messages
  multi_messages-told [] = refl
  multi_messages-told (updatename n t ∷ ms) = ap (λ l. updatename n t ∷ l) (multi_messages-told ms)
  multi_messages-told (updatecolors n c ∷ ms) =
      ap (λ l. updatecolors n c ∷ l) (multi_messages-told ms)
  multi_messages-told (camera x y z ∷ ms) = multi_messages-told ms
  multi_messages-told (time t ∷ ms) = multi_messages-told ms
  multi_messages-told (signonnum n ∷ ms) = multi_messages-told ms
  multi_messages-told (disconnect ∷ ms) = multi_messages-told ms
  multi_messages-told (other n ∷ ms) = multi_messages-told ms

  -- `prepare_demfile` marks every frame that has a message of the two kinds.
  abbrev pub Marked : Demfile F → Type 0
  Marked d =
      (k : ℕ) (f : Frame F)
      → get_elem? d.frames k ≡ some f
      → f.multientry ≡ false
      → told f.block ≡ []

  -- The names and colours of the frames of a list, in order.
  abbrev pub names_and_colours : Demfile F → List ℕ → List (Message F)
  names_and_colours d [] = []
  names_and_colours d (i ∷ is) =
      let rest = names_and_colours d is in
      elim (get_elem? d.frames i) [ none ↦ rest | some f ↦ told f.block ++ rest ]

  names_cons :
      (d : Demfile F) (i : ℕ) (is : List ℕ) (f : Frame F)
      → get_elem? d.frames i ≡ some f
      → some (told f.block ++ names_and_colours d is) ≡ some (names_and_colours d (i ∷ is))
  names_cons d i is f g = rw (g, names_and_colours)

  gather_step :
      (k : ℕ) (d : Demfile F) (i : ℕ) (dir after : ℤ) (f : Frame F) (ms : List (Message F))
      → Marked d
      → eq_ℤ (pos i) after ≡ false
      → get_elem? d.frames i ≡ some f
      → gather k d (pos i +ℤ dir) dir after ≡ some ms
      → gather (suc k) d (pos i) dir after ≡ some (told f.block ++ ms)
  unfolding gather frame_at
  gather_step k d i dir after f ms marked ne g rest = elim (Bool-cases f.multientry) [
    | inl e ↦ rw (ne, g, rest, e, gather, multi_messages-told f.block)
    | inr e ↦ rw (ne, g, rest, e, gather, marked i f g e)
  ]

  gather_end : (k : ℕ) (d : Demfile F) (dir after : ℤ) → gather (suc k) d after dir after ≡ some []
  unfolding gather
  gather_end k d dir after = rw (eq_self after, gather)

  gather-Walk :
      (d : Demfile F) (dir : ℤ) (e i : ℕ) (is : List ℕ)
      → Marked d
      → Walk dir e (i ∷ is)
      → All (λ k. k < length d.frames) (i ∷ is)
      → Before (pos e +ℤ dir) (i ∷ is)
      → gather (suc (suc (length is))) d (pos i) dir (pos e +ℤ dir)
        ≡ some (names_and_colours d (i ∷ is))
  gather-Walk d dir e i [] marked w (l, _) (ne, _) =
      let (f, g) = get_elem?-some d.frames i l in
      gather_step 1 d i dir (pos e +ℤ dir) f [] marked ne g (
        ap (λ z. gather 1 d (pos z +ℤ dir) dir (pos e +ℤ dir)) w
        ∙ gather_end 0 d dir (pos e +ℤ dir))
      ∙ names_cons d i [] f g
  gather-Walk d dir e i (j ∷ js) marked (ni, hj, w) (l, al) (ne, nb) =
      let (f, g) = get_elem?-some d.frames i l in
      gather_step (suc (suc (length js))) d i dir (pos e +ℤ dir) f (names_and_colours d (j ∷ js))
        marked ne g
        (ap (λ z. gather (suc (suc (length js))) d z dir (pos e +ℤ dir)) hj
          ∙ gather-Walk d dir e j js marked w al nb)
      ∙ names_cons d i (j ∷ js) f g

  abbrev pub multi_command : (i j : ℕ) → F → List ℕ → Command F
  multi_command i j f w = record {
    code = c_multi;
    argi1 = pos i;
    argi2 = pos j;
    argf = f;
    args = w;
    to_do = true;
  }

  gather-between :
      (d : Demfile F) (i j : ℕ)
      → Marked d
      → i < length d.frames
      → j < length d.frames
      → gather
          (suc (suc (distance (pos i) (pos j))))
          d
          (pos i)
          (direction (pos i) (pos j))
          (pos j +ℤ direction (pos i) (pos j))
        ≡ some (names_and_colours d (between i j))
  gather-between d i j marked li lj =
      let (is, e, l, w, al) = route (length d.frames) i j li lj in
      let dir = direction (pos i) (pos j) in
      let before = subst (Before (pos j +ℤ dir)) e (between-Before i j) in
      ap (λ z. gather (suc (suc z)) d (pos i) dir (pos j +ℤ dir)) (sym l)
      ∙ gather-Walk d dir j i is marked w al before
      ∙ ap (λ z. some (names_and_colours d z)) (sym e)

  module _ (R : Real F) (prepare_demfile : List ℕ → Option (Demfile F)) (now : F) where
    write_multi-lem :
        (d : Demfile F) (i j : ℕ) (s : State F) {ms : List (Message F)}
        → current_demfile s ≡ some d
        → gather
            (suc (suc (distance (pos i) (pos j))))
            d
            (pos i)
            (direction (pos i) (pos j))
            (pos j +ℤ direction (pos i) (pos j))
          ≡ some ms
        → write_multi R prepare_demfile now (pos i) (pos j) s
          ≡ some (
              do_write_frame R
                (camera s.a1 s.a2 s.a3 ∷ ms)
                (record s { multi_start = pos i; multi_end = pos j }))
    write_multi-lem d i j s hd g = rw (hd, write_multi, g)

    multi_runs :
        (d : Demfile F) (i j : ℕ) (f : F) (w : List ℕ) (s : State F)
        → Marked d
        → current_demfile s ≡ some d
        → i < length d.frames
        → j < length d.frames
        → s.range_running ≡ pos 0
        → do_command R prepare_demfile now (multi_command i j f w) s
          ≡ some (
              print (subject c_multi) (
                do_write_frame R
                  (camera s.a1 s.a2 s.a3 ∷ names_and_colours d (between i j))
                  (record s { multi_start = pos i; multi_end = pos j })))
    unfolding do_command
    multi_runs d i j f w s marked hd li lj hr =
        ap
          (λ z.
            then_print R prepare_demfile now c_multi
              (write_multi R prepare_demfile now (pos i) (pos j) z))
          (stop_running_range_lem R prepare_demfile now s hr)
        ∙ ap (then_print R prepare_demfile now c_multi)
            (write_multi-lem d i j s hd (gather-between d i j marked li lj))

    -- With no range running, the multi command for two frames of the current file, whose frames are
    -- marked as prepare_demfile marks them, puts one block behind the output: the camera that is
    -- remembered and behind it every name and colour message of the frames from the first to the
    -- second, in their order, and nothing else; nothing is put out if there is no such message. The
    -- time of the output stays.
    pub do_command-multi :
        (d : Demfile F) (i j : ℕ) (f : F) (w : List ℕ) (s : State F)
        → Marked d
        → current_demfile s ≡ some d
        → i < length d.frames
        → j < length d.frames
        → s.range_running ≡ pos 0
        → (s' : State F) × (do_command R prepare_demfile now (multi_command i j f w) s ≡ some s')
          × (tape s' ≡ record (tape s) {
            output = s.output ++ shot (camera s.a1 s.a2 s.a3 ∷ names_and_colours d (between i j));
          })
    do_command-multi d i j f w s marked hd li lj hr =
        let ms = camera s.a1 s.a2 s.a3 ∷ names_and_colours d (between i j) in
        let start = record s { multi_start = pos i; multi_end = pos j } in
        (
          print (subject c_multi) (do_write_frame R ms start),
          multi_runs d i j f w s marked hd li lj hr,
          print-tape R (subject c_multi) (do_write_frame R ms start)
              ∙ do_write_frame-tape R ms start,
        )
