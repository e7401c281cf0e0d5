-- ===== src/Dem/Edit/Laws.antt =====
-- src/udem.c: the loop of `DEM_block_edit` that starts over after each message is a filter.
use lmpc.Base.{
  ℕ, zero, suc, ◌<◌, ◌≡◌, ◌≢◌, refl, ap, ◌∙◌, sym, Bool, true, false, Option, none, some, arith,
  Option-cases, if◌then◌else◌, List, [], ◌∷◌, ◌↔◌, ==_iff, inl, inr,
}
use native.Mathlib.Decide.{ℕ_discrete}
use lmpc.Base.Text.{codes}
use lmpc.Base.Result.{ok}
use lmpc.Node.{Node, Nodes, nil, cons, chain_of, type_of}
use lmpc.Node.Chain.{node_unlink, node_count_next, node_add_down}
use lmpc.Dem.Token.{Numbering, token_track, token_stufftext}
use lmpc.Dem.Edit.{
  done, is_reconnect, find_reconnect, fix_multi, dem_block_edit, behind, same, argument_text,
}

same_iff : (a b : List ℕ) → (same a b ≡ true) ↔ (a ≡ b)
same_iff [] [] = ((λ h. refl), (λ h. refl))
same_iff [] (d ∷ ds) = ((λ h. cc), (λ h. cc))
same_iff (c ∷ cs) [] = ((λ h. cc), (λ h. cc))
same_iff (c ∷ cs) (d ∷ ds) =
    ((λ h. ground (arith, (same_iff cs ds).0)), (λ h. ground (arith, (same_iff cs ds).1)))

module _ (N : Numbering) where
  -- A stufftext has an argument that is a string; a message of "reconnect" is a stufftext with this
  -- line.
  abbrev HasText : Node → Type 0
  HasText n =
      type_of n ≡ N.number token_stufftext → (s : List ℕ) × (argument_text (chain_of n) ≡ some s)

  abbrev pub HaveText : Nodes → Type 0
  HaveText nil = Unit
  HaveText (cons n ns) = HasText n × HaveText ns

  abbrev pub IsReconnect : Node → Type 0
  IsReconnect n =
      (type_of n ≡ N.number token_stufftext)
      × (argument_text (chain_of n) ≡ some (codes "reconnect\n"))

  -- The second chain is the first without the messages of "reconnect", in its order.
  pub data Without : Nodes → Nodes → Type 0 where
    nothing : Without nil nil
    drops : {n : Node} {ns ms : Nodes} → IsReconnect n → Without ns ms → Without (cons n ns) ms
    keeps :
        {n : Node} {ns ms : Nodes}
        → ¬ IsReconnect n
        → Without ns ms
        → Without (cons n ns) (cons n ms)

  -- The verdict on a message by its type and its text.
  is_reconnect-stufftext :
      (n : Node)
      → type_of n ≡ N.number token_stufftext
      → is_reconnect N n ≡ (elim (argument_text (chain_of n)) [
        | none ↦ none
        | some s ↦ some (same (codes "reconnect\n") s)
      ])
  unfolding is_reconnect
  is_reconnect-stufftext n t = rw ((==_iff _ _).1 t, is_reconnect) refl

  is_reconnect-other :
      (n : Node) → type_of n ≢ N.number token_stufftext → is_reconnect N n ≡ some false
  unfolding is_reconnect
  is_reconnect-other n t = ground arith

  data Verdict (n : Node) : Type 0 where
    other : is_reconnect N n ≡ some false → type_of n ≢ N.number token_stufftext → Verdict n
    textless : type_of n ≡ N.number token_stufftext → argument_text (chain_of n) ≡ none → Verdict n
    says :
        (s : List ℕ)
        → is_reconnect N n ≡ some (same (codes "reconnect\n") s)
        → type_of n ≡ N.number token_stufftext
        → argument_text (chain_of n) ≡ some s
        → Verdict n

  verdict : (n : Node) → Verdict n
  verdict n = elim (ℕ_discrete (type_of n) (N.number token_stufftext)) [
    | no t ↦ other (is_reconnect-other n t) t
    | yes t ↦ elim (Option-cases (argument_text (chain_of n))) [
      | inl e ↦ textless t e
      | inr (s, e) ↦ says s (rw e at (is_reconnect-stufftext n t)) t e
    ]
  ]

  is_reconnect-IsReconnect : (n : Node) → is_reconnect N n ≡ some true → IsReconnect n
  is_reconnect-IsReconnect n e = elim (verdict n) [
    | other f t ↦ cc
    | textless t a ↦ cc (rw a at (is_reconnect-stufftext n t))
    | says s v t a ↦ (t, a ∙ ap some (sym ((same_iff (codes "reconnect\n") s).0 (cc))))
  ]

  is_reconnect-not : (n : Node) → is_reconnect N n ≡ some false → ¬ IsReconnect n
  is_reconnect-not n e (t, a) =
      let yes' = rw a at (is_reconnect-stufftext n t) in
      cc ((same_iff (codes "reconnect\n") (codes "reconnect\n")).1 refl)

  HasText-Readable : (n : Node) → HasText n → is_reconnect N n ≢ none
  HasText-Readable n h e = elim (verdict n) [
    | other f t ↦ cc
    | textless t a ↦ cc (h t).1
    | says s v t a ↦ cc
  ]

module _ (N : Numbering) where
  -- Every stufftext of the chain has its text.
  abbrev Readable : Nodes → Type 0
  Readable nil = Unit
  Readable (cons n ns) = (is_reconnect N n ≢ none) × Readable ns

  -- The messages that stay, in their order.
  abbrev keep : Option Bool → Node → Nodes → Nodes
  keep (some true) n ns = ns
  keep (some false) n ns = cons n ns
  keep none n ns = cons n ns

  without_reconnect : Nodes → Nodes
  without_reconnect nil = nil
  without_reconnect (cons n ns) = keep (is_reconnect N n) n (without_reconnect ns)

  -- A Scan-all that finds nothing, or the place of a message to unlink.
  data Scan (ns : Nodes) : Type 0 where
    clean : find_reconnect N ns ≡ some none → without_reconnect ns ≡ ns → Scan ns
    hit :
        (k : ℕ) (rest : Nodes) (n : Node)
        → find_reconnect N ns ≡ some (some k)
        → node_unlink ns k ≡ ok (rest, n)
        → without_reconnect rest ≡ without_reconnect ns
        → node_count_next ns ≡ suc (node_count_next rest)
        → Readable rest
        → Scan ns

  Scan-cons :
      (n : Node) (ns : Nodes) (o : Option Bool)
      → is_reconnect N n ≡ o
      → o ≢ none
      → Readable ns
      → Scan ns
      → Scan (cons n ns)
  unfolding find_reconnect without_reconnect node_unlink node_count_next
  Scan-cons n ns none e some_ r s = absurd (some_ refl)
  Scan-cons n ns (some true) e some_ r s =
      hit 0 ns n (rw (e, find_reconnect)) refl (rw (e, without_reconnect)) refl r
  Scan-cons n ns (some false) e some_ r (clean found same) =
      clean (rw (e, find_reconnect) (ap behind found))
        (rw (e, without_reconnect) (ap (cons n) same))
  Scan-cons n ns (some false) e some_ r (hit k rest m found cut same less ok') =
      hit (suc k) (cons n rest) m (rw (e, find_reconnect) (ap behind found)) (rw (cut, node_unlink))
        (rw (e, without_reconnect) (ap (cons n) same)) (omega (arith, less))
        ((λ z. some_ (sym e ∙ z)), ok')

  Scan-all : (ns : Nodes) → Readable ns → Scan ns
  unfolding find_reconnect without_reconnect
  Scan-all nil r = clean refl refl
  Scan-all (cons n ns) (h, r) = Scan-cons n ns (is_reconnect N n) refl h r (Scan-all ns r)

  HaveText-Readable : (ns : Nodes) → HaveText N ns → Readable ns
  HaveText-Readable nil h = tt
  HaveText-Readable (cons n ns) (h, hs) = (HasText-Readable N n h, HaveText-Readable ns hs)

  Without-cons :
      (n : Node) (ns : Nodes) (o : Option Bool)
      → is_reconnect N n ≡ o
      → is_reconnect N n ≢ none
      → Without N ns (without_reconnect ns)
      → Without N (cons n ns) (keep o n (without_reconnect ns))
  Without-cons n ns none e h w = absurd (h e)
  Without-cons n ns (some true) e h w = drops (is_reconnect-IsReconnect N n e) w
  Without-cons n ns (some false) e h w = keeps (is_reconnect-not N n e) w

  fix_multi-filters :
      (fuel : ℕ) (ns : Nodes)
      → Readable ns
      → node_count_next ns < fuel
      → fix_multi N fuel ns ≡ done (without_reconnect ns)
  unfolding fix_multi
  fix_multi-filters zero ns r h = elim h [ ]
  fix_multi-filters (suc fuel) ns r h = elim (Scan-all ns r) [
    | clean found same ↦ rw (found, fix_multi) (ap done (sym same))
    | hit k rest n found cut same less r' ↦
        rw (found, fix_multi)
          (rw cut (fix_multi-filters fuel rest r' (omega (arith, less)) ∙ ap done same))
  ]

  without_reconnect-Without : (ns : Nodes) → Readable ns → Without N ns (without_reconnect ns)
  unfolding without_reconnect
  without_reconnect-Without nil r = nothing
  without_reconnect-Without (cons n ns) (h, r) =
      Without-cons n ns (is_reconnect N n) refl h (without_reconnect-Without ns r)

  -- With fuel above the number of messages, and where every stufftext of the block has its text, the
  -- edit of a block that is no track ends: with the option, the messages below it are those that were
  -- there in their order, but for the stufftexts of "reconnect\n", of which none is left; without the
  -- option the block stays.
  pub dem_block_edit-Without :
      (fuel : ℕ) (op_fix_multi : Bool) (n : Node)
      → type_of n ≢ N.number token_track
      → HaveText N (chain_of n)
      → node_count_next (chain_of n) < fuel
      → (rest : Nodes) × Without N (chain_of n) rest
        × (dem_block_edit N fuel op_fix_multi n
            ≡ done (if op_fix_multi then node_add_down n rest else n))
  unfolding dem_block_edit
  dem_block_edit-Without fuel true n t h few =
      let r = HaveText-Readable (chain_of n) h in
      (
        without_reconnect (chain_of n),
        without_reconnect-Without (chain_of n) r,
        ground (arith, fix_multi-filters fuel (chain_of n) r few),
      )
  dem_block_edit-Without fuel false n t h few = (
    without_reconnect (chain_of n),
    without_reconnect-Without (chain_of n) (HaveText-Readable (chain_of n) h),
    ground arith,
  )
