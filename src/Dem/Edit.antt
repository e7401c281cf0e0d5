-- ===== src/Dem/Edit.antt =====
-- src/udem.c, `DEM_block_edit`: the messages that make a recording of several levels stop are taken
-- out of a block.
pub mod Laws
use lmpc.Base.{
  ℕ, zero, suc, ◌+◌, Bool, true, false, List, [], ◌∷◌, Option, none, some, ◌==◌, if◌then◌else◌,
}
use lmpc.Base.Text.{codes}
use lmpc.Base.Result.{Error, ok, err}
use lmpc.Node.{
  Node, Nodes, Down, node, nil, cons, long, float, text, chain, type_of, down_of, chain_of,
}
use lmpc.Node.Chain.{node_unlink, node_add_down}
use lmpc.Binblock.Text.{until_nul}
use lmpc.Dem.Token.{Numbering, token_track, token_stufftext}

-- What the editor does with a block: it changes it, it follows a pointer to what is not there, the
-- program ends, or it has used up its fuel.
pub data Outcome {ℓ} (A : Type ℓ) : Type ℓ where
  done : A → Outcome A
  crash : Outcome A
  quit : Error → Outcome A
  more : Outcome A

-- `strcmp(a,b)==0`
abbrev pub same : List ℕ → List ℕ → Bool
same [] [] = true
same [] (d ∷ ds) = false
same (c ∷ cs) [] = false
same (c ∷ cs) (d ∷ ds) = if c == d then same cs ds else false

abbrev pub text_of : Down → Option (List ℕ)
text_of (text s) = some (until_nul s)
text_of (long v) = none
text_of (float w) = none
text_of (chain ns) = none

-- `(char*)(ni->down->down)`
abbrev pub argument_text : Nodes → Option (List ℕ)
argument_text nil = none
argument_text (cons a as') = text_of (down_of a)

abbrev pub behind : Option (Option ℕ) → Option (Option ℕ)
behind none = none
behind (some none) = some none
behind (some (some k)) = some (some (suc k))

module _ (N : Numbering) where
  -- Is this the message that must disappear? Only a stufftext has its text read.
  unfoldable pub is_reconnect : Node → Option Bool
  is_reconnect n =
      if type_of n == N.number token_stufftext
      then elim (argument_text (chain_of n)) [
        | none ↦ none
        | some s ↦ some (same (codes "reconnect\n") s)
      ]
      else some false

  -- The place of the first such message in a chain.
  unfoldable pub find_reconnect : Nodes → Option (Option ℕ)
  find_reconnect nil = some none
  find_reconnect (cons n ns) = elim (is_reconnect n) [
    | none ↦ none
    | some true ↦ some (some 0)
    | some false ↦ behind (find_reconnect ns)
  ]

  -- `restart`: a message is unlinked, and the search begins again.
  unfoldable pub fix_multi : ℕ → Nodes → Outcome Nodes
  fix_multi zero ns = more
  fix_multi (suc fuel) ns = elim (find_reconnect ns) [
    | none ↦ crash
    | some none ↦ done ns
    | some (some k) ↦ elim (node_unlink ns k) [
      | err e ↦ quit e
      | ok (rest, n) ↦ fix_multi fuel rest
    ]
  ]

  abbrev with_chain : Node → Outcome Nodes → Outcome Node
  with_chain n (done ns) = done (node_add_down n ns)
  with_chain n crash = crash
  with_chain n (quit e) = quit e
  with_chain n more = more

  -- `op_fix_multi` is the bit opFixMulti of the options.
  unfoldable pub dem_block_edit : ℕ → Bool → Node → Outcome Node
  dem_block_edit fuel op_fix_multi n =
      if type_of n == N.number token_track
      then done n
      else if op_fix_multi
      then with_chain n (fix_multi fuel (chain_of n))
      else done n
