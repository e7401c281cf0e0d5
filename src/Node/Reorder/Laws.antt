-- ===== src/Node/Reorder/Laws.antt =====
-- src/node.c, `node_down_reorder`: no node is lost or copied, and the result follows the description.
use mathlib.Core.List.{Perm, perm_middle, perm_append_comm, append-nil, append_assoc}
use mathlib.Core.Path.{subst}
use mathlib.Core.List.Perm
use mathlib.Core.List as Lib
use native.Mathlib.Bridge.{from_ℕ}
use lmpc.Base.{
  suc, ◌≤◌, ◌≡◌, refl, sym, ap, ◌∙◌, Bool, true, false, not, ◌&&◌, List, [], ◌∷◌, ◌++◌, ◌==◌,
  length, All, arith, Bool-cases, inl, inr, if◌then◌else◌, ltb, ==_iff,
}
use lmpc.Base.Result.{Error, ok, ◌>>◌, fail_if, >>=-passes}
use lmpc.Node.{Node, Nodes, node, type_of, chain_of, to_list, of_list}
use lmpc.Node.Chain.{node_add_down}
use lmpc.Node.Reorder.{Rule, Slot, take_matching, is_empty, reorder_loop, unused, node_down_reorder}

abbrev used_nodes : List Slot → List Node
used_nodes [] = []
used_nodes ((n, true) ∷ slots) = n ∷ used_nodes slots
used_nodes ((n, false) ∷ slots) = used_nodes slots

abbrev nodes_of : List Slot → List Node
nodes_of [] = []
nodes_of ((n, u) ∷ slots) = n ∷ nodes_of slots

take_matching-nodes_of :
    (r : Rule) (slots : List Slot) → nodes_of (take_matching r slots).1 ≡ nodes_of slots
unfolding take_matching
take_matching-nodes_of r [] = refl
take_matching-nodes_of r ((n, u) ∷ slots) = ground (arith, take_matching-nodes_of r slots)

-- What a description takes is what it marks as used.
take_matching-perm :
    (r : Rule) (slots : List Slot)
    → Perm ((take_matching r slots).0 ++ used_nodes slots) (used_nodes (take_matching r slots).1)
unfolding take_matching
take_matching-perm r [] = Perm.refl []
take_matching-perm r ((n, true) ∷ slots) =
    Perm.trans (perm_middle (take_matching r slots).0 (used_nodes slots))
      (Perm.cons n (take_matching-perm r slots))
take_matching-perm r ((n, false) ∷ slots) = elim (Bool-cases (r.type == type_of n)) [
  | inr e ↦ rw e (take_matching-perm r slots)
  | inl e ↦ rw e (elim (Bool-cases r.multiple) [
    | inl many ↦ rw many (Perm.cons n (take_matching-perm r slots))
    | inr one ↦ rw one (Perm.refl (n ∷ used_nodes slots))
  ])
]

take_matching-types :
    (r : Rule) (slots : List Slot) → All (λ n. type_of n ≡ r.type) (take_matching r slots).0
unfolding take_matching
take_matching-types r [] = tt
take_matching-types r ((n, true) ∷ slots) = take_matching-types r slots
take_matching-types r ((n, false) ∷ slots) = elim (Bool-cases (r.type == type_of n)) [
  | inr e ↦ rw e (take_matching-types r slots)
  | inl e ↦ rw e (elim (Bool-cases r.multiple) [
    | inl many ↦ rw many (sym ((==_iff _ _).0 e), take_matching-types r slots)
    | inr one ↦ rw one (sym ((==_iff _ _).0 e), tt)
  ])
]

take_matching_single :
    (r : Rule) (slots : List Slot) → r.multiple ≡ false → length (take_matching r slots).0 ≤ 1
unfolding take_matching
take_matching_single r [] h = omega arith
take_matching_single r ((n, u) ∷ slots) h = ground (arith, take_matching_single r slots h)

-- A chain follows a description: it is a row of groups, one for each description in turn, each of
-- the description's type, of one node at most unless it allows more, and of one at least if it is
-- obligatory.
pub data Follows : List Rule → List Node → Type 0 where
  done : Follows [] []
  group :
      (r : Rule) (g : List Node) {co : List Rule} {ns : List Node}
      → All (λ n. type_of n ≡ r.type) g
      → (r.multiple ≡ false → length g ≤ 1)
      → (r.obligatory ≡ true → 1 ≤ length g)
      → Follows co ns
      → Follows (r ∷ co) (g ++ ns)

reorder_loop_step :
    (r : Rule) (co : List Rule) (slots : List Slot) (order final : List Node)
    → reorder_loop (r ∷ co) slots order ≡ ok final
    → (is_empty (take_matching r slots).0 && r.obligatory ≡ false)
      × (reorder_loop co (take_matching r slots).1 (order ++ (take_matching r slots).0) ≡ ok final)
unfolding reorder_loop
reorder_loop_step r co slots order final h = ground arith

not_empty : (g : List Node) (b : Bool) → is_empty g && b ≡ false → b ≡ true → 1 ≤ length g
not_empty [] b h e = cc
not_empty (n ∷ g) b h e = omega arith

reorder_loop-nil :
    (slots : List Slot) {order final : List Node}
    → reorder_loop [] slots order ≡ ok final
    → order ≡ final
unfolding reorder_loop
reorder_loop-nil slots h = cc

reorder_loop-Follows :
    (co : List Rule) (slots : List Slot) (order final : List Node)
    → reorder_loop co slots order ≡ ok final
    → (ns : List Node) × (final ≡ order ++ ns) × Follows co ns
reorder_loop-Follows [] slots order final h =
    ([], unfold reorder_loop in cc (append-nil order), done)
reorder_loop-Follows (r ∷ co) slots order final h =
    let g = (take_matching r slots).0 in
    let (some_left, more) = reorder_loop_step r co slots order final h in
    let (ns, e, follows) =
      reorder_loop-Follows co (take_matching r slots).1 (order ++ g) final more in
    (
      g ++ ns,
      e ∙ append_assoc order g ns,
      group r g (take_matching-types r slots) (take_matching_single r slots)
          (not_empty g r.obligatory some_left) follows,
    )

reorder_loop-perm :
    (co : List Rule) (slots : List Slot) (order final : List Node)
    → reorder_loop co slots order ≡ ok final
    → Perm order (used_nodes slots)
    → (slots' : List Slot) × (nodes_of slots' ≡ nodes_of slots) × Perm final (used_nodes slots')
reorder_loop-perm [] slots order final h p =
    (slots, refl, subst (λ l. Perm l (used_nodes slots)) (reorder_loop-nil slots h) p)
reorder_loop-perm (r ∷ co) slots order final h p =
    let g = (take_matching r slots).0 in
    let (slots', same, q) =
      reorder_loop-perm co (take_matching r slots).1 (order ++ g) final
        (reorder_loop_step r co slots order final h).1
        (Perm.trans (perm_append_comm order g)
          (Perm.trans (Perm.append_left g p) (take_matching-perm r slots))) in
    (slots', same ∙ take_matching-nodes_of r slots, q)

length-from_ℕ : (l : List Node) → from_ℕ (Lib.length l) ≡ length l
length-from_ℕ [] = refl
length-from_ℕ (n ∷ l) = ap suc (length-from_ℕ l)

length-perm : {l l' : List Node} → Perm l l' → length l ≡ length l'
length-perm {l} {l'} p = sym (length-from_ℕ l) ∙ ap from_ℕ (Perm.length-eq p) ∙ length-from_ℕ l'

length-used_nodes : (slots : List Slot) → length (used_nodes slots) ≤ length (nodes_of slots)
length-used_nodes [] = omega arith
length-used_nodes ((n, true) ∷ slots) = omega (arith, length-used_nodes slots)
length-used_nodes ((n, false) ∷ slots) = omega (arith, length-used_nodes slots)

all_used :
    (slots : List Slot)
    → length (used_nodes slots) ≡ length (nodes_of slots)
    → used_nodes slots ≡ nodes_of slots
all_used [] h = refl
all_used ((n, true) ∷ slots) h = ap (λ l. n ∷ l) (all_used slots (omega arith))
all_used ((n, false) ∷ slots) h = absurd (omega (arith, length-used_nodes slots))

unused-nodes_of : (ns : List Node) → nodes_of (unused ns) ≡ ns
unused-nodes_of [] = refl
unused-nodes_of (n ∷ ns) = ap (λ l. n ∷ l) (unused-nodes_of ns)

unused-used_nodes : (ns : List Node) → used_nodes (unused ns) ≡ []
unused-used_nodes [] = refl
unused-used_nodes (n ∷ ns) = unused-used_nodes ns

to_list-of_list : (ns : List Node) → to_list (of_list ns) ≡ ns
to_list-of_list [] = refl
to_list-of_list (n ∷ ns) = ap (λ l. n ∷ l) (to_list-of_list ns)

chain_of-add_down : (m : Node) (ns : Nodes) → chain_of (node_add_down m ns) ≡ ns
unfolding node_add_down
chain_of-add_down (node t h c d p) ns = refl

nil_of_length : (ns : List Node) → ltb 0 (length ns) ≡ false → ns ≡ []
nil_of_length [] h = refl
nil_of_length (n ∷ ns) h = absurd (ground arith)

finish :
    (m m' : Node) (down order : List Node)
    → down ≡ to_list (chain_of m)
    → (fail_if (not (length down == length order)) Error.syntax
        >> ok (if ltb 0 (length down) then node_add_down m (of_list order) else m))
      ≡ ok m'
    → (length down ≡ length order) × (to_list (chain_of m') ≡ order)
finish m m' down order e h = elim (Bool-cases (length down == length order)) [
  | inr bad ↦ absurd (ground arith)
  | inl same ↦ (
    (==_iff _ _).0 same,
    elim (Bool-cases (ltb 0 (length down))) [
      | inl more ↦
          let made : node_add_down m (of_list order) ≡ m' = ground arith in
          rw (← made, chain_of-add_down) (to_list-of_list order)
      | inr none_left ↦
          let kept : m ≡ m' = ground arith in
          let empty : order ≡ [] = nil_of_length order (ground arith) in
          rw (← kept, ← e, empty) (nil_of_length down none_left)
    ],
  )
]

-- A successful reordering in its parts: the order that the loop found, of as many nodes as there
-- are, is the chain below the result.
node_down_reorder_parts :
    (m : Node) (co : List Rule) (m' : Node)
    → node_down_reorder m co ≡ ok m'
    → (order : List Node) × (reorder_loop co (unused (to_list (chain_of m))) [] ≡ ok order)
      × (length (to_list (chain_of m)) ≡ length order)
      × (to_list (chain_of m') ≡ order)
unfolding node_down_reorder
node_down_reorder_parts m co m' h =
    let down = to_list (chain_of m) in
    let (order, found, rest) = >>=-passes _ (reorder_loop co (unused down) []) h in
    let (same, result) = finish m m' down order refl rest in (order, found, same, result)

-- A successful reordering loses and copies no node: the chain below the result is a permutation of
-- the chain below the node that was given.
pub node_down_reorder-perm :
    (m : Node) (co : List Rule) (m' : Node)
    → node_down_reorder m co ≡ ok m'
    → Perm (to_list (chain_of m')) (to_list (chain_of m))
node_down_reorder-perm m co m' h =
    let down = to_list (chain_of m) in
    let (order, found, same, result) = node_down_reorder_parts m co m' h in
    let (slots, nodes, p) =
      reorder_loop-perm co (unused down) [] order found
        (rw (unused-used_nodes down) (Perm.refl [])) in
    let nodes' : nodes_of slots ≡ down = nodes ∙ unused-nodes_of down in
    let whole : used_nodes slots ≡ nodes_of slots =
      all_used slots (sym (length-perm p) ∙ sym same ∙ ap length (sym nodes')) in
    rw (result, ← nodes', ← whole) p

-- A successful reordering follows the description: below the result stand the groups of its
-- entries in their order, each of the entry's type, with one node at most where the entry does not
-- allow more, and with one at least where it is obligatory.
pub node_down_reorder-Follows :
    (m : Node) (co : List Rule) (m' : Node)
    → node_down_reorder m co ≡ ok m'
    → Follows co (to_list (chain_of m'))
node_down_reorder-Follows m co m' h =
    let (order, found, same, result) = node_down_reorder_parts m co m' h in
    let (ns, e, follows) = reorder_loop-Follows co (unused (to_list (chain_of m))) [] order found in
    rw (result, e) follows
