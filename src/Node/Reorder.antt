-- ===== src/Node/Reorder.antt =====
-- src/node.c, `node_down_reorder`: the nodes below a node are brought into the order of a
-- description, each description taking the nodes of its type that are left.
pub mod Laws
use lmpc.Base.{
  ℕ, Bool, true, false, not, ◌&&◌, ◌||◌, List, [], ◌∷◌, ◌++◌, ◌==◌, length, ltb, if◌then◌else◌,
}
use lmpc.Base.Result.{Result, Error, ok, err, ◌>>=◌, ◌>>◌, fail_if}
use lmpc.Node.{Node, Nodes, node, type_of, chain_of, to_list, of_list}
use lmpc.Node.Chain.{node_add_down}

-- node_down_reorder_t
pub record Rule : Type 0 where
  pub type : ℕ
  pub obligatory : Bool
  pub multiple : Bool

-- A node of the array `down_node` with its flag in `used`.
abbrev pub Slot : Type 0
Slot = Node × Bool

-- The loop over `j`: the nodes that one description takes, in order, and the flags after it. A
-- description for one node stops at the first.
unfoldable pub take_matching : Rule → List Slot → List Node × List Slot
take_matching r [] = ([], [])
take_matching r ((n, used) ∷ slots) =
    let (found, rest) = take_matching r slots in
    if used || not (r.type == type_of n)
    then (found, (n, used) ∷ rest)
    else if r.multiple
    then (n ∷ found, (n, true) ∷ rest)
    else (n ∷ [], (n, true) ∷ slots)

abbrev pub is_empty : List Node → Bool
is_empty [] = true
is_empty (n ∷ ns) = false

-- The loop over `i`, with the array `order` as the nodes that it names.
unfoldable pub reorder_loop : List Rule → List Slot → List Node → Result (List Node)
reorder_loop [] slots order = ok order
reorder_loop (r ∷ co) slots order = do
  let found = (take_matching r slots).0
  fail_if (is_empty found && r.obligatory) Error.syntax
  reorder_loop co (take_matching r slots).1 (order ++ found)

abbrev pub unused : List Node → List Slot
unused [] = []
unused (n ∷ ns) = (n, false) ∷ unused ns

unfoldable pub node_down_reorder : Node → List Rule → Result Node
node_down_reorder m co = do
  let down_node = to_list (chain_of m)
  order ← reorder_loop co (unused down_node) []
  fail_if (not (length down_node == length order)) Error.syntax
  ok (if ltb 0 (length down_node) then node_add_down m (of_list order) else m)
