-- ===== src/Examples/Tree.antt =====
-- Tests of src/node.c.
use lmpc.Base.{ℕ, true, false, none, some, List, [], ◌∷◌, ◌≡◌, refl, arith}
use lmpc.Base.Int.{pos}
use lmpc.Base.Result.{ok}
use mathlib.Core.List.{Perm}
use lmpc.Node.{Node, Nodes, node, long, chain, nil, cons, chain_of, to_list}
use lmpc.Node.Chain.{node_add_down}
use lmpc.Node.Reorder.{Rule, reorder_loop, take_matching, node_down_reorder}
use lmpc.Node.Reorder.Laws.{Follows, node_down_reorder-perm, node_down_reorder-Follows}
use lmpc.Node.Bitlist.{bitlist_to_nodes, nodes_to_bitlist}
use lmpc.Node.Bitlist.Laws.{nodes_to_bitlist-bitlist_to_nodes}

abbrev leaf : ℕ → Node
leaf t = node t 0 none (long (pos t)) 0

-- Types 2, 1 and 2 again, to be brought into the order 1, 2.
abbrev mixed : Node
mixed = node 5 0 none (chain (cons (leaf 2) (cons (leaf 1) (cons (leaf 2) nil)))) 0

abbrev sorted : Node
sorted = node 5 0 none (chain (cons (leaf 1) (cons (leaf 2) (cons (leaf 2) nil)))) 0

abbrev one_then_many : List Rule
one_then_many =
    record { type = 1; obligatory = true; multiple = false }
    ∷ record { type = 2; obligatory = false; multiple = true }
    ∷ []

node_down_reorder_run : node_down_reorder mixed one_then_many ≡ ok sorted
unfolding node_down_reorder reorder_loop take_matching node_add_down
node_down_reorder_run = refl

node_down_reorder-perm_example : Perm (to_list (chain_of sorted)) (to_list (chain_of mixed))
node_down_reorder-perm_example =
    node_down_reorder-perm mixed one_then_many sorted node_down_reorder_run

node_down_reorder-Follows_example : Follows one_then_many (to_list (chain_of sorted))
node_down_reorder-Follows_example =
    node_down_reorder-Follows mixed one_then_many sorted node_down_reorder_run

nodes_to_bitlist-bitlist_to_nodes_example :
    (ns : Nodes) × (bitlist_to_nodes 0x25 ≡ some ns) × (nodes_to_bitlist 0 ns ≡ some 0x25)
nodes_to_bitlist-bitlist_to_nodes_example = nodes_to_bitlist-bitlist_to_nodes 0x25 (omega arith)
