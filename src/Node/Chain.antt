-- ===== src/Node/Chain.antt =====
-- src/node.c: making nodes, linking chains, and the loops that set a field along a chain.
pub mod Laws
use lmpc.Base.{ℕ, zero, suc, ◌+◌, Option, none, some, List, nonzero, if◌then◌else◌}
use lmpc.Base.Result.{Result, Error, ok, err, ◌>>=◌}
use lmpc.Node.{Node, Down, Nodes, node, chain, nil, cons}

abbrev pub node_init : ℕ → Down → ℕ → Nodes
node_init type down pos = cons (node type 0 none down pos) nil

abbrev pub node_init_all : ℕ → ℕ → Down → ℕ → Nodes
node_init_all type hint down pos =
    if nonzero hint then cons (node type hint none down pos) nil else node_init type down pos

-- The loop runs to the last node. `n` is not NULL: the source would read through it, and `none`
-- stands for that.
abbrev pub node_add_next : Nodes → Nodes → Option Nodes
node_add_next nil next = none
node_add_next (cons n nil) next = some (cons n next)
node_add_next (cons n (cons m ns)) next = elim (node_add_next (cons m ns) next) [
  | none ↦ none
  | some r ↦ some (cons n r)
]

abbrev pub node_link : Nodes → Nodes → Option Nodes
node_link nil next = some next
node_link (cons n ns) next = node_add_next (cons n ns) next

unfoldable pub node_combine3 : Nodes → Nodes → Nodes → Option Nodes
node_combine3 n1 n2 n3 = elim (node_add_next n1 n2) [ none ↦ none | some n ↦ node_add_next n n3 ]

abbrev pub node_command_init : ℕ → ℕ → ℕ → Down → ℕ → Nodes
node_command_init type down_type down_hint down_down pos =
    node_init type (chain (cons (node down_type down_hint none down_down pos) nil)) pos

abbrev pub node_triple_command_init : ℕ → ℕ → ℕ → Down → Down → Down → ℕ → Option Nodes
node_triple_command_init type down_type down_hint d0 d1 d2 pos =
    let first = node_init_all down_type down_hint d0 pos in
    let second = node_init_all down_type down_hint d1 pos in
    let third = node_init_all down_type down_hint d2 pos in
    elim (node_add_next second third) [
      | none ↦ none
      | some rest ↦ elim (node_add_next first rest) [
        | none ↦ none
        | some down ↦ some (node_init_all type 0 (chain down) pos)
      ]
    ]

abbrev pub node_fourfold_command_init : ℕ → ℕ → ℕ → Down → Down → Down → Down → ℕ → Option Nodes
node_fourfold_command_init type down_type down_hint d0 d1 d2 d3 pos =
    let first = node_init_all down_type down_hint d0 pos in
    let second = node_init_all down_type down_hint d1 pos in
    let third = node_init_all down_type down_hint d2 pos in
    let fourth = node_init_all down_type down_hint d3 pos in
    elim (node_add_next third fourth) [
      | none ↦ none
      | some rest ↦ elim (node_add_next second rest) [
        | none ↦ none
        | some rest' ↦ elim (node_add_next first rest') [
          | none ↦ none
          | some down ↦ some (node_init_all type 0 (chain down) pos)
        ]
      ]
    ]

-- On the node itself: `down`, `comment`, `hint` and `type` of the first node of a chain.
unfoldable pub node_add_down : Node → Nodes → Node
node_add_down (node t h c d p) down = node t h c (chain down) p

abbrev pub node_add_comment : Node → Option (List ℕ) → Node
node_add_comment (node t h c d p) none = node t h c d p
node_add_comment (node t h c d p) (some comment) = node t h (some comment) d p

abbrev pub node_add_hint : Node → ℕ → Node
node_add_hint (node t h c d p) hint = node t hint c d p

unfoldable pub node_add_type : Node → ℕ → Node
node_add_type (node t h c d p) type = node type h c d p

unfoldable pub node_add_hint_next : Nodes → ℕ → Nodes
node_add_hint_next nil hint = nil
node_add_hint_next (cons n ns) hint = cons (node_add_hint n hint) (node_add_hint_next ns hint)

-- The loop leaves `n` at NULL, which it then returns, beside the chain that it has changed.
unfoldable pub node_add_type_next : Nodes → ℕ → Nodes × Nodes
node_add_type_next nil type = (nil, nil)
node_add_type_next (cons n ns) type =
    let (changed, result) = node_add_type_next ns type in
    (cons (node_add_type n type) changed, result)

unfoldable pub node_count_next : Nodes → ℕ
node_count_next nil = 0
node_count_next (cons n ns) = suc (node_count_next ns)

-- The node to unlink is given by its place in the chain, in place of its address; the result is the
-- rest and the node alone. A node that is not in the chain is an internal error.
unfoldable pub node_unlink : Nodes → ℕ → Result (Nodes × Node)
node_unlink nil k = err Error.dinte
node_unlink (cons n ns) zero = ok (ns, n)
node_unlink (cons n ns) (suc k) = do (rest, m) ← node_unlink ns k; ok (cons n rest, m)
