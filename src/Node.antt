-- ===== src/Node.antt =====
-- src/node.c and src/node.h: the tree of nodes in which every demo format is edited.
-- A `node*` of the source stands for the chain from that node on, so it is a `Nodes` here, and NULL
-- is `nil`. What `down` points to is a value or a chain, as the source's type tag says. A tree owns
-- its nodes: no chain is shared, and `malloc` succeeds. A `float` is its bit pattern.
pub mod Chain
pub mod Token
pub mod Reorder
pub mod Bitlist
use lmpc.Base.{
  ℕ, ◌+◌, Option, none, some, List, [], ◌∷◌, suc, ◌==◌, if◌then◌else◌, bit_and, nonzero,
}
use lmpc.Base.Int.{ℤ}

mutual
  -- struct node, less its `next`.
  pub data Node : Type 0 where
    node : (type : ℕ) → (hint : ℕ) → (comment : Option (List ℕ)) → Down → (pos : ℕ) → Node

  pub data Down : Type 0 where
    long : ℤ → Down
    float : ℕ → Down
    text : List ℕ → Down
    chain : Nodes → Down

  pub data Nodes : Type 0 where
    nil : Nodes
    cons : Node → Nodes → Nodes

abbrev pub node_value : ℕ
node_value = 0x2000

abbrev pub v_int : ℕ
v_int = 0x2001

abbrev pub v_bytehex : ℕ
v_bytehex = 0x2002

abbrev pub v_float : ℕ
v_float = 0x2003

abbrev pub v_time : ℕ
v_time = 0x2004

abbrev pub v_string : ℕ
v_string = 0x2005

abbrev pub node_token : ℕ
node_token = 0x4000

abbrev pub gen_nothing : ℕ
gen_nothing = 0x4001

abbrev pub type_of : Node → ℕ
type_of (node t h c d p) = t

abbrev pub hint_of : Node → ℕ
hint_of (node t h c d p) = h

abbrev pub down_of : Node → Down
down_of (node t h c d p) = d

abbrev pub comment_of : Node → Option (List ℕ)
comment_of (node t h c d p) = c

-- `n->down` where it is followed as a chain.
abbrev pub chain_of : Node → Nodes
chain_of (node t h c (chain ns) p) = ns
chain_of (node t h c (long v) p) = nil
chain_of (node t h c (float v) p) = nil
chain_of (node t h c (text v) p) = nil

-- `a->next`, `a->next->next`, ... as one chain after another.
infixr 65 ◌+++◌
abbrev pub ◌+++◌ : Nodes → Nodes → Nodes
nil +++ ms = ms
cons n ns +++ ms = cons n (ns +++ ms)

abbrev pub to_list : Nodes → List Node
to_list nil = []
to_list (cons n ns) = n ∷ to_list ns

abbrev pub of_list : List Node → Nodes
of_list [] = nil
of_list (n ∷ ns) = cons n (of_list ns)
