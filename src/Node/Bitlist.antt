-- ===== src/Node/Bitlist.antt =====
-- src/node.c: a bit field as the chain of the numbers of its set bits, and back.
pub mod Laws
use lmpc.Base.{
  ℕ, zero, suc, ◌+◌, ◌*◌, ◌/◌, ◌%◌, ◌^◌, ◌==◌, if◌then◌else◌, ltb, bit_or, Option, none, some,
}
use lmpc.Base.Int.{ℤ, pos, negsuc}
use lmpc.Node.{Node, Down, Nodes, node, long, float, text, chain, nil, cons, v_int}
use lmpc.Node.Chain.{node_init, node_link}

-- `for (i=0; field; i++, field>>=1) if (field & 1) n=node_link(n, ...i...)`: the fuel is the width
-- of an `unsigned long`, 64 rounds and the last test.
bitlist_loop : ℕ → ℕ → ℕ → Nodes → Option Nodes
bitlist_loop zero i field n = none
bitlist_loop (suc fuel) i field n =
    let linked =
      if field % 2 == 1 then node_link n (node_init v_int (long (pos i)) 0) else some n in
    let next : Option Nodes = elim linked [
      | none ↦ none
      | some n' ↦ bitlist_loop fuel (i + 1) (field / 2) n'
    ] in
    if field == 0 then some n else next

unfoldable pub bitlist_to_nodes : ℕ → Option Nodes
unfolding bitlist_loop
bitlist_to_nodes field = bitlist_loop 65 0 field nil

-- `field |= 0x01 << *(long*)(n->down)`. The 1 is an `int`, so the shift is defined for 0 to 30 only;
-- at any other number, or at a node that holds none, the source is undefined and the result `none`.
unfoldable pub bit_of : Node → Option ℕ
bit_of (node t h c (long (pos i)) p) = if ltb i 31 then some (2 ^ i) else none
bit_of (node t h c (long (negsuc i)) p) = none
bit_of (node t h c (float v) p) = none
bit_of (node t h c (text v) p) = none
bit_of (node t h c (chain v) p) = none

unfoldable pub nodes_to_bitlist : ℕ → Nodes → Option ℕ
nodes_to_bitlist field nil = some field
nodes_to_bitlist field (cons n ns) =
    let rest = λ (b : ℕ). nodes_to_bitlist (bit_or field b) ns in
    elim (bit_of n) [ none ↦ none | some b ↦ rest b ]
