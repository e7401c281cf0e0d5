-- ===== src/Node/Bitlist/Laws.antt =====
-- src/node.c: `nodes_to_bitlist` undoes `bitlist_to_nodes` on the bits that the shift of an `int`
-- defines.
use native.Mathlib.Nat.{pow-suc, div-add-mod}
use native.Mathlib.Numerals.{add-one}
use lmpc.Base.{
  ℕ, zero, suc, ◌+◌, ◌*◌, ◌/◌, ◌%◌, ◌^◌, ◌<◌, ◌≤◌, ◌≡◌, refl, ap, ◌∙◌, ◌==◌, if◌then◌else◌, bit_or,
  none, some, arith, Bool-cases, inl, inr, ==_iff, ltb, true, false,
}
use lmpc.Base.Bits.{bit_or_step}
use lmpc.Base.Int.{pos}
use lmpc.Node.{Nodes, node, long, nil, cons, v_int, ◌+++◌}
use lmpc.Node.Chain.{node_init}
use lmpc.Node.Chain.Laws.{node_link-+++, +++_assoc}
use lmpc.Node.Bitlist.{bitlist_loop, bitlist_to_nodes, bit_of, nodes_to_bitlist}

-- The chain of the set bits of `field`, which has `k` bits, numbered from `i`.
bit_nodes : ℕ → ℕ → ℕ → Nodes
bit_nodes zero i field = nil
bit_nodes (suc k) i field =
    let rest = bit_nodes k (i + 1) (field / 2) in
    if field % 2 == 1 then cons (node v_int 0 none (long (pos i)) 0) rest else rest

+++-nil : (ns : Nodes) → ns +++ nil ≡ ns
+++-nil nil = refl
+++-nil (cons n ns) = ap (λ l. cons n l) (+++-nil ns)

bit_nodes-zero : (k i : ℕ) → bit_nodes k i 0 ≡ nil
unfolding bit_nodes
bit_nodes-zero zero i = refl
bit_nodes-zero (suc k) i = bit_nodes-zero k (i + 1)

bitlist_loop-zero : (fuel i : ℕ) (n : Nodes) → bitlist_loop (suc fuel) i 0 n ≡ some n
unfolding bitlist_loop
bitlist_loop-zero fuel i n = refl

bitlist_loop-suc :
    (fuel i field : ℕ) (n : Nodes)
    → (field == 0) ≡ false
    → bitlist_loop (suc fuel) i field n
      ≡ bitlist_loop fuel
          (i + 1)
          (field / 2)
          (n +++ (if field % 2 == 1 then cons (node v_int 0 none (long (pos i)) 0) nil else nil))
unfolding bitlist_loop node_init
bitlist_loop-suc fuel i field n h = rw h (elim (Bool-cases (field % 2 == 1)) [
  | inl odd ↦ rw odd (rw (node_link-+++ n (cons (node v_int 0 none (long (pos i)) 0) nil)))
  | inr even ↦ rw even (rw (+++-nil n))
])

bit_nodes-suc :
    (k i field : ℕ)
    → bit_nodes (suc k) i field
      ≡ (if field % 2 == 1 then cons (node v_int 0 none (long (pos i)) 0) nil else nil)
        +++ bit_nodes k (i + 1) (field / 2)
unfolding bit_nodes
bit_nodes-suc k i field = elim (Bool-cases (field % 2 == 1)) [
  | inl odd ↦ rw odd
  | inr even ↦ rw even
]

bitlist_loop-bit_nodes :
    (fuel k i field : ℕ) (n : Nodes)
    → field < 2 ^ k
    → k < fuel
    → bitlist_loop fuel i field n ≡ some (n +++ bit_nodes k i field)
bitlist_loop-bit_nodes zero k i field n h f = absurd (omega arith)
bitlist_loop-bit_nodes (suc fuel) k i zero n h f =
    bitlist_loop-zero fuel i n ∙ rw (bit_nodes-zero, +++-nil)
bitlist_loop-bit_nodes (suc fuel) zero i (suc field) n h f = absurd (omega arith)
bitlist_loop-bit_nodes (suc fuel) (suc k) i (suc field) n h f =
    let one = (if suc field % 2 == 1 then cons (node v_int 0 none (long (pos i)) 0) nil else nil) in
    bitlist_loop-suc fuel i (suc field) n (ground arith)
    ∙ bitlist_loop-bit_nodes fuel k (i + 1) (suc field / 2) (n +++ one) (omega (arith, pow-suc 2 k))
        (omega arith)
    ∙ rw (bit_nodes-suc, +++_assoc)

half_pow : (i : ℕ) → (2 ^ suc i / 2 ≡ 2 ^ i) × (2 ^ suc i % 2 ≡ 0)
half_pow i = (omega (arith, pow-suc 2 i), omega (arith, pow-suc 2 i))

bit_or_high : (i b : ℕ) → b < 2 ^ i → bit_or b (2 ^ i) ≡ b + 2 ^ i
bit_or_high zero zero h = refl
bit_or_high zero (suc b) h = absurd (omega arith)
bit_or_high (suc i) b h =
    bit_or_step b (2 ^ suc i)
    ∙ rw ((half_pow i).0, (half_pow i).1)
        (omega (arith, pow-suc 2 i, bit_or_high i (b / 2) (omega (arith, pow-suc 2 i))))

-- `field * 2 ^ i`, its lowest bit taken off.
shift_low : (field i b : ℕ) → b + field % 2 * 2 ^ i + field / 2 * 2 ^ (suc i) ≡ b + field * 2 ^ i
shift_low field i b = omega (
  arith,
  ap (λ (t : ℕ). t * 2 ^ i) (div-add-mod field 2),
  ap (λ (t : ℕ). field / 2 * t) (pow-suc 2 i),
)

nodes_to_bitlist-cons :
    (i b : ℕ) (rest : Nodes)
    → i < 31
    → b < 2 ^ i
    → nodes_to_bitlist b (cons (node v_int 0 none (long (pos i)) 0) rest)
      ≡ nodes_to_bitlist (b + 2 ^ i) rest
unfolding nodes_to_bitlist bit_of
nodes_to_bitlist-cons i b rest small below =
    rw (← bit_or_high i b below) (elim (Bool-cases (ltb i 31)) [
      | inl e ↦ rw (nodes_to_bitlist, bit_of, e)
      | inr e ↦ absurd (ground arith)
    ])

low_odd : (field i b : ℕ) → (field % 2 == 1) ≡ true → b + 2 ^ i ≡ b + field % 2 * 2 ^ i
low_odd field i b h = rw ((==_iff (field % 2) 1).0 h) (omega arith)

low_even : (field i b : ℕ) → (field % 2 == 1) ≡ false → b ≡ b + field % 2 * 2 ^ i
low_even field i b h = let e : field % 2 ≡ 0 = ground arith in rw e (omega arith)

nodes_to_bitlist-bit_nodes :
    (k i field b : ℕ)
    → field < 2 ^ k
    → i + k ≤ 31
    → b < 2 ^ i
    → nodes_to_bitlist b (bit_nodes k i field) ≡ some (b + field * 2 ^ i)
unfolding bit_nodes
nodes_to_bitlist-bit_nodes zero i zero b h small below =
    unfold nodes_to_bitlist in ap some (omega arith)
nodes_to_bitlist-bit_nodes zero i (suc field) b h small below = absurd (omega arith)
nodes_to_bitlist-bit_nodes (suc k) i field b h small below =
    let smaller : field / 2 < 2 ^ k = omega (arith, pow-suc 2 k) in
    elim (Bool-cases (field % 2 == 1)) [
      | inl odd ↦
          rw (odd, add-one i)
            (nodes_to_bitlist-cons i b (bit_nodes k (suc i) (field / 2)) (omega arith) below
              ∙ nodes_to_bitlist-bit_nodes k (suc i) (field / 2) (b + 2 ^ i) smaller (omega arith)
                  (omega (arith, pow-suc 2 i))
              ∙ ap some (omega (arith, low_odd field i b odd, shift_low field i b)))
      | inr even ↦
          rw (even, add-one i)
            (nodes_to_bitlist-bit_nodes k (suc i) (field / 2) b smaller (omega arith)
                (omega (arith, pow-suc 2 i))
              ∙ ap some (omega (arith, low_even field i b even, shift_low field i b)))
    ]

-- `nodes_to_bitlist` gives back every field below 2 ^ 31 of whose bits `bitlist_to_nodes` has made a
-- chain.
pub nodes_to_bitlist-bitlist_to_nodes :
    (field : ℕ)
    → field < 2 ^ 31
    → (ns : Nodes) × (bitlist_to_nodes field ≡ some ns) × (nodes_to_bitlist 0 ns ≡ some field)
unfolding bitlist_to_nodes
nodes_to_bitlist-bitlist_to_nodes field h = (
  bit_nodes 31 0 field,
  bitlist_loop-bit_nodes 65 31 0 field nil h (omega arith),
  nodes_to_bitlist-bit_nodes 31 0 field 0 h (omega arith) (omega arith) ∙ ap some (omega arith),
)

pub bitlist_to_nodes_total :
    (field : ℕ) → field < 2 ^ 64 → (ns : Nodes) × (bitlist_to_nodes field ≡ some ns)
unfolding bitlist_to_nodes
bitlist_to_nodes_total field h =
    (bit_nodes 64 0 field, bitlist_loop-bit_nodes 65 64 0 field nil h (omega arith))
