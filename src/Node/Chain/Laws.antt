-- ===== src/Node/Chain/Laws.antt =====
-- src/node.c: linking is concatenation, unlinking takes out one node, and what the loops that set a
-- field leave alone.
use lmpc.Base.{ℕ, zero, suc, ◌+◌, ◌≤◌, ◌≡◌, refl, ap, ◌∙◌, some, arith}
use lmpc.Base.Result.{Error, ok, err}
use lmpc.Node.{Node, Nodes, nil, cons, ◌+++◌}
use lmpc.Node.Chain.{node_add_next, node_link, node_combine3, node_count_next, node_unlink}

-- `node_add_next` of a chain that is not NULL is concatenation.
pub node_add_next-+++ :
    (n : Node) (ns ms : Nodes) → node_add_next (cons n ns) ms ≡ some (cons n ns +++ ms)
node_add_next-+++ n nil ms = refl
node_add_next-+++ n (cons m ns) ms = rw (node_add_next-+++ m ns ms)

pub node_link-+++ : (ns ms : Nodes) → node_link ns ms ≡ some (ns +++ ms)
node_link-+++ nil ms = refl
node_link-+++ (cons n ns) ms = node_add_next-+++ n ns ms

pub +++_assoc : (a b c : Nodes) → (a +++ b) +++ c ≡ a +++ (b +++ c)
+++_assoc nil b c = refl
+++_assoc (cons n a) b c = ap (λ l. cons n l) (+++_assoc a b c)

pub node_count_next-+++ :
    (a b : Nodes) → node_count_next (a +++ b) ≡ node_count_next a + node_count_next b
unfolding node_count_next
node_count_next-+++ nil b = omega arith
node_count_next-+++ (cons n a) b = omega (arith, node_count_next-+++ a b)

-- Three chains, the first two not NULL, are joined in their order, and no node is lost: the result
-- counts as many as the three.
pub node_combine3-+++ :
    (n m : Node) (a b c : Nodes)
    → (r : Nodes) × (node_combine3 (cons n a) (cons m b) c ≡ some r)
      × (r ≡ cons n a +++ (cons m b +++ c))
      × (node_count_next r
          ≡ node_count_next (cons n a) + node_count_next (cons m b) + node_count_next c)
unfolding node_combine3
node_combine3-+++ n m a b c = (
  cons n a +++ (cons m b +++ c),
  rw (node_combine3, node_add_next-+++ n a (cons m b))
      (node_add_next-+++ n (a +++ cons m b) c
        ∙ ap (λ r. some (cons n r)) (+++_assoc a (cons m b) c)),
  refl,
  omega (arith, node_count_next-+++ (cons n a) (cons m b +++ c), node_count_next-+++ (cons m b) c),
)

-- `node_unlink` of the node behind a front gives that node alone and the chain without it, whatever
-- the front.
pub node_unlink-+++ :
    (front : Nodes) (n : Node) (back : Nodes)
    → node_unlink (front +++ cons n back) (node_count_next front) ≡ ok (front +++ back, n)
unfolding node_unlink node_count_next
node_unlink-+++ nil n back = refl
node_unlink-+++ (cons m front) n back = rw (node_unlink-+++ front n back)

pub node_unlink_missing :
    (ns : Nodes) (k : ℕ) → node_count_next ns ≤ k → node_unlink ns k ≡ err Error.dinte
unfolding node_unlink node_count_next
node_unlink_missing nil k h = refl
node_unlink_missing (cons n ns) zero h = absurd (omega arith)
node_unlink_missing (cons n ns) (suc k) h = rw (node_unlink_missing ns k (omega arith))
