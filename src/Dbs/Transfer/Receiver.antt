-- ===== src/Dbs/Transfer/Receiver.antt =====
-- What a watcher has of the packets of src/dbs.c, independent of the code: pieces count once, in
-- the order of their numbers, and the last piece completes a message.
use lmpc.Base.{ℕ, ◌+◌, ◌*◌, ◌^◌, ◌<◌, ◌≡◌, refl, List, [], ◌∷◌, ◌++◌, ◌==◌, if◌then◌else◌, arith}
use lmpc.Dbs.Packet.{part_rel, last_rel, ack_rel}
use lmpc.Dbs.Transfer.{packet}

-- The number of the next piece, the pieces of a message that is not complete, and the messages.
pub record Receiver : Type 0 where
  pub expected : ℕ
  pub partial : List ℕ
  pub messages : List (List ℕ)

abbrev pub accept : ℕ → List ℕ → Receiver → Receiver
accept type payload r =
    if type == part_rel
    then record r { expected = r.expected + 1; partial = r.partial ++ payload }
    else if type == last_rel
    then record r {
      expected = r.expected + 1;
      partial = [];
      messages = r.messages ++ ((r.partial ++ payload) ∷ []);
    }
    else r

unfoldable pub receive : Receiver → List ℕ → Receiver
receive r (t1 ∷ t0 ∷ s1 ∷ s0 ∷ q3 ∷ q2 ∷ q1 ∷ q0 ∷ payload) =
    if q3 * 2 ^ 24 + q2 * 2 ^ 16 + q1 * 2 ^ 8 + q0 == r.expected
    then accept (t1 * 256 + t0) payload r
    else r
receive r short = r

unfoldable pub receive_all : Receiver → List (List ℕ) → Receiver
receive_all r [] = r
receive_all r (p ∷ ps) = receive_all (receive r p) ps

pub receive_all-append :
    (ps qs : List (List ℕ)) (r : Receiver)
    → receive_all r (ps ++ qs) ≡ receive_all (receive_all r ps) qs
unfolding receive_all
receive_all-append [] qs r = refl
receive_all-append (p ∷ ps) qs r = receive_all-append ps qs (receive r p)

-- A piece with the number that is expected counts; any other packet of the server does not.
pub receive-expected :
    (type : ℕ) (payload : List ℕ) (r : Receiver)
    → type < 65536
    → r.expected < 2 ^ 32
    → receive r (packet type r.expected payload) ≡ accept type payload r
unfolding packet receive
receive-expected type payload r low small = ground arith

pub receive-other :
    (type sequence : ℕ) (payload : List ℕ) (r : Receiver)
    → sequence < 2 ^ 32
    → sequence < r.expected
    → receive r (packet type sequence payload) ≡ r
unfolding packet receive
receive-other type sequence payload r small old = ground arith

pub receive-ack : (sequence : ℕ) (r : Receiver) → receive r (packet ack_rel sequence []) ≡ r
unfolding packet receive
receive-ack sequence r = ground arith
