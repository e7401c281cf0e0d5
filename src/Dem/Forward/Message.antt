-- ===== src/Dem/Forward/Message.antt =====
-- src/udem.c, `do_message_read_bin`: the cursor moves on by a byte at least.
use lmpc.Base.{ℕ, zero, suc, none, some, List, [], ◌∷◌, get_elem?}
use lmpc.Node.{Nodes}
use lmpc.Binblock.{Cmd, get_next_unsigned_char}
use lmpc.Binblock.Float.{Floats}
use lmpc.Binblock.Forward.{
  Forward, moves, first-Advances, get_next_unsigned_char-Advances, Advances,
}
use lmpc.Dem.State.{Dem}
use lmpc.Dem.Token.{Numbering}
use lmpc.Dem.Read.Message.{keep, readers, do_message_read_bin}
use lmpc.Dem.Forward.Plain.{plain_rules}
use lmpc.Dem.Forward.Vector.{vector_rules}
use lmpc.Dem.Forward.World.{world_rules}
use lmpc.Dem.Forward.Client.{client_rules}

-- Every reader of a list is of the kind.
abbrev AllForward {ℓ} : {A : Type ℓ} → List (Cmd A) → Type ℓ
AllForward [] = Unit
AllForward (c ∷ cs) = Forward c × AllForward cs

module _ {D : Type 0} (N : Numbering) (F : Floats D) (d : Dem) where
  keep-Forward : (c : Cmd Nodes) → Forward c → Forward (keep d c)
  keep-Forward c h = search moves

  readers-Forward : AllForward (readers N F d)
  readers-Forward =
      search (keep-Forward, plain_rules, vector_rules, world_rules, client_rules) depth 60 fits 4000

  ruleset of_message = (keep-Forward, plain_rules, vector_rules, world_rules, client_rules, moves)

  get_elem?-Forward :
      {A : Type 0} (cs : List (Cmd A)) (i : ℕ) (rest : Cmd A)
      → AllForward cs
      → Forward rest
      → Forward (elim (get_elem? cs i) [ some reader ↦ reader | none ↦ rest ])
  get_elem?-Forward [] i rest h r = r
  get_elem?-Forward (c ∷ cs) zero rest (h, hs) r = h
  get_elem?-Forward (c ∷ cs) (suc i) rest (h, hs) r = get_elem?-Forward cs i rest hs r

  pub do_message_read_bin-Advances : Advances (do_message_read_bin N F d)
  unfolding do_message_read_bin
  do_message_read_bin-Advances =
      first-Advances get_next_unsigned_char _ get_next_unsigned_char-Advances
        λ id. get_elem?-Forward (readers N F d) id _ readers-Forward (search of_message depth 20)
