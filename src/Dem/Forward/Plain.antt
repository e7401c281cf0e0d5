-- ===== src/Dem/Forward/Plain.antt =====
-- src/udem.c: the messages without coordinates and without state.
use lmpc.Base.{
  ℕ, zero, suc, ◌+◌, ◌-◌, ◌<◌, ◌≡◌, Option, none, some, inl, inr, ltb, ltb→lt, arith, Bool-cases,
}
use lmpc.Base.Int.{pos}
use lmpc.Node.{Nodes, nil, long, v_bytehex}
use lmpc.Node.Chain.{node_link, node_init_all}
use lmpc.Binblock.{Block, Run, ok, exit, fault, hangs, and_then, ◌>>=◌, get_next_unsigned_char}
use lmpc.Binblock.Argument.{need}
use lmpc.Binblock.Forward.{
  Forward, forward, After, After-trans, Behind, Behind-Advances, get_next_unsigned_char-Advances,
  moves,
}
use lmpc.Dem.State.{h_simple}
use lmpc.Dem.Token.{Numbering}
use lmpc.Dem.Read.Plain.{
  rest_of_block, all_bytes, do_unknown_message_read_bin, do_bad_message_read_bin,
  do_nop_message_read_bin, do_disconnect_message_read_bin, do_updatestat_message_read_bin,
  do_version_message_read_bin, do_setview_message_read_bin, do_time_message_read_bin,
  do_print_message_read_bin, do_stufftext_message_read_bin, do_centerprint_message_read_bin,
  do_finale_message_read_bin, do_cutscene_message_read_bin, do_setpause_message_read_bin,
  do_signonnum_message_read_bin, do_lightstyle_message_read_bin, do_updatename_message_read_bin,
  do_updatefrags_message_read_bin, do_stopsound_message_read_bin, do_updatecolors_message_read_bin,
  do_spawnbinary_message_read_bin, do_killedmonster_message_read_bin,
  do_foundsecret_message_read_bin, do_intermission_message_read_bin, do_sellscreen_message_read_bin,
  do_cdtrack_message_read_bin,
}

-- A byte is read, or it is outside the buffer.
read_on :
    (k : ℕ) (tn : Nodes) (m : Block) (r : Run ℕ)
    → Behind m r
    → ((b : ℕ) (m' : Block)
        → m.p < m'.p
        → m'.end ≡ m.end
        → After m' (
            and_then
              (need (node_link tn (node_init_all v_bytehex h_simple (long (pos b)) 0)) m')
              (rest_of_block k)))
    → After m (
        and_then r λ b.
          need (node_link tn (node_init_all v_bytehex h_simple (long (pos b)) 0))
          >>= rest_of_block k)
read_on k tn m (ok b m') (h, e) next = After-trans m m' _ (omega arith) e (next b m' h e)
read_on k tn m (exit c) h next = tt
read_on k tn m fault h next = tt
read_on k tn m hangs h next = absurd h

linked :
    (k : ℕ) (m : Block) (o : Option Nodes)
    → ((tn : Nodes) → After m (rest_of_block k tn m))
    → After m (and_then (need o m) (rest_of_block k))
linked k m none h = tt
linked k m (some tn) h = h tn

-- The loop ends: each round takes a byte.
rest_of_block-After :
    (k : ℕ) (tn : Nodes) (m : Block) → m.end < k + m.p → 0 < k → After m (rest_of_block k tn m)
unfolding rest_of_block
rest_of_block-After zero tn m h some_left = absurd (omega arith)
rest_of_block-After (suc k) tn m h some_left = elim (Bool-cases (ltb m.p m.end)) [
  | inr done ↦ rw (done, rest_of_block) (omega arith)
  | inl more ↦
      let inside = ltb→lt _ _ more in
      rw (more, rest_of_block)
        (read_on k tn m (get_next_unsigned_char m)
          (Behind-Advances get_next_unsigned_char-Advances m)
          λ b m' further same.
            linked k m' (node_link tn (node_init_all v_bytehex h_simple (long (pos b)) 0))
              (λ tn'. rest_of_block-After k tn' m' (omega arith) (omega arith)))
]

all_bytes-Forward : Forward all_bytes
all_bytes-Forward =
    forward (λ m. rest_of_block-After (suc (m.end - m.p)) nil m (omega arith) (omega arith))

module _ (N : Numbering) where
  pub do_unknown_message_read_bin-Forward : (id : ℕ) → Forward (do_unknown_message_read_bin N id)
  unfolding do_unknown_message_read_bin
  do_unknown_message_read_bin-Forward id = search (moves, all_bytes-Forward) depth 20

  pub do_bad_message_read_bin-Forward : Forward (do_bad_message_read_bin N)
  unfolding do_bad_message_read_bin
  do_bad_message_read_bin-Forward = search moves

  pub do_nop_message_read_bin-Forward : Forward (do_nop_message_read_bin N)
  unfolding do_nop_message_read_bin
  do_nop_message_read_bin-Forward = search moves

  pub do_disconnect_message_read_bin-Forward : Forward (do_disconnect_message_read_bin N)
  unfolding do_disconnect_message_read_bin
  do_disconnect_message_read_bin-Forward = search moves

  pub do_updatestat_message_read_bin-Forward : Forward (do_updatestat_message_read_bin N)
  unfolding do_updatestat_message_read_bin
  do_updatestat_message_read_bin-Forward = search moves

  pub do_version_message_read_bin-Forward : Forward (do_version_message_read_bin N)
  unfolding do_version_message_read_bin
  do_version_message_read_bin-Forward = search moves

  pub do_setview_message_read_bin-Forward : Forward (do_setview_message_read_bin N)
  unfolding do_setview_message_read_bin
  do_setview_message_read_bin-Forward = search moves

  pub do_time_message_read_bin-Forward : Forward (do_time_message_read_bin N)
  unfolding do_time_message_read_bin
  do_time_message_read_bin-Forward = search moves

  pub do_print_message_read_bin-Forward : Forward (do_print_message_read_bin N)
  unfolding do_print_message_read_bin
  do_print_message_read_bin-Forward = search moves

  pub do_stufftext_message_read_bin-Forward : Forward (do_stufftext_message_read_bin N)
  unfolding do_stufftext_message_read_bin
  do_stufftext_message_read_bin-Forward = search moves

  pub do_centerprint_message_read_bin-Forward : Forward (do_centerprint_message_read_bin N)
  unfolding do_centerprint_message_read_bin
  do_centerprint_message_read_bin-Forward = search moves

  pub do_finale_message_read_bin-Forward : Forward (do_finale_message_read_bin N)
  unfolding do_finale_message_read_bin
  do_finale_message_read_bin-Forward = search moves

  pub do_cutscene_message_read_bin-Forward : Forward (do_cutscene_message_read_bin N)
  unfolding do_cutscene_message_read_bin
  do_cutscene_message_read_bin-Forward = search moves

  pub do_setpause_message_read_bin-Forward : Forward (do_setpause_message_read_bin N)
  unfolding do_setpause_message_read_bin
  do_setpause_message_read_bin-Forward = search moves

  pub do_signonnum_message_read_bin-Forward : Forward (do_signonnum_message_read_bin N)
  unfolding do_signonnum_message_read_bin
  do_signonnum_message_read_bin-Forward = search moves

  pub do_lightstyle_message_read_bin-Forward : Forward (do_lightstyle_message_read_bin N)
  unfolding do_lightstyle_message_read_bin
  do_lightstyle_message_read_bin-Forward = search moves

  pub do_updatename_message_read_bin-Forward : Forward (do_updatename_message_read_bin N)
  unfolding do_updatename_message_read_bin
  do_updatename_message_read_bin-Forward = search moves

  pub do_updatefrags_message_read_bin-Forward : Forward (do_updatefrags_message_read_bin N)
  unfolding do_updatefrags_message_read_bin
  do_updatefrags_message_read_bin-Forward = search moves

  pub do_stopsound_message_read_bin-Forward : Forward (do_stopsound_message_read_bin N)
  unfolding do_stopsound_message_read_bin
  do_stopsound_message_read_bin-Forward = search moves

  pub do_updatecolors_message_read_bin-Forward : Forward (do_updatecolors_message_read_bin N)
  unfolding do_updatecolors_message_read_bin
  do_updatecolors_message_read_bin-Forward = search moves

  pub do_spawnbinary_message_read_bin-Forward : Forward (do_spawnbinary_message_read_bin N)
  unfolding do_spawnbinary_message_read_bin
  do_spawnbinary_message_read_bin-Forward = search moves

  pub do_killedmonster_message_read_bin-Forward : Forward (do_killedmonster_message_read_bin N)
  unfolding do_killedmonster_message_read_bin
  do_killedmonster_message_read_bin-Forward = search moves

  pub do_foundsecret_message_read_bin-Forward : Forward (do_foundsecret_message_read_bin N)
  unfolding do_foundsecret_message_read_bin
  do_foundsecret_message_read_bin-Forward = search moves

  pub do_intermission_message_read_bin-Forward : Forward (do_intermission_message_read_bin N)
  unfolding do_intermission_message_read_bin
  do_intermission_message_read_bin-Forward = search moves

  pub do_sellscreen_message_read_bin-Forward : Forward (do_sellscreen_message_read_bin N)
  unfolding do_sellscreen_message_read_bin
  do_sellscreen_message_read_bin-Forward = search moves

  pub do_cdtrack_message_read_bin-Forward : Forward (do_cdtrack_message_read_bin N)
  unfolding do_cdtrack_message_read_bin
  do_cdtrack_message_read_bin-Forward = search moves

pub ruleset plain_rules = (
  do_unknown_message_read_bin-Forward, do_bad_message_read_bin-Forward,
  do_nop_message_read_bin-Forward, do_disconnect_message_read_bin-Forward,
  do_updatestat_message_read_bin-Forward, do_version_message_read_bin-Forward,
  do_setview_message_read_bin-Forward, do_time_message_read_bin-Forward,
  do_print_message_read_bin-Forward, do_stufftext_message_read_bin-Forward,
  do_centerprint_message_read_bin-Forward, do_finale_message_read_bin-Forward,
  do_cutscene_message_read_bin-Forward, do_setpause_message_read_bin-Forward,
  do_signonnum_message_read_bin-Forward, do_lightstyle_message_read_bin-Forward,
  do_updatename_message_read_bin-Forward, do_updatefrags_message_read_bin-Forward,
  do_stopsound_message_read_bin-Forward, do_updatecolors_message_read_bin-Forward,
  do_spawnbinary_message_read_bin-Forward, do_killedmonster_message_read_bin-Forward,
  do_foundsecret_message_read_bin-Forward, do_intermission_message_read_bin-Forward,
  do_sellscreen_message_read_bin-Forward, do_cdtrack_message_read_bin-Forward,
)
