-- ===== src/Dem/RoundTrip/Agrees/Plain.antt =====
-- src/udem.c: the messages without values.
use lmpc.Base.{refl, none, some, [], ◌∷◌, arith}
use lmpc.Base.Text.{codes}
use lmpc.Binblock.Float.{Floats}
use lmpc.Binblock.Codec.{pure-Reads}
use lmpc.Dem.State.{Dem}
use lmpc.Dem.Token.{
  Numbering, token_bad, token_nop, token_disconnect, token_spawnbinary, token_killedmonster,
  token_foundsecret, token_intermission, token_sellscreen,
}
use lmpc.Dem.Read.Plain.{
  do_bad_message_read_bin, do_nop_message_read_bin, do_disconnect_message_read_bin,
  do_spawnbinary_message_read_bin, do_killedmonster_message_read_bin,
  do_foundsecret_message_read_bin, do_intermission_message_read_bin, do_sellscreen_message_read_bin,
}
use lmpc.Dem.RoundTrip.Table.{id_at, is_listed}
use lmpc.Dem.RoundTrip.Value.{plain, plain-Writes}
use lmpc.Dem.RoundTrip.Agrees.{by_id, Agrees}

module _ {D : Type 0} (N : Numbering) (F : Floats D) (d : Dem) where
  pub agrees_bad : Agrees N F d (plain N token_bad (some (codes "something is wrong"))) (0x0 ∷ [])
  unfolding do_bad_message_read_bin id_at is_listed
  agrees_bad = (
    by_id N F d 0x0 (do_bad_message_read_bin N) [] _ refl (pure-Reads _),
    plain-Writes N F token_bad 0x0 (some (codes "something is wrong")) (omega arith) refl,
  )

  pub agrees_nop : Agrees N F d (plain N token_nop (none)) (0x1 ∷ [])
  unfolding do_nop_message_read_bin id_at is_listed
  agrees_nop = (
    by_id N F d 0x1 (do_nop_message_read_bin N) [] _ refl (pure-Reads _),
    plain-Writes N F token_nop 0x1 (none) (omega arith) refl,
  )

  pub agrees_disconnect : Agrees N F d (plain N token_disconnect (none)) (0x2 ∷ [])
  unfolding do_disconnect_message_read_bin id_at is_listed
  agrees_disconnect = (
    by_id N F d 0x2 (do_disconnect_message_read_bin N) [] _ refl (pure-Reads _),
    plain-Writes N F token_disconnect 0x2 (none) (omega arith) refl,
  )

  pub agrees_spawnbinary :
      Agrees N F d (plain N token_spawnbinary (some (codes "Illegible server message"))) (0x15 ∷ [])
  unfolding do_spawnbinary_message_read_bin id_at is_listed
  agrees_spawnbinary = (
    by_id N F d 0x15 (do_spawnbinary_message_read_bin N) [] _ refl (pure-Reads _),
    plain-Writes N F token_spawnbinary 0x15 (some (codes "Illegible server message")) (omega arith)
        refl,
  )

  pub agrees_killedmonster : Agrees N F d (plain N token_killedmonster (none)) (0x1b ∷ [])
  unfolding do_killedmonster_message_read_bin id_at is_listed
  agrees_killedmonster = (
    by_id N F d 0x1b (do_killedmonster_message_read_bin N) [] _ refl (pure-Reads _),
    plain-Writes N F token_killedmonster 0x1b (none) (omega arith) refl,
  )

  pub agrees_foundsecret : Agrees N F d (plain N token_foundsecret (none)) (0x1c ∷ [])
  unfolding do_foundsecret_message_read_bin id_at is_listed
  agrees_foundsecret = (
    by_id N F d 0x1c (do_foundsecret_message_read_bin N) [] _ refl (pure-Reads _),
    plain-Writes N F token_foundsecret 0x1c (none) (omega arith) refl,
  )

  pub agrees_intermission : Agrees N F d (plain N token_intermission (none)) (0x1e ∷ [])
  unfolding do_intermission_message_read_bin id_at is_listed
  agrees_intermission = (
    by_id N F d 0x1e (do_intermission_message_read_bin N) [] _ refl (pure-Reads _),
    plain-Writes N F token_intermission 0x1e (none) (omega arith) refl,
  )

  pub agrees_sellscreen : Agrees N F d (plain N token_sellscreen (none)) (0x21 ∷ [])
  unfolding do_sellscreen_message_read_bin id_at is_listed
  agrees_sellscreen = (
    by_id N F d 0x21 (do_sellscreen_message_read_bin N) [] _ refl (pure-Reads _),
    plain-Writes N F token_sellscreen 0x21 (none) (omega arith) refl,
  )
