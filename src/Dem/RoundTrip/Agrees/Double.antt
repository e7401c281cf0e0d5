-- ===== src/Dem/RoundTrip/Agrees/Double.antt =====
-- src/udem.c: the messages of two values, and those that pack two.
use lmpc.Base.{ℕ, ◌<◌, refl, List, [], ◌∷◌, ◌++◌, arith}
use lmpc.Base.Int.{ℤ}
use lmpc.Binblock.Number.{get_next_short, get_next_long}
use lmpc.Binblock.Text.{get_next_string}
use lmpc.Binblock.Float.{Floats, read_byte}
use lmpc.Binblock.Codec.{
  IsShort, byte-Reads, short-Reads, long-Reads, text-Reads, >>=-Reads, map-Reads,
}
use lmpc.Dem.State.{Dem}
use lmpc.Dem.Token.{
  Numbering, token_updatestat, token_index, token_value, token_lightstyle, token_style,
  token_string, token_updatename, token_player, token_netname, token_updatefrags, token_frags,
  token_cdtrack, token_fromtrack, token_totrack,
}
use lmpc.Dem.Read.Plain.{
  do_stopsound_message_read_bin, do_updatecolors_message_read_bin, do_updatestat_message_read_bin,
  do_lightstyle_message_read_bin, do_updatename_message_read_bin, do_updatefrags_message_read_bin,
  do_cdtrack_message_read_bin,
}
use lmpc.Dem.RoundTrip.Table.{id_at, is_listed}
use lmpc.Binblock.RoundTrip.{short_bytes}
use lmpc.Dem.RoundTrip.Special.{
  stopsound_node, stopsound-Writes, updatecolors_node, updatecolors-Writes,
}
use lmpc.Dem.RoundTrip.Value.{byte, word, wide, line, IsValue, value_bytes, double, double-Writes}
use lmpc.Dem.RoundTrip.Agrees.{by_id, Agrees}

module _ {D : Type 0} (N : Numbering) (F : Floats D) (d : Dem) where
  pub agrees_updatestat :
      (a : ℕ) (b : ℤ)
      → IsValue (byte a)
      → IsValue (wide b)
      → Agrees N F d
          (double N token_updatestat token_index (byte a) token_value (wide b))
          (0x3 ∷ (value_bytes (byte a) ++ value_bytes (wide b)))
  unfolding do_updatestat_message_read_bin id_at is_listed
  agrees_updatestat a b ha hb = (
    by_id N F d 0x3 (do_updatestat_message_read_bin N)
        (value_bytes (byte a) ++ value_bytes (wide b)) _ refl
        (>>=-Reads read_byte _ (value_bytes (byte a)) (value_bytes (wide b)) a _ (byte-Reads a)
          (map-Reads get_next_long _ (value_bytes (wide b)) b (long-Reads b hb))),
    double-Writes N F token_updatestat 0x3 token_index token_value (byte a) (wide b) (omega arith)
        refl (omega arith) refl ha hb,
  )

  pub agrees_lightstyle :
      (a : ℕ) (b : List ℕ)
      → IsValue (byte a)
      → IsValue (line b)
      → Agrees N F d
          (double N token_lightstyle token_style (byte a) token_string (line b))
          (0xc ∷ (value_bytes (byte a) ++ value_bytes (line b)))
  unfolding do_lightstyle_message_read_bin id_at is_listed
  agrees_lightstyle a b ha hb = (
    by_id N F d 0xc (do_lightstyle_message_read_bin N)
        (value_bytes (byte a) ++ value_bytes (line b)) _ refl
        (>>=-Reads read_byte _ (value_bytes (byte a)) (value_bytes (line b)) a _ (byte-Reads a)
          (map-Reads get_next_string _ (value_bytes (line b)) b (text-Reads b hb))),
    double-Writes N F token_lightstyle 0xc token_style token_string (byte a) (line b) (omega arith)
        refl (omega arith) refl ha hb,
  )

  pub agrees_updatename :
      (a : ℕ) (b : List ℕ)
      → IsValue (byte a)
      → IsValue (line b)
      → Agrees N F d
          (double N token_updatename token_player (byte a) token_netname (line b))
          (0xd ∷ (value_bytes (byte a) ++ value_bytes (line b)))
  unfolding do_updatename_message_read_bin id_at is_listed
  agrees_updatename a b ha hb = (
    by_id N F d 0xd (do_updatename_message_read_bin N)
        (value_bytes (byte a) ++ value_bytes (line b)) _ refl
        (>>=-Reads read_byte _ (value_bytes (byte a)) (value_bytes (line b)) a _ (byte-Reads a)
          (map-Reads get_next_string _ (value_bytes (line b)) b (text-Reads b hb))),
    double-Writes N F token_updatename 0xd token_player token_netname (byte a) (line b)
        (omega arith) refl (omega arith) refl ha hb,
  )

  pub agrees_updatefrags :
      (a : ℕ) (b : ℤ)
      → IsValue (byte a)
      → IsValue (word b)
      → Agrees N F d
          (double N token_updatefrags token_player (byte a) token_frags (word b))
          (0xe ∷ (value_bytes (byte a) ++ value_bytes (word b)))
  unfolding do_updatefrags_message_read_bin id_at is_listed
  agrees_updatefrags a b ha hb = (
    by_id N F d 0xe (do_updatefrags_message_read_bin N)
        (value_bytes (byte a) ++ value_bytes (word b)) _ refl
        (>>=-Reads read_byte _ (value_bytes (byte a)) (value_bytes (word b)) a _ (byte-Reads a)
          (map-Reads get_next_short _ (value_bytes (word b)) b (short-Reads b hb))),
    double-Writes N F token_updatefrags 0xe token_player token_frags (byte a) (word b) (omega arith)
        refl (omega arith) refl ha hb,
  )

  pub agrees_cdtrack :
      (a : ℕ) (b : ℕ)
      → IsValue (byte a)
      → IsValue (byte b)
      → Agrees N F d
          (double N token_cdtrack token_fromtrack (byte a) token_totrack (byte b))
          (0x20 ∷ (value_bytes (byte a) ++ value_bytes (byte b)))
  unfolding do_cdtrack_message_read_bin id_at is_listed
  agrees_cdtrack a b ha hb = (
    by_id N F d 0x20 (do_cdtrack_message_read_bin N) (value_bytes (byte a) ++ value_bytes (byte b))
        _ refl
        (>>=-Reads read_byte _ (value_bytes (byte a)) (value_bytes (byte b)) a _ (byte-Reads a)
          (map-Reads read_byte _ (value_bytes (byte b)) b (byte-Reads b))),
    double-Writes N F token_cdtrack 0x20 token_fromtrack token_totrack (byte a) (byte b)
        (omega arith) refl (omega arith) refl ha hb,
  )

  pub agrees_stopsound :
      (v : ℤ) → IsShort v → Agrees N F d (stopsound_node N F v) (0x10 ∷ short_bytes v)
  unfolding do_stopsound_message_read_bin
  agrees_stopsound v h = (
    by_id N F d 0x10 (do_stopsound_message_read_bin N) (short_bytes v) (stopsound_node N F v) refl
        (map-Reads get_next_short _ (short_bytes v) v (short-Reads v h)),
    stopsound-Writes N F v,
  )

  pub agrees_updatecolors :
      (a b : ℕ) → a < 256 → b < 256 → Agrees N F d (updatecolors_node N F a b) (0x11 ∷ (a ∷ b ∷ []))
  unfolding do_updatecolors_message_read_bin
  agrees_updatecolors a b ha hb = (
    by_id N F d 0x11 (do_updatecolors_message_read_bin N) (a ∷ b ∷ []) (updatecolors_node N F a b)
        refl
        (>>=-Reads read_byte _ (a ∷ []) (b ∷ []) a _ (byte-Reads a)
          (map-Reads read_byte _ (b ∷ []) b (byte-Reads b))),
    updatecolors-Writes N F a b ha hb,
  )
