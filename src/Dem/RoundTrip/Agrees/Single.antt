-- ===== src/Dem/RoundTrip/Agrees/Single.antt =====
-- src/udem.c: the messages of one value.
use lmpc.Base.{ℕ, refl, List, ◌∷◌, arith}
use lmpc.Base.Int.{ℤ}
use lmpc.Binblock.Number.{get_next_short, get_next_long, get_next_float}
use lmpc.Binblock.Text.{get_next_string}
use lmpc.Binblock.Float.{Floats, read_byte}
use lmpc.Binblock.Codec.{byte-Reads, short-Reads, long-Reads, float-Reads, text-Reads, map-Reads}
use lmpc.Dem.State.{Dem}
use lmpc.Dem.Token.{
  Numbering, token_version, token_setview, token_time, token_print, token_stufftext, token_setpause,
  token_signonnum, token_centerprint, token_finale, token_cutscene,
}
use lmpc.Dem.Read.Plain.{
  do_version_message_read_bin, do_setview_message_read_bin, do_time_message_read_bin,
  do_print_message_read_bin, do_stufftext_message_read_bin, do_setpause_message_read_bin,
  do_signonnum_message_read_bin, do_centerprint_message_read_bin, do_finale_message_read_bin,
  do_cutscene_message_read_bin,
}
use lmpc.Dem.RoundTrip.Table.{id_at, is_listed}
use lmpc.Dem.RoundTrip.Value.{
  byte, word, wide, time, line, IsValue, value_bytes, single, single-Writes,
}
use lmpc.Dem.RoundTrip.Agrees.{by_id, Agrees}

module _ {D : Type 0} (N : Numbering) (F : Floats D) (d : Dem) where
  pub agrees_version :
      (v : ℤ)
      → IsValue (wide v)
      → Agrees N F d (single N token_version (wide v)) (0x4 ∷ value_bytes (wide v))
  unfolding do_version_message_read_bin id_at is_listed
  agrees_version v h = (
    by_id N F d 0x4 (do_version_message_read_bin N) (value_bytes (wide v)) _ refl
        (map-Reads get_next_long _ (value_bytes (wide v)) v (long-Reads v h)),
    single-Writes N F token_version 0x4 (wide v) (omega arith) refl h,
  )

  pub agrees_setview :
      (v : ℤ)
      → IsValue (word v)
      → Agrees N F d (single N token_setview (word v)) (0x5 ∷ value_bytes (word v))
  unfolding do_setview_message_read_bin id_at is_listed
  agrees_setview v h = (
    by_id N F d 0x5 (do_setview_message_read_bin N) (value_bytes (word v)) _ refl
        (map-Reads get_next_short _ (value_bytes (word v)) v (short-Reads v h)),
    single-Writes N F token_setview 0x5 (word v) (omega arith) refl h,
  )

  pub agrees_time :
      (v : ℕ)
      → IsValue (time v)
      → Agrees N F d (single N token_time (time v)) (0x7 ∷ value_bytes (time v))
  unfolding do_time_message_read_bin id_at is_listed
  agrees_time v h = (
    by_id N F d 0x7 (do_time_message_read_bin N) (value_bytes (time v)) _ refl
        (map-Reads get_next_float _ (value_bytes (time v)) v (float-Reads v h)),
    single-Writes N F token_time 0x7 (time v) (omega arith) refl h,
  )

  pub agrees_print :
      (v : List ℕ)
      → IsValue (line v)
      → Agrees N F d (single N token_print (line v)) (0x8 ∷ value_bytes (line v))
  unfolding do_print_message_read_bin id_at is_listed
  agrees_print v h = (
    by_id N F d 0x8 (do_print_message_read_bin N) (value_bytes (line v)) _ refl
        (map-Reads get_next_string _ (value_bytes (line v)) v (text-Reads v h)),
    single-Writes N F token_print 0x8 (line v) (omega arith) refl h,
  )

  pub agrees_stufftext :
      (v : List ℕ)
      → IsValue (line v)
      → Agrees N F d (single N token_stufftext (line v)) (0x9 ∷ value_bytes (line v))
  unfolding do_stufftext_message_read_bin id_at is_listed
  agrees_stufftext v h = (
    by_id N F d 0x9 (do_stufftext_message_read_bin N) (value_bytes (line v)) _ refl
        (map-Reads get_next_string _ (value_bytes (line v)) v (text-Reads v h)),
    single-Writes N F token_stufftext 0x9 (line v) (omega arith) refl h,
  )

  pub agrees_setpause :
      (v : ℕ)
      → IsValue (byte v)
      → Agrees N F d (single N token_setpause (byte v)) (0x18 ∷ value_bytes (byte v))
  unfolding do_setpause_message_read_bin id_at is_listed
  agrees_setpause v h = (
    by_id N F d 0x18 (do_setpause_message_read_bin N) (value_bytes (byte v)) _ refl
        (map-Reads read_byte _ (value_bytes (byte v)) v (byte-Reads v)),
    single-Writes N F token_setpause 0x18 (byte v) (omega arith) refl h,
  )

  pub agrees_signonnum :
      (v : ℕ)
      → IsValue (byte v)
      → Agrees N F d (single N token_signonnum (byte v)) (0x19 ∷ value_bytes (byte v))
  unfolding do_signonnum_message_read_bin id_at is_listed
  agrees_signonnum v h = (
    by_id N F d 0x19 (do_signonnum_message_read_bin N) (value_bytes (byte v)) _ refl
        (map-Reads read_byte _ (value_bytes (byte v)) v (byte-Reads v)),
    single-Writes N F token_signonnum 0x19 (byte v) (omega arith) refl h,
  )

  pub agrees_centerprint :
      (v : List ℕ)
      → IsValue (line v)
      → Agrees N F d (single N token_centerprint (line v)) (0x1a ∷ value_bytes (line v))
  unfolding do_centerprint_message_read_bin id_at is_listed
  agrees_centerprint v h = (
    by_id N F d 0x1a (do_centerprint_message_read_bin N) (value_bytes (line v)) _ refl
        (map-Reads get_next_string _ (value_bytes (line v)) v (text-Reads v h)),
    single-Writes N F token_centerprint 0x1a (line v) (omega arith) refl h,
  )

  pub agrees_finale :
      (v : List ℕ)
      → IsValue (line v)
      → Agrees N F d (single N token_finale (line v)) (0x1f ∷ value_bytes (line v))
  unfolding do_finale_message_read_bin id_at is_listed
  agrees_finale v h = (
    by_id N F d 0x1f (do_finale_message_read_bin N) (value_bytes (line v)) _ refl
        (map-Reads get_next_string _ (value_bytes (line v)) v (text-Reads v h)),
    single-Writes N F token_finale 0x1f (line v) (omega arith) refl h,
  )

  pub agrees_cutscene :
      (v : List ℕ)
      → IsValue (line v)
      → Agrees N F d (single N token_cutscene (line v)) (0x22 ∷ value_bytes (line v))
  unfolding do_cutscene_message_read_bin id_at is_listed
  agrees_cutscene v h = (
    by_id N F d 0x22 (do_cutscene_message_read_bin N) (value_bytes (line v)) _ refl
        (map-Reads get_next_string _ (value_bytes (line v)) v (text-Reads v h)),
    single-Writes N F token_cutscene 0x22 (line v) (omega arith) refl h,
  )
