-- ===== src/Dem/RoundTrip/Special.antt =====
-- src/udem.c: the messages that pack two values: stopsound and updatecolors.
use lmpc.Base.{ℕ, ◌+◌, ◌*◌, ◌/◌, ◌%◌, ◌<◌, ◌≡◌, refl, sym, none, [], ◌∷◌, arith}
use mathlib.Core.Path.{subst}
use lmpc.Base.Int.{ℤ, pos, negsuc}
use lmpc.Node.{Node, node, nil, cons, long, chain, v_int}
use lmpc.Binblock.{low_byte, shift_right, put_unsigned_char}
use lmpc.Binblock.Number.{put_short}
use lmpc.Binblock.RoundTrip.{short_bytes}
use lmpc.Binblock.Float.{Floats}
use lmpc.Binblock.Codec.{Writes, byte-Writes, short-Writes, >>-Writes}
use lmpc.Dem.State.{h_simple, h_dem_stopsound, h_dem_updatecolors}
use lmpc.Dem.Token.{
  Numbering, token_stopsound, token_channel, token_entity, token_updatecolors, token_player,
  token_colors,
}
use lmpc.Dem.Read.Plain.{low_bits, channel_of, entity_of}
use lmpc.Dem.Write.Special.{
  do_dem_stopsound_message_write_bin, do_dem_updatecolors_message_write_bin,
}
use lmpc.Dem.Write.Block.{write_message}
use lmpc.Dem.RoundTrip.Table.{id_at}
use lmpc.Dem.RoundTrip.Value.{byte, value_node, id-Writes, value-Writes}

-- Three bits of a channel and thirteen of an entity are all that a short has.
packed_bytes :
    (a : ℤ)
    → short_bytes (pos (low_bits (pos (channel_of a)) 8 + low_bits (pos (entity_of a)) 8192 * 8))
      ≡ short_bytes a
unfolding low_byte shift_right
packed_bytes (pos n) = ground arith
packed_bytes (negsuc n) = ground arith

module _ {D : Type 0} (N : Numbering) (F : Floats D) where
  abbrev pub stopsound_node : ℤ → Node
  stopsound_node a =
      node (N.number token_stopsound) h_dem_stopsound none
        (chain (
          cons
            (node (N.number token_channel) 0 none
              (chain (cons (node v_int 0 none (long (pos (channel_of a))) 0) nil)) 0)
            (cons
              (node (N.number token_entity) 0 none
                (chain (cons (node v_int 0 none (long (pos (entity_of a))) 0) nil)) 0)
              nil)))
        0

  pub stopsound-Writes :
      (a : ℤ) → Writes (write_message N F (stopsound_node a)) (0x10 ∷ short_bytes a)
  unfolding write_message do_dem_stopsound_message_write_bin id_at
  stopsound-Writes a =
      >>-Writes _ _ (0x10 ∷ []) (short_bytes a)
        (id-Writes N F token_stopsound 0x10 (omega arith) refl)
        (subst
          (λ bs.
            Writes
              (put_short
                (pos (low_bits (pos (channel_of a)) 8 + low_bits (pos (entity_of a)) 8192 * 8)))
              bs)
          (packed_bytes a) (short-Writes _))

  abbrev pub updatecolors_node : ℕ → ℕ → Node
  updatecolors_node player colors =
      node (N.number token_updatecolors) h_dem_updatecolors none
        (chain (
          cons
            (node (N.number token_player) h_simple none
              (chain (cons (value_node (byte player)) nil)) 0)
            (cons
              (node (N.number token_colors) 0 none
                (chain (
                  cons (node v_int 0 none (long (pos (colors / 16 % 16))) 0)
                    (cons (node v_int 0 none (long (pos (colors % 16))) 0) nil)))
                0)
              nil)))
        0

  two_nibbles : (c : ℕ) → c < 256 → (c / 16 % 16) % 16 * 16 + c % 16 % 16 ≡ c
  two_nibbles c h = omega arith

  pub updatecolors-Writes :
      (player colors : ℕ)
      → player < 256
      → colors < 256
      → Writes (write_message N F (updatecolors_node player colors)) (0x11 ∷ player ∷ colors ∷ [])
  unfolding write_message do_dem_updatecolors_message_write_bin id_at
  updatecolors-Writes player colors hp hc =
      >>-Writes _ _ (0x11 ∷ []) (player ∷ colors ∷ [])
        (id-Writes N F token_updatecolors 0x11 (omega arith) refl)
        (>>-Writes _ _ (player ∷ []) (colors ∷ []) (value-Writes F (byte player) hp) (
          subst (λ x. Writes (put_unsigned_char x) (colors ∷ [])) (sym (two_nibbles colors hc))
            (byte-Writes colors)))
