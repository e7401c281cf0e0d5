-- ===== src/Examples/Quake.antt =====
-- Tests of src/udem.c.
use lmpc.Base.{
  get_elem?, ◌<◌, ℕ, ◌+◌, ◌≡◌, refl, true, none, some, List, [], ◌∷◌, ◌++◌, arith, length,
  replicate,
}
use lmpc.Base.Int.{negsuc, ℤ, pos, ◌+ℤ◌, pos_part, ltb_ℤ}
use lmpc.Base.Text.{codes}
use lmpc.Node.{Node, Nodes, node, nil, cons, chain, text, chain_of, v_string}
use lmpc.Node.Chain.{node_add_down, node_count_next}
use lmpc.Binblock.Text.{until_nul}
use lmpc.Binblock.{Block, ok, fault, shift_left, shift_right, put_unsigned_char}
use lmpc.Binblock.Bytes.{Holds, skip, splice-Holds}
use lmpc.Binblock.Float.{Floats}
use lmpc.Binblock.Forward.{Advances}
use lmpc.Binblock.Number.{signed_long}
use lmpc.Dem.State.{Dem, h_simple}
use lmpc.Dem.Token.{Numbering, token_block, token_stufftext, token_print}
use lmpc.Dem.Analyze.{blocks_loop, are_dem_blocks, is_dem_txt}
use lmpc.Dem.Analyze.Laws.{Raw, raw_bytes, file_bytes, are_dem_blocks-file}
use lmpc.Dem.Analyze.Endless.{blocks_loop-Endless}
use lmpc.Dem.Analyze.Source.{blank, comment, leads, is_dem_txt-leads}
use lmpc.Dem.Edit.{done, dem_block_edit}
use lmpc.Dem.Edit.Laws.{Without, dem_block_edit-Without}
use lmpc.Dem.Block.{Printf, dem_bin_to_node, dem_block_read_bin}
use lmpc.Dem.Write.Block.{dem_block_write_bin}
use lmpc.Dem.Block.Laws.{Ends, dem_bin_to_node-Ends}
use lmpc.Dem.Block.Read.{dem_block_read_bin-raw, dem_block_read_bin-overflows}
use lmpc.Dem.RoundTrip.Message.{Message, nop, setpause, updatefrags, print}
use lmpc.Dem.RoundTrip.Block.{block_bytes}
use lmpc.Dem.RoundTrip.Written.{dem_block_write_bin-dem_bin_to_node}
use lmpc.Binblock.Direction.{vertex_normals, num_vertex_normals, dot, write_dir}
use lmpc.Binblock.Direction.Laws.{Comparison, NoCloser, write_dir-NoCloser}
use lmpc.Dem.Forward.Message.{do_message_read_bin-Advances}
use lmpc.Dem.Read.Message.{do_message_read_bin}

-- A token is its place; numbers in place of floats.
abbrev places : Numbering
places = record { number = λ a. a; injective = λ a b p q e. e; low = λ a p. omega arith }

abbrev pub whole : Floats ℤ
whole = record {
  from_int = λ a. a;
  to_int = λ a. a;
  widen = λ w. signed_long w;
  narrow = λ a. pos_part a;
  lit = λ a b. shift_right a b;
  add = λ a b. a +ℤ b;
  mul = λ a b. shift_left a (pos_part b);
  div = λ a b. shift_right a (pos_part b);
  less = ltb_ℤ;
}

abbrev letters : Printf
letters = record { hex = λ n. n ∷ []; decimal = λ n. n ∷ [] }

abbrev fresh : Dem
fresh = record {
  precache_models = [];
  precache_sounds = [];
  last_health = pos 100;
  last_armor = pos 0;
  last_minus_health = pos 0;
  last_minus_armor = pos 0;
}

-- The messages nop, setpause and print.
abbrev three : Raw
three = record { angles = replicate 12 0; messages = 1 ∷ 24 ∷ 1 ∷ 8 ∷ 104 ∷ 105 ∷ 0 ∷ [] }

abbrev block : List ℕ → Block
block bytes = record { size = length bytes; buffer = bytes; p = 0; end = length bytes; base = 0 }

dem_bin_to_node-Ends_example :
    Ends (dem_bin_to_node places whole letters 1 7 fresh (block (raw_bytes three)))
dem_bin_to_node-Ends_example =
    dem_bin_to_node-Ends places whole letters 1 7 fresh (block (raw_bytes three))

do_message_read_bin-Advances_example : Advances (do_message_read_bin places whole fresh)
do_message_read_bin-Advances_example = do_message_read_bin-Advances places whole fresh

are_dem_blocks-file_example :
    are_dem_blocks 3
      (codes "2\n" ++ file_bytes (three ∷ three ∷ []))
      2
      (length (codes "2\n" ++ file_bytes (three ∷ three ∷ [])))
    ≡ some (some 2)
are_dem_blocks-file_example =
    are_dem_blocks-file 3 (codes "2\n") (three ∷ three ∷ []) (omega arith) (omega arith)

blocks_loop-Endless_example : blocks_loop 1000 (0xF0 ∷ 0xFF ∷ 0xFF ∷ 0xFF ∷ 0 ∷ []) 0 5 0 ≡ none
blocks_loop-Endless_example =
    blocks_loop-Endless 1000 (0xF0 ∷ 0xFF ∷ 0xFF ∷ 0xFF ∷ 0 ∷ []) (0 ∷ []) 0 5 0 refl (omega arith)

is_dem_txt-leads_example :
    is_dem_txt (
      leads (comment (codes " a demo") ∷ blank 10 ∷ []) ++ (codes "track" ++ codes " { \"2\n\"; }"))
    ≡ true
is_dem_txt-leads_example =
    is_dem_txt-leads (comment (codes " a demo") ∷ blank 10 ∷ []) (codes " { \"2\n\"; }")
      (omega arith, (refl, tt)) (omega arith) (omega arith)

-- A message of one string.
abbrev says : ℕ → List ℕ → Node
says t s = node t h_simple none (chain (cons (node v_string 0 none (text s) 0) nil)) 0

abbrev two_levels : Node
two_levels =
    node token_block 0 none
      (chain (
        cons (says token_print (codes "hi"))
          (cons (says token_stufftext (codes "reconnect\n")) nil)))
      0

dem_block_edit-Without_example :
    (rest : Nodes) × Without places (chain_of two_levels) rest
    × (dem_block_edit places 3 true two_levels ≡ done (node_add_down two_levels rest))
unfolding until_nul node_count_next
dem_block_edit-Without_example =
    dem_block_edit-Without places 3 true two_levels (omega arith)
      ((λ h. (codes "hi", refl)), ((λ h. (codes "reconnect\n", refl)), tt)) (omega arith)

abbrev empty : ℕ → Block
empty n = record { size = 0; buffer = replicate n 0; p = 0; end = 0; base = 0 }

dem_block_read_bin-raw_example :
    (m' : Block) × (dem_block_read_bin (codes "2\n" ++ raw_bytes three) 2 (empty 64)
      ≡ ok (2 + 23) m')
    × Holds m'.buffer 0 (raw_bytes three)
    × (m'.p ≡ 0)
    × (m'.end ≡ 23)
    × (m'.size ≡ 23)
    × (m'.base ≡ 2)
dem_block_read_bin-raw_example =
    dem_block_read_bin-raw three (omega arith) (codes "2\n" ++ raw_bytes three) [] 2 (empty 64) refl
      (omega arith) (omega arith)

dem_block_read_bin-overflows_example :
    dem_block_read_bin (codes "2\n" ++ raw_bytes three) 2 (empty 20) ≡ fault
dem_block_read_bin-overflows_example =
    dem_block_read_bin-overflows three (omega arith) (codes "2\n" ++ raw_bytes three) [] 2
      (empty 20) refl (omega arith) (omega arith)

-- A block of three messages, read from a buffer of its length and written into a larger one.
abbrev greeting : List Message
greeting = setpause 1 ∷ updatefrags 2 (negsuc 0) ∷ print (codes "hi") ∷ []

dem_block_write_bin-dem_bin_to_node_example :
    (b : Nodes) × (dem_bin_to_node places whole letters 0 7 fresh
        (block (block_bytes 0 1 2 (nop ∷ greeting)))
      ≡ ok (some (b, fresh)) (skip 27 (block (block_bytes 0 1 2 (nop ∷ greeting)))))
    × (out' : Block) × (dem_block_write_bin places whole b (empty 64)
        ≡ ok (block_bytes 0 1 2 (nop ∷ greeting)) out')
dem_block_write_bin-dem_bin_to_node_example =
    dem_block_write_bin-dem_bin_to_node places whole letters fresh 7 0 1 2 nop greeting
      (block (block_bytes 0 1 2 (nop ∷ greeting))) (empty 64) (omega arith) (omega arith)
      (omega arith) (omega arith) (omega arith)
      (splice-Holds (block_bytes 0 1 2 (nop ∷ greeting)) (replicate 27 0) 0 (omega arith))
      (omega arith) (omega arith)

less_ℤ : Comparison whole
less_ℤ = record {
  asym = λ a b h. ground arith;
  trans = λ a b c h k. ground arith;
  below = λ a b c h k. ground arith;
}

-- The direction upwards, the sixth of the table.
write_dir-NoCloser_example :
    (k : ℕ) × (m : ℕ × ℕ × ℕ) × (k < num_vertex_normals)
    × (get_elem? (vertex_normals whole) k ≡ some m)
    × NoCloser whole less_ℤ (0, 0, 5) (dot whole m (0, 0, 5)) (vertex_normals whole)
    × (write_dir whole (0, 0, 5) ≡ put_unsigned_char k)
unfolding vertex_normals ◌+ℤ◌ shift_left shift_right signed_long
write_dir-NoCloser_example = write_dir-NoCloser whole less_ℤ (0, 0, 5) 5 (0, 0, 1) refl refl
