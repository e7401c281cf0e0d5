-- ===== src/Dem/RoundTrip/Value.antt =====
-- src/udem.c and src/binblock.c: the nodes that readers make of values, and the writers of messages
-- without values, of one value, and of two commands.
use lmpc.Base.{
  ℕ, ◌^◌, ◌<◌, ◌≡◌, refl, ◌∙◌, sym, true, Option, none, some, List, [], ◌∷◌, ◌++◌, arith,
}
use lmpc.Base.Int.{ℤ, pos}
use mathlib.Core.Path.{subst}
use lmpc.Node.{Node, node, nil, cons, long, float, text, chain, type_of, v_int, v_time, v_string}
use lmpc.Node.Token.{node_token_id, node_token_string}
use lmpc.Binblock.{put_unsigned_char, low_byte}
use lmpc.Binblock.Number.{signed_long}
use lmpc.Binblock.RoundTrip.{short_bytes, long_bytes}
use lmpc.Binblock.Float.{Floats}
use lmpc.Binblock.Hint.{h_byte, h_short, h_long, h_string, h_simple}
use lmpc.Binblock.Codec.{
  Writes, IsLong, IsShort, IsText, byte-Writes, short-Writes, long-Writes, float-Writes,
  text-Writes, >>-Writes, last-Writes,
}
use lmpc.Binblock.Argument.{
  do_simple_argument_write_bin, write_arguments, do_simple_arguments_write_bin, write_commands,
  write_below, do_simple_message_write_bin,
}
use lmpc.Dem.Token.{Numbering, rows, dem_token, table_limit}
use lmpc.Dem.Write.Block.{write_message}
use lmpc.Dem.RoundTrip.Table.{
  id_at, is_listed, is_some, node_token_id-place, node_token_string-place, node_token_string-value,
}

pub data Value : Type 0 where
  byte : ℕ → Value
  word : ℤ → Value
  wide : ℤ → Value
  time : ℕ → Value
  line : List ℕ → Value

abbrev pub IsValue : Value → Type 0
IsValue (byte b) = b < 256
IsValue (word z) = IsShort z
IsValue (wide z) = IsLong z
IsValue (time w) = w < 2 ^ 32
IsValue (line s) = IsText s

-- Numbers lowest byte first, strings up to their zero.
abbrev pub value_bytes : Value → List ℕ
value_bytes (byte b) = b ∷ []
value_bytes (word z) = short_bytes z
value_bytes (wide z) = long_bytes z
value_bytes (time w) = long_bytes (signed_long w)
value_bytes (line s) = s ++ (0 ∷ [])

abbrev pub value_node : Value → Node
value_node (byte b) = node v_int h_byte none (long (pos b)) 0
value_node (word z) = node v_int h_short none (long z) 0
value_node (wide z) = node v_int h_long none (long z) 0
value_node (time w) = node v_time h_simple none (float w) 0
value_node (line s) = node v_string h_string none (text s) 0

some_of {ℓ} : {A : Type ℓ} (o : Option A) → is_some o ≡ true → (a : A) × (o ≡ some a)
some_of none h = cc
some_of (some a) h = (a, refl)

low_byte_self : (b : ℕ) → b < 256 → low_byte (pos b) ≡ b
unfolding low_byte
low_byte_self b h = omega arith

module _ {D : Type 0} (F : Floats D) where
  pub value-Writes :
      (v : Value)
      → IsValue v
      → Writes (do_simple_argument_write_bin F (value_node v) nil) (value_bytes v)
  unfolding do_simple_argument_write_bin
  value-Writes (byte b) h =
      subst (λ x. Writes (put_unsigned_char x) (b ∷ [])) (sym (low_byte_self b h)) (byte-Writes b)
  value-Writes (word z) h = short-Writes z
  value-Writes (wide z) h = long-Writes z
  value-Writes (time w) h = float-Writes w
  value-Writes (line s) h = text-Writes s h

  arguments-Writes :
      (v : Value)
      → IsValue v
      → Writes (do_simple_arguments_write_bin F (cons (value_node v) nil)) (value_bytes v)
  unfolding do_simple_arguments_write_bin write_arguments
  arguments-Writes v h =
      last-Writes (do_simple_argument_write_bin F (value_node v) nil) (value_bytes v)
        (value-Writes v h)

-- A message without values, one of one value, a command of one value, and a message of two.
abbrev pub plain : Numbering → ℕ → Option (List ℕ) → Node
plain N t c = node (N.number t) h_simple c (chain nil) 0

abbrev pub single : Numbering → ℕ → Value → Node
single N t v = node (N.number t) h_simple none (chain (cons (value_node v) nil)) 0

abbrev pub command : Numbering → ℕ → Value → Node
command N t v = node (N.number t) 0 none (chain (cons (value_node v) nil)) 0

abbrev pub double : Numbering → ℕ → ℕ → Value → ℕ → Value → Node
double N t t1 v1 t2 v2 =
    node (N.number t) h_simple none (chain (cons (command N t1 v1) (cons (command N t2 v2) nil))) 0

module _ {D : Type 0} (N : Numbering) (F : Floats D) where
  pub id-Writes :
      (t i : ℕ)
      → t < table_limit
      → id_at rows t ≡ i
      → Writes (put_unsigned_char (node_token_id (dem_token N) (N.number t))) (i ∷ [])
  id-Writes t i ht e =
      subst (λ x. Writes (put_unsigned_char x) (i ∷ [])) (sym (node_token_id-place N t ht ∙ e))
        (byte-Writes i)

  no_text : (v : Value) → node_token_string (dem_token N) (type_of (value_node v)) ≡ none
  no_text (byte b) = node_token_string-value N v_int (omega arith) (omega arith)
  no_text (word z) = node_token_string-value N v_int (omega arith) (omega arith)
  no_text (wide z) = node_token_string-value N v_int (omega arith) (omega arith)
  no_text (time w) = node_token_string-value N v_time (omega arith) (omega arith)
  no_text (line s) = node_token_string-value N v_string (omega arith) (omega arith)

  pub plain-Writes :
      (t i : ℕ) (c : Option (List ℕ))
      → t < table_limit
      → id_at rows t ≡ i
      → Writes (write_message N F (plain N t c)) (i ∷ [])
  unfolding write_message do_simple_message_write_bin write_below
  plain-Writes t i c ht e = last-Writes _ (i ∷ []) (id-Writes t i ht e)

  -- What stands below a message of one value, and of two commands.
  below_single :
      (v : Value)
      → IsValue v
      → Writes (write_below F (dem_token N) (cons (value_node v) nil)) (value_bytes v)
  unfolding write_below
  below_single v h = rw (no_text v, write_below) (arguments-Writes F v h)

  pub single-Writes :
      (t i : ℕ) (v : Value)
      → t < table_limit
      → id_at rows t ≡ i
      → IsValue v
      → Writes (write_message N F (single N t v)) (i ∷ value_bytes v)
  unfolding write_message do_simple_message_write_bin
  single-Writes t i v ht e h =
      >>-Writes _ _ (i ∷ []) (value_bytes v) (id-Writes t i ht e) (below_single v h)

  below_double :
      (t1 t2 : ℕ) (v1 v2 : Value)
      → t1 < table_limit
      → is_listed rows t1 ≡ true
      → IsValue v1
      → IsValue v2
      → Writes
          (write_below F (dem_token N) (cons (command N t1 v1) (cons (command N t2 v2) nil)))
          (value_bytes v1 ++ value_bytes v2)
  unfolding write_below write_commands
  below_double t1 t2 v1 v2 ht l h1 h2 =
      let (s, e) = some_of _ (node_token_string-place N t1 ht ∙ l) in
      rw (e, write_below)
        (>>-Writes _ _ (value_bytes v1) (value_bytes v2) (arguments-Writes F v1 h1)
          (last-Writes _ (value_bytes v2) (arguments-Writes F v2 h2)))

  pub double-Writes :
      (t i t1 t2 : ℕ) (v1 v2 : Value)
      → t < table_limit
      → id_at rows t ≡ i
      → t1 < table_limit
      → is_listed rows t1 ≡ true
      → IsValue v1
      → IsValue v2
      → Writes (write_message N F (double N t t1 v1 t2 v2)) (i ∷ (value_bytes v1 ++ value_bytes v2))
  unfolding write_message do_simple_message_write_bin
  double-Writes t i t1 t2 v1 v2 ht e ht1 l h1 h2 =
      >>-Writes _ _ (i ∷ []) (value_bytes v1 ++ value_bytes v2) (id-Writes t i ht e)
        (below_double t1 t2 v1 v2 ht1 l h1 h2)
