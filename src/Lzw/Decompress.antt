-- ===== src/Lzw/Decompress.antt =====
-- src/unlzw.c, `decompress`.
pub mod Codes
pub mod Total
use lmpc.Base.{
  ℕ, zero, suc, ◌+◌, ◌-◌, ◌*◌, ◌/◌, ◌%◌, ◌^◌, Bool, true, false, List, [], ◌∷◌, ◌++◌, length, ltb,
  leb, ◌==◌, if◌then◌else◌, bit_or, Option, none, some, get_or, not, ◌&&◌,
}
use lmpc.Lzw.Putcode.{maxbits, uint_mod}
use lmpc.Lzw.Compress.{Failure, input_small, undefined_code, output_small, code_size}

-- The variables of the loop. `t_pred` and `t_suff` are functions of the code; `output` is what is in
-- the output buffer, of `o_size` bytes.
pub record State : Type 0 where
  pub input : List ℕ
  pub i_ptr : ℕ
  pub bits : ℕ
  pub buf : ℕ
  pub free_ent : ℕ
  pub n_bits : ℕ
  pub max_code : ℕ
  pub t_pred : ℕ → ℕ
  pub t_suff : ℕ → ℕ
  pub output : List ℕ
  pub o_size : ℕ

unfoldable pub update : (ℕ → ℕ) → ℕ → ℕ → ℕ → ℕ
update f i v j = if j == i then v else f j

-- `do { buf |= i_buf[i_buf_ptr++] << bits; bits += 8; } while (bits < n_bits);` with fuel: two
-- rounds are enough for 15 bits. A byte behind the end of the buffer, which the source reads before
-- it looks at the size, is 0 here: the code that it enters is refused at once.
unfoldable pub fill : ℕ → State → State
fill zero s = s
fill (suc k) s =
    let s' = record s {
      buf = bit_or s.buf (get_or s.input s.i_ptr 0 * 2 ^ s.bits % uint_mod);
      i_ptr = s.i_ptr + 1;
      bits = s.bits + 8;
    } in
    let rest = fill k s' in if ltb s'.bits s.n_bits then rest else s'

-- `while (code >= 256) { stack[stack_ptr++] = t_suff[code]; code = t_pred[code]; }` with fuel: the
-- stack, its top first, and the last code.
unfoldable pub unwind : ℕ → (ℕ → ℕ) → (ℕ → ℕ) → ℕ → List ℕ → Option (ℕ × List ℕ)
unwind zero pred suff code stack = none
unwind (suc k) pred suff code stack =
    let rest = unwind k pred suff (pred code) (suff code ∷ stack) in
    if leb 256 code then rest else some (code, stack)

-- The bytes in the output buffer come with a failure as well.
pub data Decompressed : Type 0 where
  bytes_out : List ℕ → Decompressed
  failed : Failure → List ℕ → Decompressed
  hangs : Decompressed

pub data Round : Type 0 where
  go : State → Round
  stop : Failure → List ℕ → Round
  endless : Round

-- The entries that a code leaves, and the width of the next.
unfoldable pub learn : ℕ → State → State
unfolding update
learn first s =
    let free_ent = s.free_ent + 1 in
    let wider = leb s.max_code free_ent in
    record s {
      t_suff = update (update s.t_suff (s.free_ent - 1) first) s.free_ent first;
      free_ent = free_ent;
      n_bits = if wider then s.n_bits + 1 else s.n_bits;
      max_code = if wider then 2 ^ (s.n_bits + 1) else s.max_code;
    }

-- `if(o_buf_ptr >= o_buf_size) return -5; o_buf[o_buf_ptr++] = ...;` for each of the bytes.
unfoldable pub put_bytes : ℕ → List ℕ → List ℕ → (List ℕ → Round) → Round
put_bytes o_size [] output rest = rest output
put_bytes o_size (b ∷ bs) output rest =
    let next = put_bytes o_size bs (output ++ (b ∷ [])) rest in
    if leb o_size (length output) then stop output_small output else next

-- The bytes of one code, behind the output. `t_pred` has the code already.
unfoldable pub emit : ℕ → State → Round
unfolding put_bytes
emit code s = elim (unwind (2 ^ maxbits) s.t_pred s.t_suff code []) [
  | none ↦ endless
  | some (first, stack) ↦ put_bytes s.o_size (first ∷ stack) s.output λ output.
      let s' = learn first (record s { output = output }) in
      if ltb maxbits s'.n_bits then stop code_size output else go s'
]

-- One round of the outer loop.
unfoldable pub decompress_round : State → Round
decompress_round s =
    let filled = fill 2 s in
    let code = filled.buf % 2 ^ filled.n_bits in
    let s' = record filled {
      buf = filled.buf / 2 ^ filled.n_bits;
      bits = filled.bits - filled.n_bits;
    } in
    let named = record s' { t_pred = update s'.t_pred s'.free_ent code } in
    if ltb (length s.input) s'.i_ptr
    then stop input_small s.output
    else if leb s'.free_ent code
    then stop undefined_code s.output
    else emit code named

-- `do ... while (i_buf_ptr < i_buf_size && free_ent < last_code)`, with fuel.
unfoldable pub decompress_loop : ℕ → ℕ → State → Decompressed
decompress_loop zero last_code s = hangs
decompress_loop (suc k) last_code s = elim (decompress_round s) [
  | endless ↦ hangs
  | stop f out ↦ failed f out
  | go s' ↦
      let rest = decompress_loop k last_code s' in
      if ltb s'.i_ptr (length s'.input) && ltb s'.free_ent last_code
      then rest
      else bytes_out s'.output
]

-- `decompress(i_buf, i_buf_size, o_buf, o_buf_size, last_code, ...)`. Each round takes a byte of the
-- input, so that its size is fuel enough. The tables are static: `pred` and `suff` are what the
-- calls before have left in them.
unfoldable pub decompress : (ℕ → ℕ) → (ℕ → ℕ) → List ℕ → ℕ → ℕ → Decompressed
decompress pred suff input o_size zero =
    if ltb o_size (length input) then failed output_small [] else bytes_out input
decompress pred suff input o_size (suc last_code) =
    decompress_loop (suc (length input)) (suc last_code) (record {
      input = input;
      i_ptr = 0;
      bits = 0;
      buf = 0;
      free_ent = 256;
      n_bits = 9;
      max_code = 2 ^ 9;
      t_pred = pred;
      t_suff = suff;
      output = [];
      o_size = o_size;
    })
