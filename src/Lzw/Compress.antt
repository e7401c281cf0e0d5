-- ===== src/Lzw/Compress.antt =====
-- src/lzw.c, `compress`: the dictionary of pairs of a code and a byte is a hash table with steps of
-- 5003 over 69001 places; an empty place, -1 in the source, is `none`.
use lmpc.Base.{
  ℕ, zero, suc, ◌+◌, ◌*◌, ◌%◌, ◌^◌, List, [], ◌∷◌, length, ltb, leb, ◌==◌, if◌then◌else◌, bit_xor,
  Option, none, some,
}
use lmpc.Lzw.Putcode.{maxbits, Out, putcode, putcode_end, new_buffer}

abbrev pub hsize : ℕ
hsize = 69001

-- The negative values that the two programs return.
pub data Failure : Type 0 where
  code_size input_small undefined_code output_small : Failure

-- `t_hash` and `t_code`, one entry for both.
abbrev pub Table : Type 0
Table = ℕ → Option (ℕ × ℕ)

abbrev pub empty : Table
empty i = none

unfoldable pub insert : Table → ℕ → ℕ → ℕ → Table
insert t i fcode code j = if j == i then some (fcode, code) else t j

abbrev pub fcode_of : ℕ → ℕ → ℕ
fcode_of c ent = c * 2 ^ maxbits + ent

abbrev pub hash_of : ℕ → ℕ → ℕ
hash_of c ent = bit_xor (c * 256) ent

-- `while (t_hash[i] != fcode && t_hash[i] != -1) i = (i + 5003) % HSIZE;` with fuel: the place where
-- the loop ends, with its entry. `none` is a search without end.
unfoldable pub probe : ℕ → Table → ℕ → ℕ → Option (ℕ × Option ℕ)
probe zero t fcode i = none
probe (suc k) t fcode i =
    let next = probe k t fcode ((i + 5003) % hsize) in
    elim (t i) [
      | none ↦ some (i, none)
      | some (f, code) ↦ if f == fcode then some (i, some code) else next
    ]

-- The variables of the loop, and of `putcode`.
pub record State : Type 0 where
  pub table : Table
  pub free_ent : ℕ
  pub ent : ℕ
  pub out : Out

pub data Step : Type 0 where
  go : State → Step
  stop : Failure → Out → Step
  endless : Step

-- One round, for the byte `c`: the pair of `ent` and `c` is in the table, or the code of `ent` goes
-- out and the pair becomes a new entry.
unfoldable pub compress_round : ℕ → State → Step
compress_round c s = elim (probe hsize s.table (fcode_of c s.ent) (hash_of c s.ent)) [
  | none ↦ endless
  | some (i, some code) ↦ go (record s { ent = code })
  | some (i, none) ↦
      let (out, done) = putcode s.free_ent s.ent s.out in
      let s' = record s {
        table = insert s.table i (fcode_of c s.ent) s.free_ent;
        free_ent = s.free_ent + 1;
        ent = c;
        out = out;
      } in
      if done
      then if leb (2 ^ maxbits) (s.free_ent + 1) then stop code_size out else go s'
      else stop output_small out
]

unfoldable pub compress_loop : List ℕ → State → Step
compress_loop [] s = go s
compress_loop (c ∷ cs) s = elim (compress_round c s) [
  | go s' ↦ compress_loop cs s'
  | stop f o ↦ stop f o
  | endless ↦ endless
]

-- What `compress` returns: the buffer and `*used_last_code`, or the failure. Either way the static
-- variables of `putcode` live on.
pub data Compressed : Type 0 where
  done : (used_last_code : ℕ) → Out → Compressed
  stored : (bytes : List ℕ) → Out → Compressed
  failed : Failure → Out → Compressed
  hangs : Compressed
  reads_outside : Compressed

unfoldable pub finish : State → Compressed
finish s =
    let (o1, done1) = putcode s.free_ent s.ent s.out in
    let (o2, done2) = putcode_end o1 in
    if done1
    then if done2 then done (s.free_ent + 1) o2 else failed output_small o2
    else failed output_small o1

-- `compress(o_buf, o_buf_size, i_buf, i_buf_size, last_code, ...)`, with the static variables that
-- the calls before it have left. On an empty input it reads a byte that is not there.
unfoldable pub compress : Out → ℕ → List ℕ → ℕ → Compressed
compress o size [] zero = stored [] (new_buffer size o)
compress o size [] (suc last_code) = reads_outside
compress o size (c ∷ cs) zero =
    if ltb size (suc (length cs))
    then failed output_small (new_buffer size o)
    else stored (c ∷ cs) (new_buffer size o)
compress o size (c ∷ cs) (suc last_code) =
    elim (compress_loop cs
      (record { table = empty; free_ent = 256; ent = c; out = new_buffer size o })) [
        | go s ↦ finish s
        | stop f out ↦ failed f out
        | endless ↦ hangs
      ]
