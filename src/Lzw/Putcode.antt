-- ===== src/Lzw/Putcode.antt =====
-- src/lzw.c, `putcode`: codes of 9 to 15 bits are packed into bytes, lowest bits first.
use lmpc.Base.{
  ℕ, zero, suc, ◌+◌, ◌-◌, ◌*◌, ◌/◌, ◌%◌, ◌^◌, Bool, true, false, List, [], ◌∷◌, ◌++◌, length, ltb,
  leb, if◌then◌else◌, bit_or, ◌&&◌,
}

abbrev pub maxbits : ℕ
maxbits = 15

abbrev pub uint_mod : ℕ
uint_mod = 2 ^ 32

-- The static variables of `putcode`, and the output buffer: its bytes so far and its size.
pub record Out : Type 0 where
  pub n_bits : ℕ
  pub max_code : ℕ
  pub bits : ℕ
  pub buf : ℕ
  pub bytes : List ℕ
  pub size : ℕ

-- What the static variables hold when the program starts.
abbrev pub start : ℕ → Out
start size = record { n_bits = 9; max_code = 2 ^ 9; bits = 0; buf = 0; bytes = []; size = size }

-- A new call of `compress` gives a new buffer and leaves the static variables as they are.
unfoldable pub new_buffer : ℕ → Out → Out
new_buffer size o = record o { bytes = []; size = size }

abbrev pub full : Out → Bool
full o = leb o.size (length o.bytes)

-- `do { if (full) return -1; out_buf[out_buf_ptr++] = buf & 0xff; buf >>= 8; bits -= 8; }
-- while (bits >= 8);`, with fuel. The Boolean tells whether the loop has ended by its test.
unfoldable pub flush : ℕ → Out → Out × Bool
flush zero o = (o, false)
flush (suc k) o =
    let o' = record o {
      bytes = o.bytes ++ (o.buf % 256 ∷ []);
      buf = o.buf / 256;
      bits = o.bits - 8;
    } in
    let rest = flush k o' in
    if full o then (o, false) else if leb 8 o'.bits then rest else (o', true)

-- The width grows when the next free entry does not fit it; false stands for the return of -2.
unfoldable pub widen : ℕ → Out → Out × Bool
widen free_ent o =
    if leb o.max_code free_ent
    then (
      record o { n_bits = o.n_bits + 1; max_code = 2 ^ (o.n_bits + 1) },
      leb (o.n_bits + 1) maxbits,
    )
    else (o, true)

-- `buf |= code << bits; bits += n_bits;`
unfoldable pub append_code : ℕ → Out → Out
append_code code o = record o {
  buf = bit_or o.buf (code * 2 ^ o.bits % uint_mod);
  bits = o.bits + o.n_bits;
}

-- `putcode(code)` for a code that is not negative: the new state, and whether it returned 0. At
-- most 22 bits are in the buffer, so three rounds of `flush` are enough.
unfoldable pub putcode : ℕ → ℕ → Out → Out × Bool
putcode free_ent code o =
    let (wide, fits) = widen free_ent o in
    let (o', flushed) = flush 3 (append_code code wide) in
    if full o
    then (o, false)
    else if fits
    then (o', flushed && leb code free_ent)
    else (wide, false)

-- `putcode(-1)`: the last bits, and the static variables back at their start.
unfoldable pub putcode_end : Out → Out × Bool
putcode_end o =
    let bytes = (if ltb 0 o.bits then o.bytes ++ (o.buf % 256 ∷ []) else o.bytes) in
    if full o
    then (o, false)
    else (record o { bytes = bytes; n_bits = 9; max_code = 2 ^ 9; bits = 0; buf = 0 }, true)
