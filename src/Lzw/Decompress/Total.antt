-- ===== src/Lzw/Decompress/Total.antt =====
-- src/unlzw.c: `decompress` ends on every input, and never writes more than the output buffer holds.
use native.Mathlib.Nat.{pow-le-pow_right}
use lmpc.Base.{
  ℕ, zero, suc, ◌+◌, ◌-◌, ◌/◌, ◌%◌, ◌^◌, ◌<◌, ◌≤◌, ◌≡◌, refl, Bool, List, length, ltb, leb,
  if◌then◌else◌, ◌&&◌, arith, Bool-cases, inl, inr, ◌∙◌, ap,
}
use lmpc.Lzw.Putcode.{maxbits}
use lmpc.Lzw.Decompress.{
  State, update, fill, Decompressed, bytes_out, failed, hangs, Round, go, stop, endless,
  decompress_round, decompress_loop, decompress,
}
use lmpc.Lzw.Decompress.Codes.{Valid, Kept, Falls-update, Named, After, emit-After}

-- The bits for a code are there after two bytes at most, and nothing else has changed.
record Filled (s s' : State) : Type 0 where
  enough : s.n_bits ≤ s'.bits
  little : s'.bits < s.n_bits + 8
  more : s.i_ptr < s'.i_ptr
  same_free : s'.free_ent ≡ s.free_ent
  same_n : s'.n_bits ≡ s.n_bits
  same_max : s'.max_code ≡ s.max_code
  same_pred : s'.t_pred ≡ s.t_pred
  same_input : s'.input ≡ s.input
  same_output : s'.output ≡ s.output
  same_size : s'.o_size ≡ s.o_size

fill-Filled : (s : State) → s.bits < 8 → 9 ≤ s.n_bits → s.n_bits ≤ maxbits → Filled s (fill 2 s)
unfolding fill
fill-Filled s b lo hi = ground arith

-- The state in which the code that has been read is emitted.
abbrev named : State → ℕ → State
named s code = record s {
  buf = s.buf / 2 ^ s.n_bits;
  bits = s.bits - s.n_bits;
  t_pred = update s.t_pred s.free_ent code;
}

named-Named :
    (s s' : State) (code : ℕ)
    → Valid s
    → Filled s s'
    → code < s'.free_ent
    → Named code (named s' code)
named-Named s s' code v f known = record {
  room = omega (arith, v.room, f.same_free);
  below = rw (f.same_free, f.same_max) v.below;
  width = rw f.same_n v.width;
  wide = rw f.same_n v.wide;
  max_is = rw (f.same_max, f.same_n) v.max_is;
  few_bits = omega (arith, f.little, f.same_n);
  falls = Falls-update s'.t_pred s'.free_ent code (rw (f.same_pred, f.same_free) v.falls) known;
  known = known;
  entries = omega (
    arith,
    f.same_free,
    v.below,
    v.max_is,
    pow-le-pow_right {n = 2} (omega arith) {i = s.n_bits} {j = maxbits} v.width,
  );
}

After→Kept :
    (s s' : State) (r : Round) → Filled s s' → (code : ℕ) → After (named s' code) r → Kept s r
After→Kept s s' (go t) f code (v, ptr, input, size) =
    (v, rw ptr f.more, input ∙ f.same_input, size ∙ f.same_size)
After→Kept s s' (stop x out) f code a = omega (arith, f.same_size)
After→Kept s s' endless f code a = absurd a

-- A round from a valid state never goes on for ever: it fails, or it leads to a valid state and has
-- taken a byte.
decompress_round-Kept : (s : State) → Valid s → Kept s (decompress_round s)
unfolding decompress_round
decompress_round-Kept s v =
    let s' = fill 2 s in
    let f = fill-Filled s v.few_bits v.wide v.width in
    let code = s'.buf % 2 ^ s'.n_bits in
    elim (Bool-cases (ltb (length s.input) s'.i_ptr)) [
      | inl short ↦ rw short v.fits
      | inr enough ↦ rw enough (elim (Bool-cases (leb s'.free_ent code)) [
        | inl undefined ↦ rw undefined v.fits
        | inr known ↦ rw known (
            After→Kept s s' _ f code (
              emit-After code (named s' code) (named-Named s s' code v f (ground arith))
                (rw (f.same_output, f.same_size) v.fits)))
      ])
    ]

-- What a run ends with: never without end, and, successful or not, never with more bytes than the
-- buffer holds.
abbrev pub Ends : ℕ → Decompressed → Type 0
Ends o_size (bytes_out out) = length out ≤ o_size
Ends o_size (failed f out) = length out ≤ o_size
Ends o_size hangs = ⊥

Loops : ℕ → ℕ → Type 0
Loops k last_code =
    (s : State)
    → Valid s
    → s.i_ptr ≤ length s.input
    → length s.input < k + s.i_ptr
    → Ends s.o_size (decompress_loop k last_code s)

loop_step :
    (k last_code : ℕ) (s : State) (r : Round)
    → Loops k last_code
    → length s.input < suc k + s.i_ptr
    → Kept s r
    → Ends s.o_size (elim r [
      | endless ↦ hangs
      | stop f out ↦ failed f out
      | go s' ↦
          let rest = decompress_loop k last_code s' in
          if ltb s'.i_ptr (length s'.input) && ltb s'.free_ent last_code
          then rest
          else bytes_out s'.output
    ])
unfolding Loops
loop_step k last_code s endless rec fuel kept = absurd kept
loop_step k last_code s (stop f out) rec fuel kept = kept
loop_step k last_code s (go s') rec fuel (v, more, input, size) =
    let left : Bool = ltb s'.i_ptr (length s'.input) && ltb s'.free_ent last_code in
    elim (Bool-cases left) [
      | inl e ↦ rw (e, ← size) (rec s' v (ground arith) (omega (arith, ap length input)))
      | inr e ↦ rw e (omega (arith, v.fits, size))
    ]

decompress_loop-Ends : (k last_code : ℕ) → Loops k last_code
unfolding Loops decompress_loop
decompress_loop-Ends zero last_code s v h fuel = absurd (omega arith)
decompress_loop-Ends (suc k) last_code s v h fuel =
    loop_step k last_code s (decompress_round s) (decompress_loop-Ends k last_code) fuel
      (decompress_round-Kept s v)

-- `decompress` comes to an end on every input, well formed or not, with whatever the calls before it
-- have left in its tables, and what it writes fits the output buffer: the fuel of its loops, one
-- round more than bytes and one step for each of the 2 ^ 15 codes, is enough.
pub decompress-Ends :
    (pred suff : ℕ → ℕ) (input : List ℕ) (o_size last_code : ℕ)
    → Ends o_size (decompress pred suff input o_size last_code)
unfolding decompress
decompress-Ends pred suff input o_size zero = elim (Bool-cases (ltb o_size (length input))) [
  | inl e ↦ rw e (omega arith)
  | inr e ↦ rw e (ground arith)
]
decompress-Ends pred suff input o_size (suc last_code) =
    unfold Loops in
    decompress_loop-Ends (suc (length input)) (suc last_code) _
      (record {
        room = omega arith;
        below = omega arith;
        width = omega arith;
        wide = omega arith;
        max_is = refl;
        few_bits = omega arith;
        falls = λ c lo hi. absurd (omega arith);
        fits = omega arith;
      })
      (omega arith) (omega arith)
