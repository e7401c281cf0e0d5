-- ===== src/Lzw/Decompress/Codes.antt =====
-- src/unlzw.c: unwinding a code ends, and emitting one keeps the tables in order.
use native.Mathlib.Nat.{pow-suc}
use native.Mathlib.Numerals.{add-one}
use lmpc.Base.{
  ℕ, zero, suc, ◌+◌, ◌-◌, ◌*◌, ◌^◌, ◌<◌, ◌≤◌, ◌≡◌, refl, false, List, [], ◌∷◌, ◌++◌, length, ltb,
  leb, leb→le, Option, none, some, arith, Bool-cases, inl, inr, length-append,
}
use lmpc.Lzw.Putcode.{maxbits}
use lmpc.Lzw.Decompress.{State, update, unwind, Round, go, stop, endless, learn, put_bytes, emit}

-- Every entry below `lim` leads to a lower code.
abbrev Falls : (ℕ → ℕ) → ℕ → Type 0
Falls pred lim = (c : ℕ) → 256 ≤ c → c < lim → pred c < c

-- Unwinding a code ends at a byte, and puts at most as many bytes on the stack as there are entries
-- up to the code.
abbrev Unwound : Option (ℕ × List ℕ) → ℕ → Type 0
Unwound none n = ⊥
Unwound (some (first, stack)) n = (first < 256) × (length stack ≤ n)

Unwound-mono : (o : Option (ℕ × List ℕ)) (n m : ℕ) → n ≤ m → Unwound o n → Unwound o m
Unwound-mono none n m h u = u
Unwound-mono (some (first, stack)) n m h u = (u.0, omega arith)

Unwound-some :
    (o : Option (ℕ × List ℕ)) (n : ℕ)
    → Unwound o n
    → (first : ℕ) × (stack : List ℕ) × (o ≡ some (first, stack))
Unwound-some none n u = absurd u
Unwound-some (some (first, stack)) n u = (first, stack, refl)

unwind-Unwound :
    (k : ℕ) (pred suff : ℕ → ℕ) (code : ℕ) (stack : List ℕ) (lim : ℕ)
    → Falls pred lim
    → code < lim
    → 0 < k
    → code < k + 255
    → Unwound (unwind k pred suff code stack) (length stack + (code - 255))
unfolding unwind
unwind-Unwound zero pred suff code stack lim falls h pos bound = absurd (omega arith)
unwind-Unwound (suc k) pred suff code stack lim falls h pos bound =
    elim (Bool-cases (leb 256 code)) [
      | inl e ↦
          let lower : pred code < code = falls code (leb→le 256 code e) h in
          let high : 256 ≤ code = leb→le 256 code e in
          rw e (
            Unwound-mono _ (length (suff code ∷ stack) + (pred code - 255)) _ (omega arith) (
              unwind-Unwound k pred suff (pred code) (suff code ∷ stack) lim falls (omega arith)
                (omega arith) (omega arith)))
      | inr e ↦ rw e (ground arith, omega arith)
    ]

-- The state between two rounds.
pub record Valid (s : State) : Type 0 where
  pub room : 256 ≤ s.free_ent
  pub below : s.free_ent < s.max_code
  pub width : s.n_bits ≤ maxbits
  pub wide : 9 ≤ s.n_bits
  pub max_is : s.max_code ≡ 2 ^ s.n_bits
  pub few_bits : s.bits < 8
  pub falls : Falls s.t_pred s.free_ent
  pub fits : length s.output ≤ s.o_size

abbrev pub Kept : State → Round → Type 0
Kept s (go s') = Valid s' × (s.i_ptr < s'.i_ptr) × (s'.input ≡ s.input) × (s'.o_size ≡ s.o_size)
Kept s (stop f out) = length out ≤ s.o_size
Kept s endless = ⊥

pow-add_one : (n : ℕ) → 2 ^ (n + 1) ≡ 2 * 2 ^ n
pow-add_one n = rw (add-one n, pow-suc 2 n) (omega arith)

-- The tables after a code: its entry falls.
pub Falls-update :
    (pred : ℕ → ℕ) (free code : ℕ)
    → Falls pred free
    → code < free
    → Falls (update pred free code) (free + 1)
unfolding update
Falls-update pred free code falls h c lo hi = ground (arith, falls c)

-- What holds inside a round, when the code has been read and its entry made.
pub record Named (code : ℕ) (s : State) : Type 0 where
  pub room : 256 ≤ s.free_ent
  pub below : s.free_ent < s.max_code
  pub width : s.n_bits ≤ maxbits
  pub wide : 9 ≤ s.n_bits
  pub max_is : s.max_code ≡ 2 ^ s.n_bits
  pub few_bits : s.bits < 8
  pub falls : Falls s.t_pred (s.free_ent + 1)
  pub known : code < s.free_ent
  pub entries : s.free_ent < 2 ^ maxbits

learn-Valid :
    (first code : ℕ) (s : State) (output : List ℕ)
    → Named code s
    → length output ≤ s.o_size
    → ltb maxbits (learn first (record s { output = output })).n_bits ≡ false
    → Valid (learn first (record s { output = output }))
unfolding learn
learn-Valid first code s output v fits narrow =
    elim (Bool-cases (leb s.max_code (s.free_ent + 1))) [
      | inl e ↦ record {
        room = ground arith;
        below = ground (arith, v.below, v.max_is, pow-add_one s.n_bits);
        width = ground arith;
        wide = ground (arith, v.wide);
        max_is = ground arith;
        few_bits = v.few_bits;
        falls = v.falls;
        fits = fits;
      }
      | inr e ↦ record {
        room = ground arith;
        below = ground arith;
        width = ground arith;
        wide = ground (arith, v.wide);
        max_is = ground (arith, v.max_is);
        few_bits = v.few_bits;
        falls = v.falls;
        fits = fits;
      }
    ]

-- What a code leaves: a valid state that has read no further, or a failure.
abbrev pub After : State → Round → Type 0
After s (go s') = Valid s' × (s'.i_ptr ≡ s.i_ptr) × (s'.input ≡ s.input) × (s'.o_size ≡ s.o_size)
After s (stop f out) = length out ≤ s.o_size
After s endless = ⊥

-- Storing the bytes one by one keeps to the buffer, whether it fails or goes on.
put_bytes-After :
    (s : State) (bs output : List ℕ) (rest : List ℕ → Round)
    → length output ≤ s.o_size
    → ((out : List ℕ) → length out ≤ s.o_size → After s (rest out))
    → After s (put_bytes s.o_size bs output rest)
unfolding put_bytes
put_bytes-After s [] output rest h k = k output h
put_bytes-After s (b ∷ bs) output rest h k = elim (Bool-cases (leb s.o_size (length output))) [
  | inl full ↦ rw full h
  | inr free ↦
      let one_more : length (output ++ (b ∷ [])) ≤ s.o_size =
        ground (arith, length-append output (b ∷ [])) in
      rw free (put_bytes-After s bs (output ++ (b ∷ [])) rest one_more k)
]

pub emit-After :
    (code : ℕ) (s : State) → Named code s → length s.output ≤ s.o_size → After s (emit code s)
unfolding learn emit
emit-After code s v room =
    let u =
      unwind-Unwound (2 ^ maxbits) s.t_pred s.t_suff code [] (s.free_ent + 1) v.falls
        (omega (arith, v.known)) (omega arith) (omega (arith, v.known, v.entries)) in
    let (first, stack, e) = Unwound-some _ _ u in
    rw (e, emit)
      (put_bytes-After s (first ∷ stack) s.output _ room λ output fits.
        elim (Bool-cases (ltb maxbits (learn first (record s { output = output })).n_bits)) [
          | inl wide ↦ rw wide fits
          | inr narrow ↦ rw narrow (learn-Valid first code s output v fits narrow, refl, refl, refl)
        ])
