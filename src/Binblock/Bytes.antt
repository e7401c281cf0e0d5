-- ===== src/Binblock/Bytes.antt =====
-- What the accessors of src/binblock.c do to the bytes at the cursor: a read depends on those bytes
-- alone, and a write leaves a block that holds them.
use lmpc.Base.{
  ℕ, zero, suc, ◌+◌, ◌<◌, ◌≤◌, ◌≡◌, ◌≢◌, refl, ap, ◌∙◌, some, List, [], ◌∷◌, arith, get_elem?, set,
  length, length-set, lt→ltb,
}
use lmpc.Binblock.{
  Block, ok, Cmd, peek, get_next_unsigned_char, get_next_signed_char, put_unsigned_char,
  signed_char, pure, ◌>>◌,
}

-- The bytes `bs` stand in `buf` from offset `i` on.
abbrev pub Holds : List ℕ → ℕ → List ℕ → Type 0
Holds buf i [] = Unit
Holds buf i (b ∷ bs) = (get_elem? buf i ≡ some b) × Holds buf (i + 1) bs

-- `buf` with the bytes `bs` from offset `i` on.
abbrev pub splice : List ℕ → ℕ → List ℕ → List ℕ
splice buf i [] = buf
splice buf i (b ∷ bs) = splice (set buf i b) (i + 1) bs

-- The block after the bytes have been written, one by one; the block after `n` bytes have been
-- read; and the block with its cursor back at `i`.
abbrev pub written : List ℕ → Block → Block
written [] m = m
written (b ∷ bs) m = written bs (record m { buffer = set m.buffer m.p b; p = m.p + 1 })

abbrev pub back_to : ℕ → Block → Block
back_to i m = record m { p = i }

abbrev pub skip : ℕ → Block → Block
skip zero m = m
skip (suc n) m = skip n (back_to (m.p + 1) m)

get_elem?-set_self : (xs : List ℕ) (i v : ℕ) → i < length xs → get_elem? (set xs i v) i ≡ some v
get_elem?-set_self [] i v h = elim h [ ]
get_elem?-set_self (x ∷ xs) zero v h = refl
get_elem?-set_self (x ∷ xs) (suc i) v h = get_elem?-set_self xs i v (omega arith)

get_elem?-set_ne : (xs : List ℕ) (i j v : ℕ) → i ≢ j → get_elem? (set xs i v) j ≡ get_elem? xs j
get_elem?-set_ne [] i j v h = refl
get_elem?-set_ne (x ∷ xs) zero zero v h = absurd (h refl)
get_elem?-set_ne (x ∷ xs) zero (suc j) v h = refl
get_elem?-set_ne (x ∷ xs) (suc i) zero v h = refl
get_elem?-set_ne (x ∷ xs) (suc i) (suc j) v h = get_elem?-set_ne xs i j v (λ e. h (ap suc e))

-- A write touches the bytes from `i` on, as many as are written, and no other.
pub get_elem?-splice_below :
    (bs buf : List ℕ) (i j : ℕ) → j < i → get_elem? (splice buf i bs) j ≡ get_elem? buf j
get_elem?-splice_below [] buf i j h = refl
get_elem?-splice_below (b ∷ bs) buf i j h =
    get_elem?-splice_below bs (set buf i b) (i + 1) j (omega arith)
    ∙ get_elem?-set_ne buf i j b (omega arith)

pub get_elem?-splice_above :
    (bs buf : List ℕ) (i j : ℕ)
    → i + length bs ≤ j
    → get_elem? (splice buf i bs) j ≡ get_elem? buf j
get_elem?-splice_above [] buf i j h = refl
get_elem?-splice_above (b ∷ bs) buf i j h =
    get_elem?-splice_above bs (set buf i b) (i + 1) j (omega arith)
    ∙ get_elem?-set_ne buf i j b (omega arith)

pub length-splice : (bs buf : List ℕ) (i : ℕ) → length (splice buf i bs) ≡ length buf
length-splice [] buf i = refl
length-splice (b ∷ bs) buf i = length-splice bs (set buf i b) (i + 1) ∙ length-set buf i b

pub splice-Holds :
    (bs buf : List ℕ) (i : ℕ) → i + length bs ≤ length buf → Holds (splice buf i bs) i bs
splice-Holds [] buf i h = tt
splice-Holds (b ∷ bs) buf i h = (
  get_elem?-splice_below bs (set buf i b) (i + 1) i (omega arith)
      ∙ get_elem?-set_self buf i b (omega arith),
  splice-Holds bs (set buf i b) (i + 1) (omega (arith, length-set buf i b)),
)

pub written-buffer : (bs : List ℕ) (m : Block) → (written bs m).buffer ≡ splice m.buffer m.p bs
written-buffer [] m = refl
written-buffer (b ∷ bs) m =
    written-buffer bs (record m { buffer = set m.buffer m.p b; p = m.p + 1 })

pub written-p : (bs : List ℕ) (m : Block) → (written bs m).p ≡ m.p + length bs
written-p [] m = omega arith
written-p (b ∷ bs) m =
    omega (arith, written-p bs (record m { buffer = set m.buffer m.p b; p = m.p + 1 }))

pub skip-back_to : (n : ℕ) (m : Block) → skip n m ≡ back_to (m.p + n) m
skip-back_to zero m = ground arith
skip-back_to (suc n) m = skip-back_to n (back_to (m.p + 1) m) ∙ ground arith

skip-written :
    (bs : List ℕ) (m : Block) → skip (length bs) (back_to m.p (written bs m)) ≡ written bs m
skip-written bs m =
    skip-back_to (length bs) (back_to m.p (written bs m)) ∙ ground (arith, written-p bs m)

-- The single-byte accessors, at a byte that the block holds and where there is room.
pub get_next_unsigned_char-Holds :
    (m : Block) {b : ℕ}
    → get_elem? m.buffer m.p ≡ some b
    → get_next_unsigned_char m ≡ ok b (skip 1 m)
unfolding get_next_unsigned_char peek
get_next_unsigned_char-Holds m h = ground arith

pub get_next_signed_char-Holds :
    (m : Block) {b : ℕ}
    → get_elem? m.buffer m.p ≡ some b
    → get_next_signed_char m ≡ ok (signed_char b) (skip 1 m)
unfolding get_next_signed_char peek
get_next_signed_char-Holds m h = ground arith

pub put_unsigned_char-written :
    (a : ℕ) (m : Block) → m.p < length m.buffer → put_unsigned_char a m ≡ ok tt (written (a ∷ []) m)
unfolding put_unsigned_char
put_unsigned_char-written a m h = rw (lt→ltb _ _ h)

-- A row of byte writes.
abbrev pub put_bytes : List ℕ → Cmd (Unit {0})
put_bytes [] = pure tt
put_bytes (b ∷ []) = put_unsigned_char b
put_bytes (b ∷ c ∷ bs) = put_unsigned_char b >> put_bytes (c ∷ bs)

pub put_bytes-written :
    (bs : List ℕ) (m : Block)
    → m.p + length bs ≤ length m.buffer
    → put_bytes bs m ≡ ok tt (written bs m)
put_bytes-written [] m h = refl
put_bytes-written (b ∷ []) m h = put_unsigned_char-written b m (omega arith)
put_bytes-written (b ∷ c ∷ bs) m h =
    rw (put_unsigned_char-written b m (omega arith))
      (put_bytes-written (c ∷ bs) (written (b ∷ []) m) (omega (arith, length-set m.buffer m.p b)))

-- The round trip through a block: the write succeeds and moves the cursor by `n`, the read from
-- the old cursor gives `a` and stops where the write did, and no other byte has changed.
abbrev pub RoundTrips {ℓ} : {A : Type ℓ} → Cmd (Unit {0}) → Cmd A → A → ℕ → Block → Type ℓ
RoundTrips put get a n m =
    (m' : Block) × (put m ≡ ok tt m')
    × (m'.p ≡ m.p + n)
    × (get (back_to m.p m') ≡ ok a m')
    × ((j : ℕ) → j < m.p → get_elem? m'.buffer j ≡ get_elem? m.buffer j)
    × ((j : ℕ) → m.p + n ≤ j → get_elem? m'.buffer j ≡ get_elem? m.buffer j)

-- A writer that leaves `bs` and a reader that reads `a` from `bs` make a round trip.
pub round_trip {ℓ} :
    {A : Type ℓ} (put : Cmd (Unit {0})) (get : Cmd A) (a : A) (bs : List ℕ) (m : Block)
    → put m ≡ ok tt (written bs m)
    → m.p + length bs ≤ length m.buffer
    → ((m' : Block) → Holds m'.buffer m'.p bs → get m' ≡ ok a (skip (length bs) m'))
    → RoundTrips put get a (length bs) m
round_trip put get a bs m w room r = (
  written bs m,
  w,
  written-p bs m,
  r (back_to m.p (written bs m)) (rw (written-buffer bs m) (splice-Holds bs m.buffer m.p room))
      ∙ ap (ok a) (skip-written bs m),
  λ j h. rw (written-buffer bs m) (get_elem?-splice_below bs m.buffer m.p j h),
  λ j h. rw (written-buffer bs m) (get_elem?-splice_above bs m.buffer m.p j h),
)
