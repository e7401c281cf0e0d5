-- ===== src/Binblock/Codec.antt =====
-- src/binblock.c: a reader and the bytes that it reads, a writer and the bytes that it writes.
use lmpc.Base.{
  ℕ, suc, ◌+◌, ◌-◌, ◌^◌, ◌<◌, ◌≤◌, ◌≡◌, ◌≢◌, ◌∙◌, refl, ap, sym, List, [], ◌∷◌, ◌++◌, arith, length,
  All, length-append,
}
use mathlib.Core.Path.{subst}
use lmpc.Base.Int.{ℤ, pos, negsuc, ◌≤ℤ◌}
use lmpc.Binblock.{
  Block, Cmd, ok, and_then, ◌>>=◌, ◌>>◌, pure, get_next_unsigned_char, put_unsigned_char,
}
use lmpc.Binblock.Bytes.{
  Holds, written, skip, back_to, skip-back_to, get_next_unsigned_char-Holds,
  put_unsigned_char-written, written-p, written-buffer, length-splice,
}
use lmpc.Binblock.Number.{
  signed_long, get_next_short, put_short, get_next_long, put_long, get_next_float, put_float,
}
use lmpc.Binblock.RoundTrip.{
  short_bytes, long_bytes, long_value, short_value, float_value, put_long-written,
  put_short-written, get_next_long-Holds, get_next_short-Holds, get_next_float-Holds,
}
use lmpc.Binblock.Text.{until_nul, get_next_string, put_string, string_limit}
use lmpc.Binblock.Text.RoundTrip.{get_next_string-Holds, put_chars-written, take-all}

-- From a block that holds `bs` at the cursor, `c` reads `a` and leaves the cursor behind them.
pub data Reads {ℓ} {A : Type ℓ} (c : Cmd A) (bs : List ℕ) (a : A) : Type ℓ where
  reads : ((m : Block) → Holds m.buffer m.p bs → c m ≡ ok a (skip (length bs) m)) → Reads c bs a

-- Into a block with room for them, `c` writes `bs` at the cursor, and nothing else.
pub data Writes (c : Cmd (Unit {0})) (bs : List ℕ) : Type 0 where
  writes :
      ((m : Block) → m.p + length bs ≤ length m.buffer → c m ≡ ok tt (written bs m)) → Writes c bs

pub Reads-run {ℓ} :
    {A : Type ℓ} {c : Cmd A} {bs : List ℕ} {a : A}
    → Reads c bs a
    → (m : Block) → Holds m.buffer m.p bs
    → c m ≡ ok a (skip (length bs) m)
Reads-run (reads h) = h

pub Writes-run :
    {c : Cmd (Unit {0})} {bs : List ℕ}
    → Writes c bs
    → (m : Block) → m.p + length bs ≤ length m.buffer
    → c m ≡ ok tt (written bs m)
Writes-run (writes h) = h

Holds-at : (i j : ℕ) (cs buf : List ℕ) → i ≡ j → Holds buf i cs → Holds buf j cs
Holds-at i j cs buf e h = subst (λ n. Holds buf n cs) e h

moved : (i n : ℕ) → i + 1 + n ≡ i + suc n
moved i n = omega arith

pub Holds-skip :
    (n : ℕ) (cs : List ℕ) (m : Block)
    → Holds m.buffer (m.p + n) cs
    → Holds (skip n m).buffer (skip n m).p cs
Holds-skip n cs m h = subst (λ x. Holds x.buffer x.p cs) (sym (skip-back_to n m)) h

pub Holds-append :
    (bs cs buf : List ℕ) (i : ℕ)
    → Holds buf i (bs ++ cs)
    → Holds buf i bs × Holds buf (i + length bs) cs
Holds-append [] cs buf i h = (tt, Holds-at i (i + 0) cs buf (omega arith) h)
Holds-append (b ∷ bs) cs buf i (h, hs) =
    let (left, right) = Holds-append bs cs buf (i + 1) hs in
    ((h, left), Holds-at _ _ cs buf (moved i (length bs)) right)

pub skip-append :
    (bs cs : List ℕ) (m : Block)
    → skip (length cs) (skip (length bs) m) ≡ skip (length (bs ++ cs)) m
skip-append bs cs m =
    ap (skip (length cs)) (skip-back_to (length bs) m)
    ∙ skip-back_to (length cs) (back_to (m.p + length bs) m)
    ∙ ap (λ n. back_to n m) (omega (arith, length-append bs cs))
    ∙ sym (skip-back_to (length (bs ++ cs)) m)

pub written-append : (bs cs : List ℕ) (m : Block) → written cs (written bs m) ≡ written (bs ++ cs) m
written-append [] cs m = refl
written-append (b ∷ bs) cs m = written-append bs cs _

module _ {ℓ} {A : Type ℓ} where
  pub pure-Reads : (a : A) → Reads (pure a) [] a
  pure-Reads a = reads (λ m h. refl)

pub >>=-Reads {ℓ κ} :
    {A : Type ℓ} {B : Type κ} (c : Cmd A) (k : A → Cmd B) (bs cs : List ℕ) (a : A) (b : B)
    → Reads c bs a
    → Reads (k a) cs b
    → Reads (c >>= k) (bs ++ cs) b
>>=-Reads c k bs cs a b h h' = reads λ m holds.
    let (left, right) = Holds-append bs cs m.buffer m.p holds in
    ap (λ x. and_then x k) (Reads-run h m left)
    ∙ Reads-run h' (skip (length bs) m) (Holds-skip (length bs) cs m right)
    ∙ ap (ok b) (skip-append bs cs m)

-- The last step of a reader or of a writer, after which nothing is read or written.
pub map-Reads {ℓ κ} :
    {A : Type ℓ} {B : Type κ} (c : Cmd A) (f : A → B) (bs : List ℕ) (a : A)
    → Reads c bs a
    → Reads (c >>= λ x. pure (f x)) bs (f a)
map-Reads c f bs a h =
    reads (λ m holds. ap (λ x. and_then x (λ y. pure (f y))) (Reads-run h m holds))

pub last-Writes : (c : Cmd (Unit {0})) (bs : List ℕ) → Writes c bs → Writes (c >> pure tt) bs
last-Writes c bs h = writes (λ m room. ap (λ x. and_then x (λ _. pure tt)) (Writes-run h m room))

pub pure-Writes : Writes (pure tt) []
pure-Writes = writes (λ m h. refl)

pub >>-Writes :
    (c d : Cmd (Unit {0})) (bs cs : List ℕ) → Writes c bs → Writes d cs → Writes (c >> d) (bs ++ cs)
>>-Writes c d bs cs h h' = writes λ m room.
    ap (λ x. and_then x (λ _. d)) (Writes-run h m (omega (arith, length-append bs cs)))
    ∙ Writes-run h' (written bs m) (
        omega (
          arith,
          length-append bs cs,
          written-p bs m,
          ap length (written-buffer bs m),
          length-splice bs m.buffer m.p,
        ))
    ∙ ap (ok tt) (written-append bs cs m)

-- The accessors.
pub byte-Reads : (b : ℕ) → Reads get_next_unsigned_char (b ∷ []) b
byte-Reads b = reads (λ m h. get_next_unsigned_char-Holds m h.0)

pub byte-Writes : (b : ℕ) → Writes (put_unsigned_char b) (b ∷ [])
byte-Writes b = writes (λ m h. put_unsigned_char-written b m (omega arith))

abbrev pub IsLong : ℤ → Type 0
IsLong a = (negsuc (2 ^ 31 - 1) ≤ℤ a) × (a ≤ℤ pos (2 ^ 31 - 1))

abbrev pub IsShort : ℤ → Type 0
IsShort a = (negsuc (2 ^ 15 - 1) ≤ℤ a) × (a ≤ℤ pos (2 ^ 15 - 1))

abbrev pub IsText : List ℕ → Type 0
IsText s = All (λ b. b ≢ 0) s × (length s ≤ string_limit)

pub long-Reads : (a : ℤ) → IsLong a → Reads get_next_long (long_bytes a) a
long-Reads a (lo, hi) =
    reads λ m h. get_next_long-Holds _ _ _ _ m h ∙ ap (λ v. ok v (skip 4 m)) (long_value a lo hi)

pub long-Writes : (a : ℤ) → Writes (put_long a) (long_bytes a)
long-Writes a = writes (λ m h. put_long-written a m h)

pub short-Reads : (a : ℤ) → IsShort a → Reads get_next_short (short_bytes a) a
short-Reads a (lo, hi) =
    reads λ m h. get_next_short-Holds _ _ m h ∙ ap (λ v. ok v (skip 2 m)) (short_value a lo hi)

pub short-Writes : (a : ℤ) → Writes (put_short a) (short_bytes a)
short-Writes a = writes (λ m h. put_short-written a m h)

pub float-Reads : (w : ℕ) → w < 2 ^ 32 → Reads get_next_float (long_bytes (signed_long w)) w
float-Reads w below =
    reads λ m h. get_next_float-Holds _ _ _ _ m h ∙ ap (λ v. ok v (skip 4 m)) (float_value w below)

pub float-Writes : (w : ℕ) → Writes (put_float w) (long_bytes (signed_long w))
unfolding put_float
float-Writes w = long-Writes (signed_long w)

pub text-Reads : (s : List ℕ) → IsText s → Reads get_next_string (s ++ (0 ∷ [])) s
text-Reads s (nz, short) = reads (λ m h.
    get_next_string-Holds s m nz h
    ∙ rw (take-all string_limit s short, skip-back_to, length-append) (ground arith))

until_nul-nonzero_self : (s : List ℕ) → All (λ b. b ≢ 0) s → until_nul s ≡ s
unfolding until_nul
until_nul-nonzero_self [] h = refl
until_nul-nonzero_self (b ∷ s) (h, hs) = ground (arith, until_nul-nonzero_self s hs)

pub text-Writes : (s : List ℕ) → IsText s → Writes (put_string s) (s ++ (0 ∷ []))
unfolding put_string
text-Writes s (nz, short) = writes λ m h.
    rw (until_nul-nonzero_self s nz, put_string)
      (put_chars-written s m (omega (arith, length-append s (0 ∷ []))))
