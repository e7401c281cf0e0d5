-- ===== src/Binblock/Forward.antt =====
-- src/binblock.c: a reader never moves the cursor back, nor the end of the block.
use lmpc.Base.{
  ℕ, zero, suc, ◌<◌, ◌≤◌, ◌≡◌, ◌∙◌, Bool, true, false, Option, none, some, [], arith, get_elem?,
  if◌then◌else◌,
}
use lmpc.Binblock.{
  Block, Run, Cmd, ok, exit, fault, hangs, and_then, ◌>>=◌, pure, peek, advance, inside, left,
  capacity, get_next_unsigned_char, get_next_signed_char,
}
use lmpc.Binblock.Number.{get_next_short, get_next_long, get_next_float}
use lmpc.Binblock.Text.{get_string_loop, get_next_string, string_limit}
use lmpc.Binblock.Float.{Floats, read_angle, read_coord}
use lmpc.Binblock.Argument.{need, crash}

abbrev pub After {ℓ} : {A : Type ℓ} → Block → Run A → Type 0
After m (ok a m') = (m.p ≤ m'.p) × (m'.end ≡ m.end)
After m (exit e) = Unit
After m fault = Unit
After m hangs = ⊥

pub data Forward {ℓ} {A : Type ℓ} (c : Cmd A) : Type ℓ where
  forward : ((m : Block) → After m (c m)) → Forward c

pub After-Forward {ℓ} : {A : Type ℓ} {c : Cmd A} → Forward c → (m : Block) → After m (c m)
After-Forward (forward h) m = h m

module _ {ℓ} {A : Type ℓ} where
  pub pure-Forward : (a : A) → Forward (pure a)
  pure-Forward a = forward (λ m. omega arith)

  pub need-Forward : (o : Option A) → Forward (need o)
  need-Forward none = forward (λ m. tt)
  need-Forward (some a) = pure-Forward a

  pub if-Forward : (b : Bool) (c d : Cmd A) → Forward c → Forward d → Forward (if b then c else d)
  if-Forward true c d hc hd = hc
  if-Forward false c d hc hd = hd

-- What holds from a later block on holds from an earlier one.
pub After-trans {ℓ} :
    {A : Type ℓ} (m m' : Block) (r : Run A) → m.p ≤ m'.p → m'.end ≡ m.end → After m' r → After m r
After-trans m m' (ok a m'') h e (h', e') = (omega arith, e' ∙ e)
After-trans m m' (exit c) h e x = tt
After-trans m m' fault h e x = tt
After-trans m m' hangs h e x = absurd x

module _ {ℓ κ} {A : Type ℓ} {B : Type κ} where
  After-and_then :
      (m : Block) (r : Run A) (k : A → Cmd B)
      → After m r
      → ((a : A) → Forward (k a))
      → After m (and_then r k)
  After-and_then m (ok a m') k h f = After-trans m m' (k a m') h.0 h.1 (After-Forward (f a) m')
  After-and_then m (exit e) k h f = tt
  After-and_then m fault k h f = tt
  After-and_then m hangs k h f = absurd h

  pub >>=-Forward :
      (c : Cmd A) (k : A → Cmd B) → Forward c → ((a : A) → Forward (k a)) → Forward (c >>= k)
  >>=-Forward c k h f = forward (λ m. After-and_then m (c m) k (After-Forward h m) f)

peek-Forward : Forward peek
unfolding peek
peek-Forward = forward (λ m.
    elim (get_elem? m.buffer m.p) as (λ o. After m (elim o [ none ↦ fault | some b ↦ ok b m ])) [
      | none ↦ tt
      | some b ↦ omega arith
    ])

advance-Forward : (n : ℕ) → Forward (advance n)
advance-Forward n = forward (λ m. omega arith)

ruleset steps = (>>=-Forward, pure-Forward, need-Forward, if-Forward, peek-Forward, advance-Forward)

pub get_next_unsigned_char-Forward : Forward get_next_unsigned_char
unfolding get_next_unsigned_char
get_next_unsigned_char-Forward = search steps

pub get_next_signed_char-Forward : Forward get_next_signed_char
unfolding get_next_signed_char
get_next_signed_char-Forward = search steps

ruleset bytes = (steps, get_next_unsigned_char-Forward, get_next_signed_char-Forward)

pub get_next_short-Forward : Forward get_next_short
unfolding get_next_short
get_next_short-Forward = search bytes

pub get_next_long-Forward : Forward get_next_long
unfolding get_next_long
get_next_long-Forward = search bytes

pub get_next_float-Forward : Forward get_next_float
unfolding get_next_float
get_next_float-Forward = search bytes

get_string_loop-Forward : (k : ℕ) → Forward (get_string_loop k)
unfolding get_string_loop
get_string_loop-Forward zero = pure-Forward []
get_string_loop-Forward (suc k) = search (steps, get_string_loop-Forward k)

pub get_next_string-Forward : Forward get_next_string
unfolding get_next_string
get_next_string-Forward = search (steps, get_string_loop-Forward string_limit)

module _ {D : Type 0} (F : Floats D) where
  pub read_angle-Forward : Forward (read_angle F)
  unfolding read_angle
  read_angle-Forward = search bytes

  pub read_coord-Forward : Forward (read_coord F)
  unfolding read_coord
  read_coord-Forward = search (steps, get_next_short-Forward)

pub crash-Forward {ℓ} : {A : Type ℓ} → Forward (crash {ℓ} {A = A})
crash-Forward = forward (λ m. tt)

pub inside-Forward : Forward inside
inside-Forward = forward (λ m. omega arith)

pub left-Forward : Forward left
left-Forward = forward (λ m. omega arith)

pub capacity-Forward : Forward capacity
capacity-Forward = forward (λ m. omega arith)

pub ruleset moves = (
  >>=-Forward, pure-Forward, need-Forward, if-Forward, get_next_unsigned_char-Forward,
  get_next_signed_char-Forward, get_next_short-Forward, get_next_long-Forward,
  get_next_float-Forward, get_next_string-Forward, read_angle-Forward, read_coord-Forward,
  crash-Forward, inside-Forward, left-Forward, capacity-Forward,
)

-- A reader that moves the cursor on by a byte at least.
abbrev pub Behind {ℓ} : {A : Type ℓ} → Block → Run A → Type 0
Behind m (ok a m') = (m.p < m'.p) × (m'.end ≡ m.end)
Behind m (exit e) = Unit
Behind m fault = Unit
Behind m hangs = ⊥

pub data Advances {ℓ} {A : Type ℓ} (c : Cmd A) : Type ℓ where
  advances : ((m : Block) → Behind m (c m)) → Advances c

pub Behind-Advances {ℓ} : {A : Type ℓ} {c : Cmd A} → Advances c → (m : Block) → Behind m (c m)
Behind-Advances (advances h) m = h m

Behind-After {ℓ} :
    {A : Type ℓ} (m m' : Block) (r : Run A) → m.p < m'.p → m'.end ≡ m.end → After m' r → Behind m r
Behind-After m m' (ok a m'') h e (h', e') = (omega arith, e' ∙ e)
Behind-After m m' (exit c) h e x = tt
Behind-After m m' fault h e x = tt
Behind-After m m' hangs h e x = absurd x

Behind-Behind {ℓ} :
    {A : Type ℓ} (m m' : Block) (r : Run A) → m.p ≤ m'.p → m'.end ≡ m.end → Behind m' r → Behind m r
Behind-Behind m m' (ok a m'') h e (h', e') = (omega arith, e' ∙ e)
Behind-Behind m m' (exit c) h e x = tt
Behind-Behind m m' fault h e x = tt
Behind-Behind m m' hangs h e x = absurd x

module _ {ℓ κ} {A : Type ℓ} {B : Type κ} where
  first-and_then :
      (m : Block) (r : Run A) (k : A → Cmd B)
      → Behind m r
      → ((a : A) → Forward (k a))
      → Behind m (and_then r k)
  first-and_then m (ok a m') k h f = Behind-After m m' (k a m') h.0 h.1 (After-Forward (f a) m')
  first-and_then m (exit e) k h f = tt
  first-and_then m fault k h f = tt
  first-and_then m hangs k h f = absurd h

  later-and_then :
      (m : Block) (r : Run A) (k : A → Cmd B)
      → After m r
      → ((a : A) → Advances (k a))
      → Behind m (and_then r k)
  later-and_then m (ok a m') k h f = Behind-Behind m m' (k a m') h.0 h.1 (Behind-Advances (f a) m')
  later-and_then m (exit e) k h f = tt
  later-and_then m fault k h f = tt
  later-and_then m hangs k h f = absurd h

  pub first-Advances :
      (c : Cmd A) (k : A → Cmd B) → Advances c → ((a : A) → Forward (k a)) → Advances (c >>= k)
  first-Advances c k h f = advances (λ m. first-and_then m (c m) k (Behind-Advances h m) f)

  pub later-Advances :
      (c : Cmd A) (k : A → Cmd B) → Forward c → ((a : A) → Advances (k a)) → Advances (c >>= k)
  later-Advances c k h f = advances (λ m. later-and_then m (c m) k (After-Forward h m) f)

advance_one-Advances : Advances (advance 1)
advance_one-Advances = advances (λ m. omega arith)

pub get_next_unsigned_char-Advances : Advances get_next_unsigned_char
unfolding get_next_unsigned_char
get_next_unsigned_char-Advances =
    search (later-Advances, first-Advances, advance_one-Advances, peek-Forward, pure-Forward)
