-- ===== src/Base/Result.antt =====
-- Results of code that can leave through `syserror` or `syntaxerror`, which both end in `exit`.
-- The codes are those of src/tools.h that the modelled code uses; `errno` is any code of the system.
use mathlib.Core.Path.{◌≡◌, refl}
use mathlib.Core.Bool.{Bool, true, false}

pub data Error : Type 0 where
  firead fiwrite uktype wlmp impvch einval enomem : Error
  wdem dinte generr decomp wdmo syntax errno : Error

pub data Result {ℓ} (A : Type ℓ) : Type ℓ where
  ok : A → Result A
  -- The program has ended, with this code.
  err : Error → Result A

module _ {ℓ κ} {A : Type ℓ} {B : Type κ} where
  -- What follows a call that may have ended the program.
  infixl 5 ◌>>=◌
  abbrev pub ◌>>=◌ : Result A → (A → Result B) → Result B
  err code >>= rest = err code
  ok value >>= rest = rest value

module _ {κ} {B : Type κ} where
  infixl 5 ◌>>◌
  abbrev pub ◌>>◌ : Result (Unit {0}) → Result B → Result B
  first >> rest = first >>= (λ done. rest)

-- `if (test) syserror(e, ...)`
abbrev pub fail_if : Bool → Error → Result (Unit {0})
fail_if false code = ok tt
fail_if true code = err code

module _ {ℓ κ} {A : Type ℓ} {B : Type κ} where
  -- A sequence that has not ended the program has passed its first call.
  pub >>=-passes :
      (rest : A → Result B) (first : Result A) {end : B}
      → first >>= rest ≡ ok end
      → (value : A) × (first ≡ ok value) × (rest value ≡ ok end)
  >>=-passes rest (err code) h = cc
  >>=-passes rest (ok value) h = (value, refl, h)
