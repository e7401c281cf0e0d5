-- ===== src/Dem/RoundTrip/Table.antt =====
-- src/udem.c: what `node_token_id` and `node_token_string` find in `DEM_token`.
use lmpc.Base.{
  ℕ, ◌<◌, ◌≤◌, ◌≡◌, ◌≢◌, refl, ◌∙◌, sym, Bool, true, false, Option, none, some, List, [], ◌∷◌,
  arith, ◌==◌, if◌then◌else◌, map, All,
}
use native.Mathlib.Decide.{ℕ_discrete}
use lmpc.Node.{gen_nothing}
use lmpc.Node.Token.{Token, node_token_id, node_token_string}
use lmpc.Dem.Token.{Numbering, Row, rows, dem_token, table_limit}

-- The table by places, in place of the numbers of the parser generator.
unfoldable pub id_at : List Row → ℕ → ℕ
id_at [] k = 0
id_at (r ∷ rs) k = if k == r.token then r.id else id_at rs k

unfoldable pub is_listed : List Row → ℕ → Bool
is_listed [] k = false
is_listed (r ∷ rs) k = if k == r.token then true else is_listed rs k

abbrev InTable : List Row → Type 0
InTable rs = All (λ r. r.token < table_limit) rs

rows-InTable : InTable rows
rows-InTable = omega arith

abbrev pub is_some {ℓ} : {A : Type ℓ} → Option A → Bool
is_some none = false
is_some (some a) = true

is_some_if {ℓ} :
    {A : Type ℓ} (b : Bool) (x : A) (o : Option A) (c : Bool)
    → is_some o ≡ c
    → is_some (if b then some x else o) ≡ (if b then true else c)
is_some_if true x o c h = refl
is_some_if false x o c h = h

pub ==_self : (a : ℕ) → (a == a) ≡ true
==_self a = ground arith

pub ==_ne : (a b : ℕ) → a ≢ b → (a == b) ≡ false
==_ne a b h = ground arith

module _ (N : Numbering) where
  abbrev entry : Row → Token
  entry r = record { string = r.string; type = N.number r.token; id = r.id }

  pub same_number :
      (a b : ℕ) → a < table_limit → b < table_limit → (N.number a == N.number b) ≡ (a == b)
  same_number a b ha hb = elim (ℕ_discrete a b) [
    | yes e ↦ rw e (==_self (N.number b) ∙ sym (==_self b))
    | no ne ↦
        ==_ne (N.number a) (N.number b) (λ e. ne (N.injective a b ha hb e)) ∙ sym (==_ne a b ne)
  ]

  node_token_id-map :
      (rs : List Row) (k : ℕ)
      → InTable rs
      → k < table_limit
      → node_token_id (map entry rs) (N.number k) ≡ id_at rs k
  unfolding node_token_id id_at
  node_token_id-map [] k h hk = refl
  node_token_id-map (r ∷ rs) k (h, hs) hk =
      rw (same_number k r.token hk h, node_token_id-map rs k hs hk) refl

  listed-map :
      (rs : List Row) (k : ℕ)
      → InTable rs
      → k < table_limit
      → is_some (node_token_string (map entry rs) (N.number k)) ≡ is_listed rs k
  unfolding node_token_string is_listed
  listed-map [] k h hk = refl
  listed-map (r ∷ rs) k (h, hs) hk = rw (same_number k r.token hk h) (
      is_some_if (k == r.token) r.string (node_token_string (map entry rs) (N.number k))
        (is_listed rs k) (listed-map rs k hs hk))

  unlisted-map :
      (rs : List Row) (t : ℕ) → InTable rs → 0x2000 ≤ t → node_token_string (map entry rs) t ≡ none
  unfolding node_token_string
  unlisted-map [] t h ht = refl
  unlisted-map (r ∷ rs) t (h, hs) ht =
      rw (==_ne t (N.number r.token) (omega (arith, N.low r.token h)), unlisted-map rs t hs ht) refl

  not_nothing : (k : ℕ) → k < table_limit → (N.number k == gen_nothing) ≡ false
  not_nothing k hk = ==_ne (N.number k) gen_nothing (omega (arith, N.low k hk))

  -- A place has its id, and its text; a type of values has no text.
  pub node_token_id-place :
      (k : ℕ) → k < table_limit → node_token_id (dem_token N) (N.number k) ≡ id_at rows k
  unfolding node_token_id dem_token
  node_token_id-place k hk = rw (not_nothing k hk) (node_token_id-map rows k rows-InTable hk)

  pub node_token_string-place :
      (k : ℕ)
      → k < table_limit
      → is_some (node_token_string (dem_token N) (N.number k)) ≡ is_listed rows k
  unfolding node_token_string dem_token
  node_token_string-place k hk = rw (not_nothing k hk) (listed-map rows k rows-InTable hk)

  pub node_token_string-value :
      (t : ℕ) → 0x2000 ≤ t → t < gen_nothing → node_token_string (dem_token N) t ≡ none
  unfolding node_token_string dem_token
  node_token_string-value t lo hi =
      rw (==_ne t gen_nothing (omega arith)) (unlisted-map rows t rows-InTable lo)
