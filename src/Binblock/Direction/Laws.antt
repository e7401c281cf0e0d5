-- ===== src/Binblock/Direction/Laws.antt =====
-- src/binblock.c, `WriteDir`: the direction that is chosen is the nearest of the table.
use lmpc.Base.{
  ℕ, zero, suc, ◌+◌, ◌<◌, ◌≡◌, refl, ap, ◌∙◌, Bool, true, false, some, List, [], ◌∷◌, arith,
  get_elem?, length, All, Bool-cases, inl, inr,
}
use mathlib.Core.Path.{subst}
use lmpc.Base.Int.{ℤ, pos, negsuc}
use lmpc.Binblock.{low_byte, put_unsigned_char}
use lmpc.Binblock.Float.{Floats}
use lmpc.Binblock.Direction.{vertex_normals, dot, best_dir, write_dir, num_vertex_normals}

-- What `<` of two doubles does, NaNs included.
pub record Comparison {D : Type 0} (F : Floats D) : Type 0 where
  pub asym : (a b : D) → F.less a b ≡ true → F.less b a ≡ false
  pub trans : (a b c : D) → F.less a b ≡ true → F.less b c ≡ true → F.less a c ≡ true
  pub below : (a b c : D) → F.less a c ≡ true → F.less a b ≡ false → F.less c b ≡ false

get_elem?-lt-length {ℓ} :
    {A : Type ℓ} (xs : List A) (i : ℕ) (a : A) → get_elem? xs i ≡ some a → i < length xs
get_elem?-lt-length [] i a h = cc
get_elem?-lt-length (x ∷ xs) zero a h = omega arith
get_elem?-lt-length (x ∷ xs) (suc i) a h = omega (arith, get_elem?-lt-length xs i a h)

All-get_elem? {ℓ κ} :
    {A : Type ℓ} (P : A → Type κ) (xs : List A) (i : ℕ) (a : A)
    → All P xs
    → get_elem? xs i ≡ some a
    → P a
All-get_elem? P [] i a h e = absurd (cc)
All-get_elem? P (x ∷ xs) zero a (h, hs) e = subst P (cc) h
All-get_elem? P (x ∷ xs) (suc i) a (h, hs) e = All-get_elem? P xs i a hs e

length-vertex_normals : {D : Type 0} (F : Floats D) → length (vertex_normals F) ≡ num_vertex_normals
unfolding vertex_normals
length-vertex_normals F = refl

one_byte : (k : ℕ) → k < num_vertex_normals → low_byte (pos (0 + k)) ≡ k
unfolding low_byte
one_byte k h = omega arith

module _ {D : Type 0} (F : Floats D) (C : Comparison F) (a : ℕ × ℕ × ℕ) where
  -- `maxdot < dot`
  abbrev closer : ℕ → ℕ → Bool
  closer maxdot d = F.less (F.widen maxdot) (F.widen d)

  abbrev pub NoCloser : ℕ → List (ℕ × ℕ × ℕ) → Type 0
  NoCloser d ns = All (λ n. closer d (dot F n a) ≡ false) ns

  irreflexive : (d : ℕ) → closer d d ≡ false
  irreflexive d = elim (Bool-cases (closer d d)) [
    | inl e ↦ C.asym (F.widen d) (F.widen d) e
    | inr e ↦ e
  ]

  data Best (ns : List (ℕ × ℕ × ℕ)) (j maxdot : ℕ) (start r : ℤ) : Type 0 where
    kept : r ≡ start → NoCloser maxdot ns → Best ns j maxdot start r
    found :
        (i : ℕ) (n : ℕ × ℕ × ℕ)
        → get_elem? ns i ≡ some n
        → r ≡ pos (j + i)
        → closer maxdot (dot F n a) ≡ true
        → NoCloser (dot F n a) ns
        → Best ns j maxdot start r

  taken :
      (n : ℕ × ℕ × ℕ) (ns : List (ℕ × ℕ × ℕ)) (j maxdot : ℕ) (start r : ℤ)
      → closer maxdot (dot F n a) ≡ true
      → Best ns (j + 1) (dot F n a) (pos j) r
      → Best (n ∷ ns) j maxdot start r
  taken n ns j maxdot start r e (kept p all) =
      found 0 n refl (p ∙ ap pos (omega arith)) e (irreflexive (dot F n a), all)
  taken n ns j maxdot start r e (found i m at' p c all) =
      found (suc i) m at' (p ∙ ap pos (omega arith)) (C.trans _ _ _ e c) (C.asym _ _ c, all)

  passed :
      (n : ℕ × ℕ × ℕ) (ns : List (ℕ × ℕ × ℕ)) (j maxdot : ℕ) (start r : ℤ)
      → closer maxdot (dot F n a) ≡ false
      → Best ns (j + 1) maxdot start r
      → Best (n ∷ ns) j maxdot start r
  passed n ns j maxdot start r e (kept p all) = kept p (e, all)
  passed n ns j maxdot start r e (found i m at' p c all) =
      found (suc i) m at' (p ∙ ap pos (omega arith)) c (C.below _ _ _ c e, all)

  best_dir-Best :
      (ns : List (ℕ × ℕ × ℕ)) (j maxdot : ℕ) (start : ℤ)
      → Best ns j maxdot start (best_dir F ns j a maxdot start)
  unfolding best_dir
  best_dir-Best [] j maxdot start = kept refl tt
  best_dir-Best (n ∷ ns) j maxdot start = elim (Bool-cases (closer maxdot (dot F n a))) [
    | inl e ↦
        rw (e, best_dir)
          (taken n ns j maxdot start _ e (best_dir-Best ns (j + 1) (dot F n a) (pos j)))
    | inr e ↦
        rw (e, best_dir) (passed n ns j maxdot start _ e (best_dir-Best ns (j + 1) maxdot start))
  ]

  -- With the comparison of doubles, and where some direction of the table has a greater product with
  -- the vector than -999999, `WriteDir` writes the number, below 162, of a direction of the table whose
  -- product with the vector is exceeded by none of the table.
  pub write_dir-NoCloser :
      (i : ℕ) (n : ℕ × ℕ × ℕ)
      → get_elem? (vertex_normals F) i ≡ some n
      → closer (F.narrow (F.lit (negsuc 999998) 1)) (dot F n a) ≡ true
      → (k : ℕ) × (m : ℕ × ℕ × ℕ) × (k < num_vertex_normals)
        × (get_elem? (vertex_normals F) k ≡ some m)
        × NoCloser (dot F m a) (vertex_normals F)
        × (write_dir F a ≡ put_unsigned_char k)
  unfolding write_dir
  write_dir-NoCloser i n at' c =
      chosen (best_dir-Best (vertex_normals F) 0 (F.narrow (F.lit (negsuc 999998) 1)) (negsuc 0))
    where
      chosen :
          Best
            (vertex_normals F)
            0
            (F.narrow (F.lit (negsuc 999998) 1))
            (negsuc 0)
            (best_dir F (vertex_normals F) 0 a (F.narrow (F.lit (negsuc 999998) 1)) (negsuc 0))
          → (k : ℕ) × (m : ℕ × ℕ × ℕ) × (k < num_vertex_normals)
            × (get_elem? (vertex_normals F) k ≡ some m)
            × NoCloser (dot F m a) (vertex_normals F)
            × (write_dir F a ≡ put_unsigned_char k)
      chosen (kept p all) = absurd (
          cc (
            All-get_elem? (λ d. closer (F.narrow (F.lit (negsuc 999998) 1)) (dot F d a) ≡ false)
              (vertex_normals F) i n all at'))
      chosen (found k m at'' p c' all) =
          let below : k < num_vertex_normals =
            omega
              (arith, get_elem?-lt-length (vertex_normals F) k m at'', length-vertex_normals F) in
          (
            k,
            m,
            below,
            at'',
            all,
            ap (λ z. put_unsigned_char (low_byte z)) p ∙ ap put_unsigned_char (one_byte k below),
          )
