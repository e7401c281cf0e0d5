-- ===== src/Lmp/Determine/Laws.antt =====
-- src/ulmp.c, `LMP_self_determine_type`: the game that is found goes with the size of the file.
use lmpc.Base.{
  ℕ, ◌<◌, ◌≡◌, refl, ◌∙◌, sym, Bool, true, false, not, ◌&&◌, ◌||◌, inl, inr, ◌==◌, ltb, leb, arith,
  bit_and, if◌then◌else◌, Bool-cases, take, ==_iff,
}
use mathlib.Core.Path.{subst}
use lmpc.Base.Bits.{passes, passes_all, bit_and-le}
use lmpc.Base.Result.{Result, Error, ok, fail_if, >>=-passes}
use lmpc.Lmp.{Lmp}
use lmpc.Lmp.Game.{
  doom_old, doom_new, doom2, heretic, hexen_old, hexen_new, strife, has_game, without,
}
use lmpc.Lmp.Determine.{
  read_header_bytes, header_at, size_game, determine_new, determine_strife, exclude, decide_old,
  determine_old, lmp_self_determine_type,
}
use lmpc.Lmp.Determine.Sets.{
  is_result, subset, sized, sized-lt, is_old, guess-subset, fits_game, fits_of_subset,
}

exclude_bools : Bool → Bool → Bool → ℕ → ℕ
exclude_bools p q s game =
    let a = if p then without (without game hexen_old) hexen_new else game in
    let b = if q then without (without a doom_old) heretic else a in
    if s then without (without b doom_old) heretic else b

exclude_table :
    (p q s : Bool)
    → passes
        (λ g. subset (exclude_bools p q s (without (without (without g doom_new) doom2) strife)) g)
        128
      ≡ true
unfolding passes exclude_bools
exclude_table true true true = refl
exclude_table true true false = refl
exclude_table true false true = refl
exclude_table true false false = refl
exclude_table false true true = refl
exclude_table false true false = refl
exclude_table false false true = refl
exclude_table false false false = refl

-- What a successful determination ends with, given the games of the size.
Good : ℕ → Lmp → Lmp → Type 0
Good game l l' =
    (is_result l'.game ≡ true) × (subset l'.game game ≡ true) × (l'.filesize ≡ l.filesize)

new_subset :
    (a b c d e f : Bool)
    → has_game (sized a b c d e f) 6 ≡ true
    → (subset 2 (sized a b c d e f) ≡ true)
      × (subset 4 (sized a b c d e f) ≡ true)
      × (subset 6 (sized a b c d e f) ≡ true)
new_subset a b c d e f h = ground arith

strife_subset :
    (a b c d e f : Bool)
    → has_game (sized a b c d e f) 64 ≡ true
    → subset 64 (sized a b c d e f) ≡ true
strife_subset a b c d e f h = ground arith

size_new :
    (filesize : ℕ)
    → has_game (size_game filesize) 6 ≡ true
    → (subset 2 (size_game filesize) ≡ true)
      × (subset 4 (size_game filesize) ≡ true)
      × (subset 6 (size_game filesize) ≡ true)
unfolding size_game
size_new filesize h = new_subset _ _ _ _ _ _ h

size_strife :
    (filesize : ℕ) → has_game (size_game filesize) 64 ≡ true → subset 64 (size_game filesize) ≡ true
unfolding size_game
size_strife filesize h = strife_subset _ _ _ _ _ _ h

size_game-lt : (filesize : ℕ) → size_game filesize < 128
unfolding size_game
size_game-lt filesize = sized-lt _ _ _ _ _ _

determine_new-Good :
    (l l' : Lmp) → determine_new (size_game l.filesize) l ≡ ok l' → Good (size_game l.filesize) l l'
unfolding determine_new read_header_bytes Good
determine_new-Good l l' h = ground (arith, size_new l.filesize)

determine_strife-Good :
    (l l' : Lmp)
    → determine_strife (size_game l.filesize) l ≡ ok l'
    → Good (size_game l.filesize) l l'
unfolding determine_strife read_header_bytes Good
determine_strife-Good l l' h = ground (arith, size_strife l.filesize)

-- The set that is left to the old games is a subset of the games of the size.
abbrev old_possible : ℕ → ℕ
old_possible g = without (without (without g doom_new) doom2) strife

exclude-subset :
    (l : Lmp) (game : ℕ) → game < 128 → subset (exclude l (old_possible game)) game ≡ true
unfolding exclude exclude_bools
exclude-subset l game lt =
    passes_all
      (λ g.
        subset
          (exclude_bools (ltb 1 l.episode) (ltb 9 l.map)
            ((header_at l 4 == 2) || (header_at l 6 == 2)) (old_possible g))
          g)
      128 game lt
      (exclude_table (ltb 1 l.episode) (ltb 9 l.map) ((header_at l 4 == 2) || (header_at l 6 == 2)))

-- `⊆` is transitive on the sets that matter.
subset_trans_table :
    passes
      (λ g.
        passes
          (λ k.
            not (subset k g)
            || ((not (subset 1 k) || subset 1 g)
                && (not (subset 8 k) || subset 8 g)
                && (not (subset 16 k) || subset 16 g)
                && (not (subset 32 k) || subset 32 g)))
          128)
      128
    ≡ true
unfolding passes
subset_trans_table = refl

old_subset :
    (r k g : ℕ)
    → is_old r ≡ true
    → k < 128
    → g < 128
    → subset r k ≡ true
    → subset k g ≡ true
    → subset r g ≡ true
old_subset r k g o hk hg rk kg =
    let row = passes_all _ 128 k hk (passes_all _ 128 g hg subset_trans_table) in ground arith

old_result : (r : ℕ) → is_old r ≡ true → is_result r ≡ true
old_result r h = ground arith

decide_old-subset :
    (l : Lmp) (left r : ℕ) → decide_old l left ≡ ok r → (is_old r ≡ true) × (subset r left ≡ true)
unfolding decide_old
decide_old-subset l left r h =
    let buffer = take (if ltb 60000 l.filesize then 60000 else l.filesize) l.file in
    ground (arith, guess-subset left l.year buffer r)

subset-lt : (k g : ℕ) → g < 128 → subset k g ≡ true → k < 128
subset-lt k g h s = omega (arith, bit_and-le k g, (==_iff (bit_and k g) k).0 s)

determine_old-Good :
    (l l' : Lmp) → determine_old (size_game l.filesize) l ≡ ok l' → Good (size_game l.filesize) l l'
unfolding determine_old Good
determine_old-Good l l' h =
    let g = size_game l.filesize in
    let small = size_game-lt l.filesize in
    let l1 = record l { episode = header_at l 1; map = header_at l 2 } in
    let left = exclude l1 (old_possible g) in
    let sub : subset left g ≡ true = exclude-subset l1 g small in
    let (first, e1, h1) = >>=-passes _ (fail_if (old_possible g == 0) Error.wlmp) h in
    let (second, e2, h2) = >>=-passes _ (fail_if (left == 0) Error.wlmp) h1 in
    let (r, e3, h3) = >>=-passes _ (decide_old l1 left) h2 in
    let (old, of_left) = decide_old-subset l1 left r e3 in
    let of_size : subset r g ≡ true =
      old_subset r left g old (subset-lt left g small sub) small of_left sub in
    let result : record l1 { game = r } ≡ l' = ground arith in
    rw (← result) (old_result r old, of_size, refl)

read_header_bytes-filesize :
    (n : ℕ) (l l' : Lmp) → read_header_bytes n l ≡ ok l' → l'.filesize ≡ l.filesize
unfolding read_header_bytes
read_header_bytes-filesize n l l' h = ground arith

-- The choice by the first byte.
abbrev by_version : ℕ → Lmp → Result Lmp
by_version game l =
    if leb 104 (header_at l 0)
    then determine_new game l
    else if header_at l 0 == 101
    then determine_strife game l
    else determine_old game l

by_version-Good :
    (l l' : Lmp) → by_version (size_game l.filesize) l ≡ ok l' → Good (size_game l.filesize) l l'
by_version-Good l l' h = elim (Bool-cases (leb 104 (header_at l 0))) [
  | inl e ↦ determine_new-Good l l' (rw e at h)
  | inr e ↦ elim (Bool-cases (header_at l 0 == 101)) [
    | inl s ↦ determine_strife-Good l l' (rw (e, s) at h)
    | inr s ↦ determine_old-Good l l' (rw (e, s) at h)
  ]
]

-- A file that `LMP_self_determine_type` accepts is taken for one of the eight sets, DOOM_new with
-- DOOM2 or a single game, one that has passed the test of the size: the size less one and the length
-- of its header differ by a whole number of tics, up or down. The size on record stays.
pub lmp_self_determine_type-fits :
    (l l' : Lmp)
    → lmp_self_determine_type l ≡ ok l'
    → (is_result l'.game ≡ true)
      × (fits_game l'.filesize l'.game ≡ true)
      × (l'.filesize ≡ l.filesize)
unfolding lmp_self_determine_type Good
lmp_self_determine_type-fits l l' h =
    let (first, e1, h1) = >>=-passes _ (fail_if (ltb l.filesize 8) Error.wlmp) h in
    let (l1, e2, h2) = >>=-passes _ (read_header_bytes 7 l) h1 in
    let same = read_header_bytes-filesize 7 l l1 e2 in
    let chosen : by_version (size_game l1.filesize) l1 ≡ ok l' =
      subst (λ n. by_version (size_game n) l1 ≡ ok l') (sym same) h2 in
    let (result, sub, size) = by_version-Good l1 l' chosen in
    (result, rw size (fits_of_subset l'.game l1.filesize result sub), size ∙ same)
