-- ===== src/Dmo/Tail.antt =====
-- src/udmo.c, `isDMO` and `checkDMOtail`: which game a file is a recording of.
pub mod Ends
pub mod Laws
use lmpc.Base.{
  ℕ, zero, suc, ◌+◌, ◌-◌, ◌*◌, ◌/◌, ◌%◌, ◌^◌, Bool, true, false, not, ◌&&◌, ◌||◌, List, [], ◌∷◌,
  Option, none, some, ◌==◌, ltb, leb, if◌then◌else◌, length, take, drop, get_or,
}
use lmpc.Dmo.{
  header_duke_old, header_duke_new, header_duke_14plus, header_redneck_base, chunk_header_size,
  dmo_tic, duke_old, duke_new, redneck, duke_14plus, short_at, long_at,
}

-- `fread(buffer,1,4,f)` and the two sizes in it; `none` where the file has not four bytes more.
unfoldable pub chunk_sizes : List ℕ → Option (ℕ × ℕ)
chunk_sizes (b0 ∷ b1 ∷ b2 ∷ b3 ∷ rest) = some (b0 + b1 * 256, b2 + b3 * 256)
chunk_sizes few = none

-- The loop from `pos` on; `none` is a loop that has used up its fuel. `fseek` goes beyond the end of
-- the file as well.
unfoldable pub check_dmo_tail : ℕ → List ℕ → ℕ → ℕ → Option Bool
check_dmo_tail zero f pos tics = none
check_dmo_tail (suc k) f pos zero = some (pos == length f)
check_dmo_tail (suc k) f pos (suc tics) = elim (chunk_sizes (drop pos f)) [
  | none ↦ some false
  | some (c, u) ↦
      let next =
        check_dmo_tail k f (pos + 4 + (c - 2)) ((suc tics + 2 ^ 64 - u / dmo_tic) % 2 ^ 64) in
      if ltb c chunk_header_size || not (u % dmo_tic == 0) then some false else next
]

-- The fuel for a file.
abbrev pub tail_at : List ℕ → ℕ → ℕ → Option Bool
tail_at f pos tics = check_dmo_tail (suc (length f)) f pos tics

-- `if (checkDMOtail(...)) creturn(game);` and what follows.
abbrev pub or_next : Option Bool → ℕ → Option ℕ → Option ℕ
or_next none game next = none
or_next (some true) game next = some game
or_next (some false) game next = next

unfoldable pub try_redneck : List ℕ → ℕ → Option ℕ
unfolding check_dmo_tail
try_redneck f tics =
    let playernum = short_at f 0x0A in
    if ltb (length f) header_redneck_base
    then some 0
    else if playernum == 0 || ltb 8 playernum
    then some 0
    else or_next (tail_at f (header_redneck_base + playernum) tics) redneck (some 0)

unfoldable pub try_14plus : List ℕ → ℕ → Option ℕ
unfolding try_redneck
try_14plus f tics =
    let version = get_or f 0x04 0 in
    let playernum = short_at f 0x0A in
    if not (ltb (length f) header_duke_14plus)
      && (version == 116 || version == 117)
      && (ltb 0 playernum && leb playernum 16)
    then or_next (tail_at f (header_duke_14plus + playernum) tics) duke_14plus (try_redneck f tics)
    else try_redneck f tics

-- The code of the game, 0 for none.
unfoldable pub is_dmo : List ℕ → Option ℕ
unfolding try_14plus
is_dmo f =
    let tics = long_at f 0 in
    if ltb (length f) header_duke_old
    then some 0
    else or_next (tail_at f header_duke_old tics) duke_old
        (or_next (tail_at f header_duke_new tics) duke_new (try_14plus f tics))
