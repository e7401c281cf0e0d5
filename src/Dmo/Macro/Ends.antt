-- ===== src/Dmo/Macro/Ends.antt =====
-- src/udmo.c: `DMO_readmacroblock` ends, with no more tics than its buffers hold.
use lmpc.Base.{
  ℕ, zero, suc, ◌+◌, ◌-◌, ◌*◌, ◌/◌, ◌%◌, ◌<◌, ◌≤◌, inl, inr, Bool, true, false, ◌&&◌, ◌||◌, ◌==◌,
  List, Option, none, some, ltb, length, take, drop, arith, Bool-cases, if◌then◌else◌,
}
use lmpc.Base.Result.{Error}
use lmpc.Lzw.Decompress.Total.{Ends, decompress-Ends}
use lmpc.Lzw.Decompress.{Decompressed, bytes_out, failed, hangs, decompress}
use lmpc.Dmo.{
  maxtics, dmo_tic, duke_old, duke_new, redneck, duke_14plus, chunk_header_size, short_at,
}
use lmpc.Dmo.Macro.{
  Reading, at, exits, divides_by_zero, outside, endless, u_buffer_size, Chunk, Bytes, read_data,
  unpack, after_uncompress, dmo_readblock_13, dmo_readblock_14plus, block_of, read_blocks, move_to,
  dmo_readmacroblock, c_buffer_size, sum_tics,
}

-- A reader from `pos` that gives a value leaves a place behind it.
data Goes {ℓ} {A : Type ℓ} (pos : ℕ) : Reading A → Type ℓ where
  further : (a : A) (pos' : ℕ) → pos < pos' → Goes pos (at a pos')
  has_ended : (e : Error) → Goes pos (exits e)
  has_crashed : Goes pos divides_by_zero
  has_left : Goes pos outside

if-Goes {ℓ} :
    {A : Type ℓ} (pos : ℕ) (b : Bool) (x y : Reading A)
    → Goes pos x
    → Goes pos y
    → Goes pos (if b then x else y)
if-Goes pos true x y h k = h
if-Goes pos false x y h k = k

read_data-Goes {ℓ} :
    {A : Type ℓ} (start size : ℕ) (f : List ℕ) (pos : ℕ) (rest : List ℕ → Reading A)
    → ((bs : List ℕ) → Goes start (rest bs))
    → Goes start (read_data size f pos rest)
read_data-Goes start size f pos rest h =
    let found = take size (drop pos f) in
    if-Goes start (ltb c_buffer_size (length found)) outside
      (if ltb (length found) size then exits Error.firead else rest found) has_left
      (if-Goes start (ltb (length found) size) (exits Error.firead) (rest found)
        (has_ended Error.firead) (h found))

unpack-Goes :
    (start : ℕ) (d : Decompressed) (u_size tics pos : ℕ)
    → start < pos
    → Ends u_size d
    → Goes start (unpack d u_size tics pos)
unpack-Goes start (bytes_out bytes) u_size tics pos h ends =
    if-Goes start (length bytes == u_size) _ _ (further _ pos h) (has_ended Error.decomp)
unpack-Goes start (failed f out) u_size tics pos h ends = has_ended Error.decomp
unpack-Goes start hangs u_size tics pos h ends = absurd ends

dmo_readblock_13-Goes :
    (pred suff : ℕ → ℕ) (playernum : ℕ) (f : List ℕ) (pos : ℕ)
    → Goes pos (dmo_readblock_13 pred suff playernum f pos)
unfolding dmo_readblock_13
dmo_readblock_13-Goes pred suff playernum f pos =
    let head = take chunk_header_size (drop pos f) in
    let c_size = (short_at head 0 + 65536 - 4) % 65536 in
    let u_size = short_at head 2 in
    let behind : pos < pos + chunk_header_size + c_size = omega arith in
    let rest : List ℕ → Reading Chunk = λ c_buffer.
      unpack (decompress pred suff c_buffer u_size (short_at head 4)) u_size
        (u_size / (dmo_tic * playernum)) (pos + chunk_header_size + c_size) in
    let data_read = read_data c_size f (pos + chunk_header_size) rest in
    if-Goes pos (ltb (length head) chunk_header_size) (exits Error.firead) _
      (has_ended Error.firead)
      (if-Goes pos (playernum == 0) divides_by_zero _ has_crashed (
        if-Goes pos (ltb (dmo_tic * maxtics) u_size) (exits Error.wdmo) data_read
          (has_ended Error.wdmo)
          (read_data-Goes pos c_size f (pos + chunk_header_size) rest λ bs.
            unpack-Goes pos (decompress pred suff bs u_size (short_at head 4)) u_size
              (u_size / (dmo_tic * playernum)) (pos + chunk_header_size + c_size) behind
              (decompress-Ends pred suff bs u_size (short_at head 4)))))

after_uncompress-Goes :
    (start playernum pos : ℕ) (o : Option (ℕ × List ℕ))
    → start < pos
    → Goes start (after_uncompress playernum pos o)
after_uncompress-Goes start playernum pos none h = has_left
after_uncompress-Goes start playernum pos (some (u_size, bytes)) h =
    if-Goes start (playernum == 0) divides_by_zero _ has_crashed (further _ pos h)

dmo_readblock_14plus-Goes :
    (uncompress : List ℕ → Option (ℕ × List ℕ)) (playernum : ℕ) (f : List ℕ) (pos : ℕ)
    → Goes pos (dmo_readblock_14plus uncompress playernum f pos)
unfolding dmo_readblock_14plus
dmo_readblock_14plus-Goes uncompress playernum f pos =
    let head = take 2 (drop pos f) in
    let c_size = short_at head 0 in
    let behind : pos < pos + 2 + c_size = omega arith in
    let rest : List ℕ → Reading Chunk =
      λ c_buffer. after_uncompress playernum (pos + 2 + c_size) (uncompress c_buffer) in
    if-Goes pos (length head == 0) (exits Error.errno) _ (has_ended Error.errno) (
      if-Goes pos (ltb (length head) 2) (exits Error.firead) _ (has_ended Error.firead) (
        read_data-Goes pos c_size f (pos + 2) rest
          λ bs. after_uncompress-Goes pos playernum (pos + 2 + c_size) (uncompress bs) behind))

block_of-Goes :
    (pred suff : ℕ → ℕ) (uncompress : List ℕ → Option (ℕ × List ℕ)) (game playernum : ℕ)
    (f : List ℕ) (pos : ℕ)
    → Goes pos (block_of pred suff uncompress game playernum f pos)
unfolding block_of
block_of-Goes pred suff uncompress game playernum f pos =
    if-Goes pos (game == duke_old || game == duke_new) _ _
      (dmo_readblock_13-Goes pred suff playernum f pos)
      (if-Goes pos (game == redneck || game == duke_14plus) _ _
        (dmo_readblock_14plus-Goes uncompress playernum f pos) (has_ended Error.wdmo))

-- The loop ends, and where it gives tics, they fit the buffers.
abbrev pub Fits : ℕ → Option (Reading (ℕ × Bytes)) → Type 0
Fits playernum none = ⊥
Fits playernum (some (at (tics, b) pos)) =
    (tics * playernum ≤ maxtics) × (playernum * dmo_tic ≤ u_buffer_size)
Fits playernum (some (exits e)) = Unit
Fits playernum (some divides_by_zero) = Unit
Fits playernum (some outside) = Unit
Fits playernum (some endless) = ⊥

-- The same for the blocks alone.
abbrev Read : ℕ → Option (Reading (ℕ × Bytes)) → Type 0
Read playernum none = ⊥
Read playernum (some (at (tics, b) pos)) = tics * playernum ≤ maxtics
Read playernum (some (exits e)) = Unit
Read playernum (some divides_by_zero) = Unit
Read playernum (some outside) = Unit
Read playernum (some endless) = ⊥

module _ (block : ℕ → Reading Chunk) (playernum : ℕ) (f : List ℕ)
    (goes : (pos : ℕ) → Goes pos (block pos)) where
  Continues : ℕ → Type 0
  Continues k =
      (tics pos : ℕ) (c : Bytes)
      → length f < k + pos
      → 0 < k
      → Read playernum (read_blocks k block playernum f tics pos c)

  counted :
      (k tics pos : ℕ) (c : Bytes) (chunk : Chunk) (pos' : ℕ)
      → pos < pos'
      → length f < suc k + pos
      → Continues k
      → let all = tics + chunk.tics in
        let c' =
          move_to
            (chunk.tics * playernum * dmo_tic)
            chunk.u_buffer
            (tics * playernum * dmo_tic)
            c in
        Read playernum (
          if ltb maxtics (all * playernum)
          then some (exits Error.wdmo)
          else if ltb pos' (length f) && ltb (all * playernum) maxtics
          then read_blocks k block playernum f all pos' c'
          else some (at (all, c') pos'))
  unfolding Continues
  counted k tics pos c chunk pos' more fuel rest =
      let all = tics + chunk.tics in
      elim (Bool-cases (ltb maxtics (all * playernum))) [
        | inl over ↦ rw over tt
        | inr few ↦
            rw few (elim (Bool-cases (ltb pos' (length f) && ltb (all * playernum) maxtics)) [
              | inl again ↦ rw again (rest all pos' _ (omega arith) (ground arith))
              | inr last ↦ rw last (ground arith)
            ])
      ]

  one_block :
      (k tics pos : ℕ) (c : Bytes) (r : Reading Chunk)
      → Goes pos r
      → length f < suc k + pos
      → Continues k
      → Read playernum (elim r [
        | exits e ↦ some (exits e)
        | divides_by_zero ↦ some divides_by_zero
        | outside ↦ some outside
        | endless ↦ some endless
        | at chunk pos' ↦
            let all = tics + chunk.tics in
            let n = chunk.tics * playernum * dmo_tic in
            let to = tics * playernum * dmo_tic in
            let c' = move_to n chunk.u_buffer to c in
            let rest = read_blocks k block playernum f all pos' c' in
            if ltb u_buffer_size n || ltb c_buffer_size (to + n)
            then some outside
            else if ltb maxtics (all * playernum)
            then some (exits Error.wdmo)
            else if ltb pos' (length f) && ltb (all * playernum) maxtics
            then rest
            else some (at (all, c') pos')
      ])
  unfolding Continues
  one_block k tics pos c (exits e) g fuel rest = tt
  one_block k tics pos c divides_by_zero g fuel rest = tt
  one_block k tics pos c outside g fuel rest = tt
  one_block k tics pos c endless g fuel rest = elim g [ ]
  one_block k tics pos c (at chunk pos') (further _ _ more) fuel rest =
      let all = tics + chunk.tics in
      let n = chunk.tics * playernum * dmo_tic in
      elim (Bool-cases
        (ltb u_buffer_size n || ltb c_buffer_size (tics * playernum * dmo_tic + n))) [
          | inl leaves ↦ rw leaves tt
          | inr stays ↦ rw stays (counted k tics pos c chunk pos' more fuel rest)
        ]

  read_blocks-Fits : (k : ℕ) → Continues k
  unfolding Continues read_blocks
  read_blocks-Fits zero tics pos c fuel some_left = absurd (omega arith)
  read_blocks-Fits (suc k) tics pos c fuel some_left =
      one_block k tics pos c (block pos) (goes pos) fuel (read_blocks-Fits k)

  whole-Fits :
      (o : Option (Reading (ℕ × Bytes))) (u : Bytes)
      → Read playernum o
      → Fits playernum (elim o [
        | none ↦ none
        | some (exits e) ↦ some (exits e)
        | some divides_by_zero ↦ some divides_by_zero
        | some outside ↦ some outside
        | some endless ↦ some endless
        | some (at (tics, c') pos') ↦
            if ltb u_buffer_size (playernum * dmo_tic)
            then some outside
            else some (at (tics, sum_tics (playernum * dmo_tic) c' tics u) pos')
      ])
  whole-Fits none u h = h
  whole-Fits (some (exits e)) u h = tt
  whole-Fits (some divides_by_zero) u h = tt
  whole-Fits (some outside) u h = tt
  whole-Fits (some endless) u h = h
  whole-Fits (some (at (tics, c') pos')) u h =
      elim (Bool-cases (ltb u_buffer_size (playernum * dmo_tic))) [
        | inl leaves ↦ rw leaves tt
        | inr stays ↦ rw stays (h, ground arith)
      ]

-- The reader of a macro block ends for every file, place and number of players, also where the
-- decompression fails, and where it gives tics without leaving a buffer, their number times the
-- players is 2520 at most, and one tic of all players fits `u_buffer`.
pub dmo_readmacroblock-Fits :
    (pred suff : ℕ → ℕ) (uncompress : List ℕ → Option (ℕ × List ℕ)) (game playernum : ℕ)
    (f : List ℕ) (pos : ℕ) (c u : Bytes)
    → Fits playernum
        (dmo_readmacroblock (block_of pred suff uncompress game playernum f) playernum f pos c u)
unfolding dmo_readmacroblock
dmo_readmacroblock-Fits pred suff uncompress game playernum f pos c u =
    let block = block_of pred suff uncompress game playernum f in
    let goes = block_of-Goes pred suff uncompress game playernum f in
    whole-Fits block playernum f goes _ u (
      unfold Continues in
      read_blocks-Fits block playernum f goes (suc (length f)) 0 pos c (omega arith) (omega arith))
