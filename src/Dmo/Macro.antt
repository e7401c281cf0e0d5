-- ===== src/Dmo/Macro.antt =====
-- src/udmo.c, `DMO_readblock_13`, `DMO_readblock_14PLUS` and `DMO_readmacroblock`: blocks of tics,
-- each tic as the difference from the one before it.
pub mod Sums
pub mod Ends
use lmpc.Base.{
  ℕ, zero, suc, ◌+◌, ◌-◌, ◌*◌, ◌/◌, ◌%◌, ◌^◌, Bool, true, false, not, ◌&&◌, ◌||◌, List, [], ◌∷◌,
  Option, none, some, ◌==◌, ltb, if◌then◌else◌, length, take, drop, get_or,
}
use lmpc.Base.Result.{Error}
use lmpc.Lzw.Decompress.{Decompressed, bytes_out, failed, hangs, decompress}
use lmpc.Dmo.{
  chunk_header_size, dmo_tic, maxtics, duke_old, duke_new, redneck, duke_14plus, short_at,
}

-- What a reader of the file ends with: a value and the place behind it; the end of the program with
-- a code; a division by zero; an access outside a buffer; or a loop that never ends.
pub data Reading {ℓ} (A : Type ℓ) : Type ℓ where
  at : A → ℕ → Reading A
  exits : Error → Reading A
  divides_by_zero outside endless : Reading A

-- The parts of `CHU_t` that are used after the call: `tics` and `u_buffer`.
pub record Chunk : Type 0 where
  pub tics : ℕ
  pub u_buffer : List ℕ

abbrev pub u_buffer_size : ℕ
u_buffer_size = dmo_tic * maxtics

abbrev pub c_buffer_size : ℕ
c_buffer_size = dmo_tic * maxtics * 2

-- `fread(c->c_buffer,1,c->c_size,d->file)` at `pos`; the file may be too short, and the buffer too.
abbrev pub read_data {ℓ} : {A : Type ℓ} → ℕ → List ℕ → ℕ → (List ℕ → Reading A) → Reading A
read_data size f pos rest =
    let found = take size (drop pos f) in
    if ltb c_buffer_size (length found)
    then outside
    else if ltb (length found) size
    then exits Error.firead
    else rest found

-- `count!=c->u_size`, for the tables that the calls of `decompress` before have left.
abbrev pub unpack : Decompressed → ℕ → ℕ → ℕ → Reading Chunk
unpack (bytes_out bytes) u_size tics pos =
    if length bytes == u_size
    then at (record { tics = tics; u_buffer = bytes }) pos
    else exits Error.decomp
unpack (failed f out) u_size tics pos = exits Error.decomp
unpack hangs u_size tics pos = endless

unfoldable pub dmo_readblock_13 : (ℕ → ℕ) → (ℕ → ℕ) → ℕ → List ℕ → ℕ → Reading Chunk
dmo_readblock_13 pred suff playernum f pos =
    let head = take chunk_header_size (drop pos f) in
    let c_size = (short_at head 0 + 65536 - 4) % 65536 in
    let u_size = short_at head 2 in
    let comp_number = short_at head 4 in
    if ltb (length head) chunk_header_size
    then exits Error.firead
    else if playernum == 0
    then divides_by_zero
    else if ltb (dmo_tic * maxtics) u_size
    then exits Error.wdmo
    else read_data c_size f (pos + chunk_header_size) λ c_buffer.
      unpack (decompress pred suff c_buffer u_size comp_number) u_size
        (u_size / (dmo_tic * playernum)) (pos + chunk_header_size + c_size)

-- `uncompress` gives the size and the bytes in `u_buffer`, or it leaves its buffers.
abbrev pub after_uncompress : ℕ → ℕ → Option (ℕ × List ℕ) → Reading Chunk
after_uncompress playernum pos none = outside
after_uncompress playernum pos (some (u_size, bytes)) =
    if playernum == 0
    then divides_by_zero
    else at (record { tics = u_size % 65536 / (dmo_tic * playernum); u_buffer = bytes }) pos

unfoldable pub dmo_readblock_14plus :
    (List ℕ → Option (ℕ × List ℕ)) → ℕ → List ℕ → ℕ → Reading Chunk
dmo_readblock_14plus uncompress playernum f pos =
    let head = take 2 (drop pos f) in
    let c_size = short_at head 0 in
    if length head == 0
    then exits Error.errno
    else if ltb (length head) 2
    then exits Error.firead
    else read_data c_size f (pos + 2)
        λ c_buffer. after_uncompress playernum (pos + 2 + c_size) (uncompress c_buffer)

-- Arrays of bytes as functions of the index; their sizes are tested where they are used.
abbrev pub Bytes : Type 0
Bytes = ℕ → ℕ

unfoldable pub store : Bytes → ℕ → ℕ → Bytes
store b i v j = if j == i then v else b j

-- `memmove` of the first `n` bytes of the list to `to`.
unfoldable pub move_to : ℕ → List ℕ → ℕ → Bytes → Bytes
unfolding store
move_to zero bs to b = b
move_to (suc n) [] to b = move_to n [] (to + 1) (store b to 0)
move_to (suc n) (x ∷ bs) to b = move_to n bs (to + 1) (store b to x)

-- The loop over the blocks, with the blocks by a reader at a place of the file; `none` is a loop that
-- has used up its fuel. A block that `memmove` would read behind its `u_buffer`, or write behind
-- `c_buffer`, is an access outside. The result is `m->tics`, `m->c_buffer` and the place behind the last block.
unfoldable pub read_blocks :
    ℕ → (ℕ → Reading Chunk) → ℕ → List ℕ → ℕ → ℕ → Bytes → Option (Reading (ℕ × Bytes))
read_blocks zero block playernum f tics pos c = none
read_blocks (suc k) block playernum f tics pos c = elim (block pos) [
  | exits e ↦ some (exits e)
  | divides_by_zero ↦ some divides_by_zero
  | outside ↦ some outside
  | endless ↦ some endless
  | at chunk pos' ↦
      let all = tics + chunk.tics in
      let n = chunk.tics * playernum * dmo_tic in
      let to = tics * playernum * dmo_tic in
      let c' = move_to n chunk.u_buffer to c in
      let rest = read_blocks k block playernum f all pos' c' in
      if ltb u_buffer_size n || ltb c_buffer_size (to + n)
      then some outside
      else if ltb maxtics (all * playernum)
      then some (exits Error.wdmo)
      else if ltb pos' (length f) && ltb (all * playernum) maxtics
      then rest
      else some (at (all, c') pos')
]

-- The sums, for tics of `tic_size` bytes in `c`: `for (j=0;j<tic_size;j++)` with the rounds left, for
-- the first tic and for the tic `i`, and the loop over `i`.
module _ (tic_size : ℕ) (c : Bytes) where
  unfoldable pub first_tic : ℕ → ℕ → Bytes → Bytes
  unfolding store
  first_tic zero j u = u
  first_tic (suc k) j u = first_tic k (j + 1) (store u j (c j))

  unfoldable pub next_tic : ℕ → ℕ → ℕ → Bytes → Bytes
  unfolding store
  next_tic zero j i u = u
  next_tic (suc k) j i u =
      next_tic k (j + 1) i
        (store u (i * tic_size + j) ((u ((i - 1) * tic_size + j) + c (i * tic_size + j)) % 256))

  unfoldable pub tics_from : ℕ → ℕ → Bytes → Bytes
  unfolding next_tic
  tics_from zero i u = u
  tics_from (suc k) i u = tics_from k (i + 1) (next_tic tic_size 0 i u)

  unfoldable pub sum_tics : ℕ → Bytes → Bytes
  unfolding first_tic tics_from
  sum_tics tics u = tics_from (tics - 1) 1 (first_tic tic_size 0 u)

-- The reader of the blocks for the game that the header names.
unfoldable pub block_of :
    (ℕ → ℕ) → (ℕ → ℕ) → (List ℕ → Option (ℕ × List ℕ)) → ℕ → ℕ → List ℕ → ℕ → Reading Chunk
unfolding dmo_readblock_13 dmo_readblock_14plus
block_of pred suff uncompress game playernum f pos =
    if game == duke_old || game == duke_new
    then dmo_readblock_13 pred suff playernum f pos
    else if game == redneck || game == duke_14plus
    then dmo_readblock_14plus uncompress playernum f pos
    else exits Error.wdmo

-- `m->tics` and `m->u_buffer`, from a block with the buffers `c` and `u`. The fuel is a round for each
-- byte that the file has left, and one more. The first of the loops goes over a tic of all players,
-- even where no tic has been read, and may leave `u_buffer`.
unfoldable pub dmo_readmacroblock :
    (ℕ → Reading Chunk) → ℕ → List ℕ → ℕ → Bytes → Bytes → Option (Reading (ℕ × Bytes))
unfolding read_blocks sum_tics
dmo_readmacroblock block playernum f pos c u =
    elim (read_blocks (suc (length f)) block playernum f 0 pos c) [
      | none ↦ none
      | some (exits e) ↦ some (exits e)
      | some divides_by_zero ↦ some divides_by_zero
      | some outside ↦ some outside
      | some endless ↦ some endless
      | some (at (tics, c') pos') ↦
          if ltb u_buffer_size (playernum * dmo_tic)
          then some outside
          else some (at (tics, sum_tics (playernum * dmo_tic) c' tics u) pos')
    ]
