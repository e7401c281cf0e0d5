-- ===== src/Binblock/Direction.antt =====
-- src/binblock.c: the table of directions, and a direction as its number in it.
pub mod Laws
use lmpc.Base.{ℕ, ◌+◌, List, [], ◌∷◌, none, some, get_elem?, if◌then◌else◌, ltb}
use lmpc.Base.Int.{ℤ, pos, negsuc}
use lmpc.Binblock.{Cmd, ◌>>=◌, pure, fault}
use lmpc.Binblock.Float.{Floats, read_byte, write_byte}

abbrev pub num_vertex_normals : ℕ
num_vertex_normals = 162

module _ {D : Type 0} (F : Floats D) where
  open F use {widen, narrow, lit, add, mul, less}

  abbrev v : ℤ → ℕ → ℤ → ℕ → ℤ → ℕ → ℕ × ℕ × ℕ
  v a b c d e f = (narrow (lit a b), narrow (lit c d), narrow (lit e f))

  unfoldable pub vertex_normals : List (ℕ × ℕ × ℕ)
  vertex_normals =
      v (negsuc 525731026) 1000000000 (pos 0) 1 (pos 850651026) 1000000000
      ∷ v (negsuc 442862987) 1000000000 (pos 238856003) 1000000000 (pos 864188015) 1000000000
      ∷ v (negsuc 295242011) 1000000000 (pos 0) 1 (pos 955422997) 1000000000
      ∷ v (negsuc 309017002) 1000000000 (pos 5) 10 (pos 809017003) 1000000000
      ∷ v (negsuc 162459998) 1000000000 (pos 26286599) 100000000 (pos 951056004) 1000000000
      ∷ v (pos 0) 1 (pos 0) 1 (pos 1) 1
      ∷ v (pos 0) 1 (pos 850651026) 1000000000 (pos 525731027) 1000000000
      ∷ v (negsuc 147621005) 1000000000 (pos 71656698) 100000000 (pos 681717992) 1000000000
      ∷ v (pos 147621006) 1000000000 (pos 71656698) 100000000 (pos 681717992) 1000000000
      ∷ v (pos 0) 1 (pos 525731027) 1000000000 (pos 850651026) 1000000000
      ∷ v (pos 309017003) 1000000000 (pos 5) 10 (pos 809017003) 1000000000
      ∷ v (pos 525731027) 1000000000 (pos 0) 1 (pos 850651026) 1000000000
      ∷ v (pos 295242012) 1000000000 (pos 0) 1 (pos 955422997) 1000000000
      ∷ v (pos 442862988) 1000000000 (pos 238856003) 1000000000 (pos 864188015) 1000000000
      ∷ v (pos 162459999) 1000000000 (pos 26286599) 100000000 (pos 951056004) 1000000000
      ∷ v (negsuc 681717991) 1000000000 (pos 147621006) 1000000000 (pos 71656698) 100000000
      ∷ v (negsuc 809017002) 1000000000 (pos 309017003) 1000000000 (pos 5) 10
      ∷ v (negsuc 587785005) 1000000000 (pos 425325006) 1000000000 (pos 688190997) 1000000000
      ∷ v (negsuc 850651025) 1000000000 (pos 525731027) 1000000000 (pos 0) 1
      ∷ v (negsuc 864188014) 1000000000 (pos 442862988) 1000000000 (pos 238856003) 1000000000
      ∷ v (negsuc 71656697) 100000000 (pos 681717992) 1000000000 (pos 147621006) 1000000000
      ∷ v (negsuc 688190996) 1000000000 (pos 587785006) 1000000000 (pos 425325006) 1000000000
      ∷ v (negsuc 4) 10 (pos 809017003) 1000000000 (pos 309017003) 1000000000
      ∷ v (negsuc 238856002) 1000000000 (pos 864188015) 1000000000 (pos 442862988) 1000000000
      ∷ v (negsuc 425325005) 1000000000 (pos 688190997) 1000000000 (pos 587785006) 1000000000
      ∷ v (negsuc 71656697) 100000000 (pos 681717992) 1000000000 (negsuc 147621005) 1000000000
      ∷ v (negsuc 4) 10 (pos 809017003) 1000000000 (negsuc 309017002) 1000000000
      ∷ v (negsuc 525731026) 1000000000 (pos 850651026) 1000000000 (pos 0) 1
      ∷ v (pos 0) 1 (pos 850651026) 1000000000 (negsuc 525731026) 1000000000
      ∷ v (negsuc 238856002) 1000000000 (pos 864188015) 1000000000 (negsuc 442862987) 1000000000
      ∷ v (pos 0) 1 (pos 955422997) 1000000000 (negsuc 295242011) 1000000000
      ∷ v (negsuc 26286598) 100000000 (pos 951056004) 1000000000 (negsuc 162459998) 1000000000
      ∷ v (pos 0) 1 (pos 1) 1 (pos 0) 1
      ∷ v (pos 0) 1 (pos 955422997) 1000000000 (pos 295242012) 1000000000
      ∷ v (negsuc 26286598) 100000000 (pos 951056004) 1000000000 (pos 162459999) 1000000000
      ∷ v (pos 238856003) 1000000000 (pos 864188015) 1000000000 (pos 442862988) 1000000000
      ∷ v (pos 26286599) 100000000 (pos 951056004) 1000000000 (pos 162459999) 1000000000
      ∷ v (pos 5) 10 (pos 809017003) 1000000000 (pos 309017003) 1000000000
      ∷ v (pos 238856003) 1000000000 (pos 864188015) 1000000000 (negsuc 442862987) 1000000000
      ∷ v (pos 26286599) 100000000 (pos 951056004) 1000000000 (negsuc 162459998) 1000000000
      ∷ v (pos 5) 10 (pos 809017003) 1000000000 (negsuc 309017002) 1000000000
      ∷ v (pos 850651026) 1000000000 (pos 525731027) 1000000000 (pos 0) 1
      ∷ v (pos 71656698) 100000000 (pos 681717992) 1000000000 (pos 147621006) 1000000000
      ∷ v (pos 71656698) 100000000 (pos 681717992) 1000000000 (negsuc 147621005) 1000000000
      ∷ v (pos 525731027) 1000000000 (pos 850651026) 1000000000 (pos 0) 1
      ∷ v (pos 425325006) 1000000000 (pos 688190997) 1000000000 (pos 587785006) 1000000000
      ∷ v (pos 864188015) 1000000000 (pos 442862988) 1000000000 (pos 238856003) 1000000000
      ∷ v (pos 688190997) 1000000000 (pos 587785006) 1000000000 (pos 425325006) 1000000000
      ∷ v (pos 809017003) 1000000000 (pos 309017003) 1000000000 (pos 5) 10
      ∷ v (pos 681717992) 1000000000 (pos 147621006) 1000000000 (pos 71656698) 100000000
      ∷ v (pos 587785006) 1000000000 (pos 425325006) 1000000000 (pos 688190997) 1000000000
      ∷ v (pos 955422997) 1000000000 (pos 295242012) 1000000000 (pos 0) 1
      ∷ v (pos 1) 1 (pos 0) 1 (pos 0) 1
      ∷ v (pos 951056004) 1000000000 (pos 162459999) 1000000000 (pos 26286599) 100000000
      ∷ v (pos 850651026) 1000000000 (negsuc 525731026) 1000000000 (pos 0) 1
      ∷ v (pos 955422997) 1000000000 (negsuc 295242011) 1000000000 (pos 0) 1
      ∷ v (pos 864188015) 1000000000 (negsuc 442862987) 1000000000 (pos 238856003) 1000000000
      ∷ v (pos 951056004) 1000000000 (negsuc 162459998) 1000000000 (pos 26286599) 100000000
      ∷ v (pos 809017003) 1000000000 (negsuc 309017002) 1000000000 (pos 5) 10
      ∷ v (pos 681717992) 1000000000 (negsuc 147621005) 1000000000 (pos 71656698) 100000000
      ∷ v (pos 850651026) 1000000000 (pos 0) 1 (pos 525731027) 1000000000
      ∷ v (pos 864188015) 1000000000 (pos 442862988) 1000000000 (negsuc 238856002) 1000000000
      ∷ v (pos 809017003) 1000000000 (pos 309017003) 1000000000 (negsuc 4) 10
      ∷ v (pos 951056004) 1000000000 (pos 162459999) 1000000000 (negsuc 26286598) 100000000
      ∷ v (pos 525731027) 1000000000 (pos 0) 1 (negsuc 850651025) 1000000000
      ∷ v (pos 681717992) 1000000000 (pos 147621006) 1000000000 (negsuc 71656697) 100000000
      ∷ v (pos 681717992) 1000000000 (negsuc 147621005) 1000000000 (negsuc 71656697) 100000000
      ∷ v (pos 850651026) 1000000000 (pos 0) 1 (negsuc 525731026) 1000000000
      ∷ v (pos 809017003) 1000000000 (negsuc 309017002) 1000000000 (negsuc 4) 10
      ∷ v (pos 864188015) 1000000000 (negsuc 442862987) 1000000000 (negsuc 238856002) 1000000000
      ∷ v (pos 951056004) 1000000000 (negsuc 162459998) 1000000000 (negsuc 26286598) 100000000
      ∷ v (pos 147621006) 1000000000 (pos 71656698) 100000000 (negsuc 681717991) 1000000000
      ∷ v (pos 309017003) 1000000000 (pos 5) 10 (negsuc 809017002) 1000000000
      ∷ v (pos 425325006) 1000000000 (pos 688190997) 1000000000 (negsuc 587785005) 1000000000
      ∷ v (pos 442862988) 1000000000 (pos 238856003) 1000000000 (negsuc 864188014) 1000000000
      ∷ v (pos 587785006) 1000000000 (pos 425325006) 1000000000 (negsuc 688190996) 1000000000
      ∷ v (pos 688190997) 1000000000 (pos 587785006) 1000000000 (negsuc 425325005) 1000000000
      ∷ v (negsuc 147621005) 1000000000 (pos 71656698) 100000000 (negsuc 681717991) 1000000000
      ∷ v (negsuc 309017002) 1000000000 (pos 5) 10 (negsuc 809017002) 1000000000
      ∷ v (pos 0) 1 (pos 525731027) 1000000000 (negsuc 850651025) 1000000000
      ∷ v (negsuc 525731026) 1000000000 (pos 0) 1 (negsuc 850651025) 1000000000
      ∷ v (negsuc 442862987) 1000000000 (pos 238856003) 1000000000 (negsuc 864188014) 1000000000
      ∷ v (negsuc 295242011) 1000000000 (pos 0) 1 (negsuc 955422996) 1000000000
      ∷ v (negsuc 162459998) 1000000000 (pos 26286599) 100000000 (negsuc 951056003) 1000000000
      ∷ v (pos 0) 1 (pos 0) 1 (negsuc 0) 1
      ∷ v (pos 295242012) 1000000000 (pos 0) 1 (negsuc 955422996) 1000000000
      ∷ v (pos 162459999) 1000000000 (pos 26286599) 100000000 (negsuc 951056003) 1000000000
      ∷ v (negsuc 442862987) 1000000000 (negsuc 238856002) 1000000000 (negsuc 864188014) 1000000000
      ∷ v (negsuc 309017002) 1000000000 (negsuc 4) 10 (negsuc 809017002) 1000000000
      ∷ v (negsuc 162459998) 1000000000 (negsuc 26286598) 100000000 (negsuc 951056003) 1000000000
      ∷ v (pos 0) 1 (negsuc 850651025) 1000000000 (negsuc 525731026) 1000000000
      ∷ v (negsuc 147621005) 1000000000 (negsuc 71656697) 100000000 (negsuc 681717991) 1000000000
      ∷ v (pos 147621006) 1000000000 (negsuc 71656697) 100000000 (negsuc 681717991) 1000000000
      ∷ v (pos 0) 1 (negsuc 525731026) 1000000000 (negsuc 850651025) 1000000000
      ∷ v (pos 309017003) 1000000000 (negsuc 4) 10 (negsuc 809017002) 1000000000
      ∷ v (pos 442862988) 1000000000 (negsuc 238856002) 1000000000 (negsuc 864188014) 1000000000
      ∷ v (pos 162459999) 1000000000 (negsuc 26286598) 100000000 (negsuc 951056003) 1000000000
      ∷ v (pos 238856003) 1000000000 (negsuc 864188014) 1000000000 (negsuc 442862987) 1000000000
      ∷ v (pos 5) 10 (negsuc 809017002) 1000000000 (negsuc 309017002) 1000000000
      ∷ v (pos 425325006) 1000000000 (negsuc 688190996) 1000000000 (negsuc 587785005) 1000000000
      ∷ v (pos 71656698) 100000000 (negsuc 681717991) 1000000000 (negsuc 147621005) 1000000000
      ∷ v (pos 688190997) 1000000000 (negsuc 587785005) 1000000000 (negsuc 425325005) 1000000000
      ∷ v (pos 587785006) 1000000000 (negsuc 425325005) 1000000000 (negsuc 688190996) 1000000000
      ∷ v (pos 0) 1 (negsuc 955422996) 1000000000 (negsuc 295242011) 1000000000
      ∷ v (pos 0) 1 (negsuc 0) 1 (pos 0) 1
      ∷ v (pos 26286599) 100000000 (negsuc 951056003) 1000000000 (negsuc 162459998) 1000000000
      ∷ v (pos 0) 1 (negsuc 850651025) 1000000000 (pos 525731027) 1000000000
      ∷ v (pos 0) 1 (negsuc 955422996) 1000000000 (pos 295242012) 1000000000
      ∷ v (pos 238856003) 1000000000 (negsuc 864188014) 1000000000 (pos 442862988) 1000000000
      ∷ v (pos 26286599) 100000000 (negsuc 951056003) 1000000000 (pos 162459999) 1000000000
      ∷ v (pos 5) 10 (negsuc 809017002) 1000000000 (pos 309017003) 1000000000
      ∷ v (pos 71656698) 100000000 (negsuc 681717991) 1000000000 (pos 147621006) 1000000000
      ∷ v (pos 525731027) 1000000000 (negsuc 850651025) 1000000000 (pos 0) 1
      ∷ v (negsuc 238856002) 1000000000 (negsuc 864188014) 1000000000 (negsuc 442862987) 1000000000
      ∷ v (negsuc 4) 10 (negsuc 809017002) 1000000000 (negsuc 309017002) 1000000000
      ∷ v (negsuc 26286598) 100000000 (negsuc 951056003) 1000000000 (negsuc 162459998) 1000000000
      ∷ v (negsuc 850651025) 1000000000 (negsuc 525731026) 1000000000 (pos 0) 1
      ∷ v (negsuc 71656697) 100000000 (negsuc 681717991) 1000000000 (negsuc 147621005) 1000000000
      ∷ v (negsuc 71656697) 100000000 (negsuc 681717991) 1000000000 (pos 147621006) 1000000000
      ∷ v (negsuc 525731026) 1000000000 (negsuc 850651025) 1000000000 (pos 0) 1
      ∷ v (negsuc 4) 10 (negsuc 809017002) 1000000000 (pos 309017003) 1000000000
      ∷ v (negsuc 238856002) 1000000000 (negsuc 864188014) 1000000000 (pos 442862988) 1000000000
      ∷ v (negsuc 26286598) 100000000 (negsuc 951056003) 1000000000 (pos 162459999) 1000000000
      ∷ v (negsuc 864188014) 1000000000 (negsuc 442862987) 1000000000 (pos 238856003) 1000000000
      ∷ v (negsuc 809017002) 1000000000 (negsuc 309017002) 1000000000 (pos 5) 10
      ∷ v (negsuc 688190996) 1000000000 (negsuc 587785005) 1000000000 (pos 425325006) 1000000000
      ∷ v (negsuc 681717991) 1000000000 (negsuc 147621005) 1000000000 (pos 71656698) 100000000
      ∷ v (negsuc 442862987) 1000000000 (negsuc 238856002) 1000000000 (pos 864188015) 1000000000
      ∷ v (negsuc 587785005) 1000000000 (negsuc 425325005) 1000000000 (pos 688190997) 1000000000
      ∷ v (negsuc 309017002) 1000000000 (negsuc 4) 10 (pos 809017003) 1000000000
      ∷ v (negsuc 147621005) 1000000000 (negsuc 71656697) 100000000 (pos 681717992) 1000000000
      ∷ v (negsuc 425325005) 1000000000 (negsuc 688190996) 1000000000 (pos 587785006) 1000000000
      ∷ v (negsuc 162459998) 1000000000 (negsuc 26286598) 100000000 (pos 951056004) 1000000000
      ∷ v (pos 442862988) 1000000000 (negsuc 238856002) 1000000000 (pos 864188015) 1000000000
      ∷ v (pos 162459999) 1000000000 (negsuc 26286598) 100000000 (pos 951056004) 1000000000
      ∷ v (pos 309017003) 1000000000 (negsuc 4) 10 (pos 809017003) 1000000000
      ∷ v (pos 147621006) 1000000000 (negsuc 71656697) 100000000 (pos 681717992) 1000000000
      ∷ v (pos 0) 1 (negsuc 525731026) 1000000000 (pos 850651026) 1000000000
      ∷ v (pos 425325006) 1000000000 (negsuc 688190996) 1000000000 (pos 587785006) 1000000000
      ∷ v (pos 587785006) 1000000000 (negsuc 425325005) 1000000000 (pos 688190997) 1000000000
      ∷ v (pos 688190997) 1000000000 (negsuc 587785005) 1000000000 (pos 425325006) 1000000000
      ∷ v (negsuc 955422996) 1000000000 (pos 295242012) 1000000000 (pos 0) 1
      ∷ v (negsuc 951056003) 1000000000 (pos 162459999) 1000000000 (pos 26286599) 100000000
      ∷ v (negsuc 0) 1 (pos 0) 1 (pos 0) 1
      ∷ v (negsuc 850651025) 1000000000 (pos 0) 1 (pos 525731027) 1000000000
      ∷ v (negsuc 955422996) 1000000000 (negsuc 295242011) 1000000000 (pos 0) 1
      ∷ v (negsuc 951056003) 1000000000 (negsuc 162459998) 1000000000 (pos 26286599) 100000000
      ∷ v (negsuc 864188014) 1000000000 (pos 442862988) 1000000000 (negsuc 238856002) 1000000000
      ∷ v (negsuc 951056003) 1000000000 (pos 162459999) 1000000000 (negsuc 26286598) 100000000
      ∷ v (negsuc 809017002) 1000000000 (pos 309017003) 1000000000 (negsuc 4) 10
      ∷ v (negsuc 864188014) 1000000000 (negsuc 442862987) 1000000000 (negsuc 238856002) 1000000000
      ∷ v (negsuc 951056003) 1000000000 (negsuc 162459998) 1000000000 (negsuc 26286598) 100000000
      ∷ v (negsuc 809017002) 1000000000 (negsuc 309017002) 1000000000 (negsuc 4) 10
      ∷ v (negsuc 681717991) 1000000000 (pos 147621006) 1000000000 (negsuc 71656697) 100000000
      ∷ v (negsuc 681717991) 1000000000 (negsuc 147621005) 1000000000 (negsuc 71656697) 100000000
      ∷ v (negsuc 850651025) 1000000000 (pos 0) 1 (negsuc 525731026) 1000000000
      ∷ v (negsuc 688190996) 1000000000 (pos 587785006) 1000000000 (negsuc 425325005) 1000000000
      ∷ v (negsuc 587785005) 1000000000 (pos 425325006) 1000000000 (negsuc 688190996) 1000000000
      ∷ v (negsuc 425325005) 1000000000 (pos 688190997) 1000000000 (negsuc 587785005) 1000000000
      ∷ v (negsuc 425325005) 1000000000 (negsuc 688190996) 1000000000 (negsuc 587785005) 1000000000
      ∷ v (negsuc 587785005) 1000000000 (negsuc 425325005) 1000000000 (negsuc 688190996) 1000000000
      ∷ v (negsuc 688190996) 1000000000 (negsuc 587785005) 1000000000 (negsuc 425325005) 1000000000
      ∷ []

  -- A code that the table does not have counts as 0.
  unfoldable pub read_dir : Cmd (ℕ × ℕ × ℕ)
  read_dir = do
    code ← read_byte
    let i = if ltb code num_vertex_normals then code else 0
    elim (get_elem? vertex_normals i) [ none ↦ λ m. fault | some d ↦ pure d ]

  abbrev pub dot : ℕ × ℕ × ℕ → ℕ × ℕ × ℕ → ℕ
  dot (x, y, z) (a, b, c) =
      narrow
        (add (add (mul (widen x) (widen a)) (mul (widen y) (widen b))) (mul (widen z) (widen c)))

  -- The loop over the table: the entries that are left, the number of the next, and the best so far.
  unfoldable pub best_dir : List (ℕ × ℕ × ℕ) → ℕ → ℕ × ℕ × ℕ → ℕ → ℤ → ℤ
  best_dir [] j a maxdot maxdotindex = maxdotindex
  best_dir (n ∷ ns) j a maxdot maxdotindex =
      let d = dot n a in
      let taken = best_dir ns (j + 1) a d (pos j) in
      let kept = best_dir ns (j + 1) a maxdot maxdotindex in
      if less (widen maxdot) (widen d) then taken else kept

  unfoldable pub write_dir : ℕ × ℕ × ℕ → Cmd (Unit {0})
  write_dir a = write_byte (best_dir vertex_normals 0 a (narrow (lit (negsuc 999998) 1)) (negsuc 0))
