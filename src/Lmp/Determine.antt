-- ===== src/Lmp/Determine.antt =====
-- src/ulmp.c, `LMP_self_determine_type`: which games a file can be of, by its size, by its header
-- and, where that leaves several, by the averages of its turning bytes.
-- The source compares two quotients of doubles. Sums and counts here are integers below 2 ^ 21, so
-- that the comparison is that of the exact fractions, which is written without the division.
pub mod Sets
pub mod Laws
use lmpc.Base.{
  ℕ, zero, suc, ◌+◌, ◌-◌, ◌*◌, ◌<◌, Bool, not, ◌&&◌, ◌||◌, List, [], ◌∷◌, ltb, leb, ◌==◌, length,
  get_or, take, drop, if◌then◌else◌, bit_and, bit_or,
}
use lmpc.Base.Int.{ℤ, pos, negsuc, ◌+ℤ◌, pos_part, neg_part}
use lmpc.Base.Result.{Result, Error, ok, err, ◌>>=◌, ◌>>◌, fail_if}
use lmpc.Binblock.{signed_char}
use lmpc.Lmp.{Lmp}
use lmpc.Lmp.Game.{
  unknown, doom_old, doom_new, doom2, heretic, hexen_old, hexen_new, strife, header_doom_old,
  header_doom_new, header_heretic, header_hexen_old, header_hexen_new, header_strife, short_tic,
  long_tic, has_game, without, fits,
}

-- The bytes of `bs` over the front of the array `h`.
abbrev pub overlay : List ℕ → List ℕ → List ℕ
overlay [] h = h
overlay (b ∷ bs) [] = []
overlay (b ∷ bs) (x ∷ h) = b ∷ overlay bs h

-- `rewind(l->file); if (fread(l->header,1,n,l->file)==0) syserror(FIREAD,...)`. A short file fills
-- the front of the array only.
unfoldable pub read_header_bytes : ℕ → Lmp → Result Lmp
read_header_bytes n l = do
  fail_if (length (take n l.file) == 0) Error.firead
  ok (record l { header = overlay (take n l.file) l.header })

abbrev pub header_at : Lmp → ℕ → ℕ
header_at l i = get_or l.header i 0

-- The six tests of the size.
unfoldable pub size_game : ℕ → ℕ
unfolding fits
size_game filesize =
    let a = if fits filesize header_doom_old short_tic then doom_old else 0 in
    let b = if fits filesize header_doom_new short_tic then bit_or doom_new doom2 else 0 in
    let c = if fits filesize header_heretic long_tic then heretic else 0 in
    let d = if fits filesize header_hexen_old long_tic then hexen_old else 0 in
    let e = if fits filesize header_hexen_new long_tic then hexen_new else 0 in
    let f = if fits filesize header_strife long_tic then strife else 0 in
    bit_or (bit_or (bit_or (bit_or (bit_or a b) c) d) e) f

-- `for (i=first,n=0,av=0; i<filled; i+=step,n++) av+=buffer[i]`: the sum and the count, over the
-- bytes from `first` on; `wait` bytes are passed over before the next one counts.
unfoldable pub stride_sum : ℕ → ℕ → List ℕ → ℤ × ℕ
stride_sum step wait [] = (pos 0, 0)
stride_sum step zero (b ∷ bs) =
    let (av, n) = stride_sum step (step - 1) bs in (signed_char b +ℤ av, n + 1)
stride_sum step (suc wait) (b ∷ bs) = stride_sum step wait bs

-- `fabs(av/n)` as a fraction.
unfoldable pub average : ℕ → ℕ → List ℕ → ℕ × ℕ
unfolding stride_sum
average first step buffer =
    let (av, n) = stride_sum step 0 (drop first buffer) in (pos_part av + neg_part av, n)

abbrev pub less : ℕ × ℕ → ℕ × ℕ → Bool
less (a, n) (b, m) = ltb (a * m) (b * n)

-- The switch over the five sets that need the averages.
unfoldable pub guess : ℕ → ℕ → List ℕ → Result ℕ
unfolding average
guess game year buffer =
    let av_d = average 0x09 4 buffer in
    let av_h = average 0x09 6 buffer in
    let av_o = average 0x0D 6 buffer in
    let av_n = average 0x15 6 buffer in
    let newer = if leb 96 year then hexen_new else heretic in
    if game == bit_or doom_old heretic
    then ok (if less av_d av_h then doom_old else heretic)
    else if game == bit_or doom_old hexen_old
    then ok (if less av_d av_o then doom_old else hexen_old)
    else if game == bit_or doom_old hexen_new
    then ok (if less av_d av_n then doom_old else hexen_new)
    else if game == bit_or heretic hexen_new
    then ok newer
    else if game == bit_or (bit_or doom_old heretic) hexen_new
    then ok (if less av_d av_n then doom_old else newer)
    else err Error.wlmp

abbrev pub minbuf : ℕ
minbuf = 2000

abbrev pub maxbuf : ℕ
maxbuf = 60000

-- The first byte is a version of 104 or more: DOOM_new, DOOM2 or both.
unfoldable pub determine_new : ℕ → Lmp → Result Lmp
determine_new game l = do
  fail_if (not (has_game game (bit_or doom_new doom2))) Error.wlmp
  fail_if (ltb l.filesize (header_doom_new + 1)) Error.wlmp
  l' ← read_header_bytes header_doom_new l
  ok (record l' {
    game =
        if ltb 1 (header_at l' 2)
        then doom_new
        else if ltb 9 (header_at l' 3)
        then doom2
        else bit_or doom_new doom2;
  })

-- The first byte is 101.
unfoldable pub determine_strife : ℕ → Lmp → Result Lmp
determine_strife game l = do
  fail_if (not (has_game game strife)) Error.wlmp
  fail_if (ltb l.filesize (header_strife - 1)) Error.wlmp
  l' ← read_header_bytes header_strife l
  ok (record l' { game = strife })

-- What the level and the player classes exclude from a set of the four old games.
unfoldable pub exclude : Lmp → ℕ → ℕ
exclude l game =
    let a = if ltb 1 l.episode then without (without game hexen_old) hexen_new else game in
    let b = if ltb 9 l.map then without (without a doom_old) heretic else a in
    if (header_at l 4 == 2) || (header_at l 6 == 2) then without (without b doom_old) heretic else b

-- One game is taken as it is; several need the bytes of the file.
unfoldable pub decide_old : Lmp → ℕ → Result ℕ
decide_old l left =
    let single =
      (left == doom_old) || (left == heretic) || (left == hexen_old) || (left == hexen_new) in
    let buffer = take (if ltb maxbuf l.filesize then maxbuf else l.filesize) l.file in
    if single then ok left else (do
      fail_if (ltb l.filesize minbuf) Error.uktype
      fail_if (length buffer == 0) Error.firead
      guess left l.year buffer)

-- Any other first byte: DOOM_old, HERETIC, HEXEN_old or HEXEN_new.
unfoldable pub determine_old : ℕ → Lmp → Result Lmp
determine_old game l = do
  let possible = without (without (without game doom_new) doom2) strife
  fail_if (possible == unknown) Error.wlmp
  let l' = record l { episode = header_at l 1; map = header_at l 2 }
  let left = exclude l' possible
  fail_if (left == unknown) Error.wlmp
  found ← decide_old l' left
  ok (record l' { game = found })

unfoldable pub lmp_self_determine_type : Lmp → Result Lmp
lmp_self_determine_type l = do
  fail_if (ltb l.filesize (header_doom_old + 1)) Error.wlmp
  let game = size_game l.filesize
  l' ← read_header_bytes header_doom_old l
  if leb 104 (header_at l' 0)
      then determine_new game l'
      else if header_at l' 0 == 101
      then determine_strife game l'
      else determine_old game l'
