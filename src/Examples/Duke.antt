-- ===== src/Examples/Duke.antt =====
-- The theorems about src/udmo.c at a small recording of Redneck Rampage: one player, one tic. And the
-- runtime packet of src/dbs.c.
use lmpc.Base.{
  ℕ, zero, suc, ◌+◌, ◌*◌, ◌^◌, ◌%◌, ◌<◌, ◌≤◌, ◌≡◌, ◌↔◌, refl, true, List, [], ◌∷◌, ◌++◌, some, All,
  replicate, length, drop, arith,
}
use lmpc.Binblock.{Block, ok, get_next_unsigned_char, peek}
use lmpc.Binblock.Number.{get_next_float}
use lmpc.Dbs.Packet.{non_rel}
use lmpc.Dbs.Transfer.{messages_of, packet}
use lmpc.Dbs.Runtime.{
  SetsAngle, read_camera, send_runtime_dem_packet, send_runtime_dem_packet-packet,
}
use lmpc.Dmo.{redneck, long_at}
use lmpc.Dmo.Tail.{tail_at, check_dmo_tail, is_dmo, try_14plus, try_redneck, chunk_sizes}
use lmpc.Dmo.Tail.Laws.{IsByte, Chunks, check_dmo_tail_iff}
use lmpc.Dmo.Header.{dmo_readheader}
use lmpc.Dmo.Header.Laws.{Counts, dmo_readheader-is_dmo}
use lmpc.Dmo.Macro.{dmo_readmacroblock, block_of, sum_tics}
use lmpc.Dmo.Macro.Ends.{Fits, dmo_readmacroblock-Fits}
use lmpc.Dmo.Macro.Sums.{sum_to, sum_tics-sum_to}
use lmpc.Examples.Quake.{whole}

abbrev one_chunk : List ℕ
one_chunk = 6 ∷ 0 ∷ 10 ∷ 0 ∷ 0 ∷ 0 ∷ 0 ∷ 0 ∷ []

abbrev recording : List ℕ
recording = 1 ∷ replicate 9 0 ++ (1 ∷ replicate 532 0 ++ one_chunk)

zeros-IsByte : (n : ℕ) (xs : List ℕ) → All IsByte xs → All IsByte (replicate n 0 ++ xs)
zeros-IsByte zero xs h = h
zeros-IsByte (suc n) xs h = (omega arith, zeros-IsByte n xs h)

one_chunk-IsByte : All IsByte one_chunk
one_chunk-IsByte = (
  omega arith,
  (
    omega arith,
    (omega arith, (omega arith, (omega arith, (omega arith, (omega arith, (omega arith, tt)))))),
  ),
)

abbrev behind_playernum : List ℕ
behind_playernum = 1 ∷ replicate 532 0 ++ one_chunk

behind_playernum-IsByte : All IsByte behind_playernum
behind_playernum-IsByte = (omega arith, zeros-IsByte 532 one_chunk one_chunk-IsByte)

recording-IsByte : All IsByte recording
recording-IsByte = (omega arith, zeros-IsByte 9 behind_playernum behind_playernum-IsByte)

recording-small : length recording < 2 ^ 48
recording-small = omega arith

recording-redneck : is_dmo recording ≡ some redneck
unfolding is_dmo try_14plus try_redneck check_dmo_tail chunk_sizes
recording-redneck = refl

check_dmo_tail_iff_example :
    (tail_at recording 543 1 ≡ some true)
    ↔ ((543 ≤ length recording) × Chunks 1 (drop 543 recording))
check_dmo_tail_iff_example =
    check_dmo_tail_iff recording 543 1 recording-IsByte recording-small (omega arith)

dmo_readheader-is_dmo_example :
    Counts redneck (long_at recording 0) (dmo_readheader redneck recording)
dmo_readheader-is_dmo_example =
    dmo_readheader-is_dmo recording redneck recording-IsByte recording-small recording-redneck
      (λ e. absurd (omega arith)) (λ e. absurd (omega arith)) (λ e. absurd (omega arith))

dmo_readmacroblock-Fits_example : Fits 1 (
    dmo_readmacroblock
      (block_of (λ n. n) (λ n. n) (λ bs. some (10, replicate 10 7)) redneck 1 recording)
      1
      recording
      543
      (λ j. 0)
      (λ j. 0))
dmo_readmacroblock-Fits_example =
    dmo_readmacroblock-Fits (λ n. n) (λ n. n) (λ bs. some (10, replicate 10 7)) redneck 1 recording
      543 (λ j. 0) (λ j. 0)

-- The second tic of two.
sum_tics-sum_to_example :
    sum_tics 10 (λ j. 200) 2 (λ j. 0) (1 * 10 + 3) ≡ sum_to 10 (λ j. 200) 3 1 % 256
sum_tics-sum_to_example =
    sum_tics-sum_to 10 (λ j. 200) 2 (λ j. 0) 1 3 (λ p. omega arith) (omega arith) (omega arith)

-- The first angle is 1.0, and one message follows.
abbrev tilted : Block
tilted = record {
  size = 17;
  buffer = 1 ∷ 0 ∷ 0 ∷ 0 ∷ 0 ∷ 0 ∷ 128 ∷ 63 ∷ replicate 8 0 ++ (1 ∷ []);
  p = 0;
  end = 17;
  base = 0;
}

abbrev spare : Block
spare = record { size = 0; buffer = replicate 40 0; p = 0; end = 0; base = 0 }

tilted-camera : read_camera tilted ≡ ok (1065353216, 0, 0) (record tilted { p = 16 })
unfolding get_next_float get_next_unsigned_char peek
tilted-camera = refl

send_runtime_dem_packet-packet_example :
    (cs : List ℕ) × (pn' : Block) × SetsAngle whole (1065353216, 0, 0) cs
    × (send_runtime_dem_packet whole tilted 4 spare
        ≡ ok (packet non_rel 4 (cs ++ messages_of tilted)) pn')
send_runtime_dem_packet-packet_example =
    send_runtime_dem_packet-packet whole tilted (record tilted { p = 16 }) spare (1065353216, 0, 0)
      4 tilted-camera (omega arith) (omega arith)
