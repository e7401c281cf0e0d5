-- ===== src/Dbs/Client.antt =====
-- src/dbs.c, `PlayServer` in the child process of a watcher, from its start to the end of the init
-- phase: the orders of the watcher, and the blocks of the recording that they ask for.
pub mod Twice
use lmpc.Base.{
  ℕ, zero, suc, ◌+◌, ◌-◌, ◌*◌, Bool, true, false, not, ◌&&◌, ◌||◌, List, [], ◌∷◌, ◌++◌, Option,
  none, some, ◌==◌, ltb, leb, if◌then◌else◌, length, take, drop,
}
use lmpc.Base.Int.{ℤ, pos, pos_part, ◌+ℤ◌}
use lmpc.Base.Result.{Error}
use lmpc.Base.Text.{codes}
use lmpc.Binblock.{
  Block, Run, ok, exit, fault, hangs, Cmd, ◌>>=◌, ◌>>◌, pure, get_next_unsigned_char,
  put_unsigned_char, shift_left,
}
use lmpc.Binblock.Number.{read_long_be, put_long}
use lmpc.Binblock.Text.{get_next_string}
use lmpc.Dem.Edit.{same}
use lmpc.Dem.Block.{dem_block_read_bin}
use lmpc.Dbs.Packet.{Address, equal_addr_in, last_rel, ack_rel}
use lmpc.Dbs.Server.{Player, answer}
use lmpc.Dbs.Transfer.{
  Try, Sending, done, failed, still_waiting, endless, packet, send_init_dem_packet, keep_alive,
}

abbrev pub console_order : ℕ
console_order = 0x04

abbrev pub ccrep_accept : ℕ
ccrep_accept = 0x81

-- The answer to the request, with the port of the child.
unfoldable pub accept_packet : ℕ → Cmd (List ℕ)
accept_packet port = answer (do put_unsigned_char ccrep_accept; put_long (pos port))

-- What `sscanf` leaves: the name, where it finds one, and the two numbers of a colour.
pub record Scan : Type 0 where
  pub name : List ℕ → Option (List ℕ)
  pub color : List ℕ → ℤ × ℤ

-- The variables of the child, with the packets that it has sent. `offset` is the place in the file,
-- and `tries` is what the tries of `SendInitDEMPacket` will meet.
pub record Session (T : Type 0) : Type 0 where
  pub pls : Player T
  pub pd : Block
  pub offset : ℕ
  pub tries : List Try
  pub sent : List (List ℕ)
  pub gotit : Bool
  pub runtime : Bool

-- The child goes on; leaves by EXITCHILD; leaves by `syserror`, with a code of the program
-- or with `errno`; waits for ever; or has left its
-- buffers.
pub data Going (T : Type 0) : Type 0 where
  on : Session T → Going T
  leaves : Session T → Going T
  exits : Error → Going T
  dies : Going T
  stuck : Session T → Going T
  crashes : Going T

pub data Order : Type 0 where
  alive problem : Order
  console : List ℕ → Order

unfoldable pub get_order : Cmd Order
get_order = do
  b ← get_next_unsigned_char
  let text = (do ts ← get_next_string; pure (console ts))
  if b == keep_alive then pure alive else if b == console_order then text else pure problem

-- `strncmp(ts, word, strlen(word)) == 0`
abbrev pub starts_with : List ℕ → List ℕ → Bool
starts_with word ts = same word (take (length word) ts)

module _ {T : Type 0} where
  abbrev pub is_new : ℕ → Player T → Bool
  is_new aseq p = not p.cseqused || (ltb p.cseq aseq && p.cseqused)

  infixl 5 ◌then_go◌
  abbrev pub ◌then_go◌ : Going T → (Session T → Going T) → Going T
  on s then_go k = k s
  leaves s then_go k = leaves s
  exits e then_go k = exits e
  dies then_go k = dies
  stuck s then_go k = stuck s
  crashes then_go k = crashes

-- What `select` finds in one round of the loop over `retry`: nothing in time, a failure, or what
-- `ReceiveUDPPacket` has left in `aaddr`, `atype` and `am`.
pub data Found : Type 0 where
  quiet broken : Found
  comes : Address → ℕ → Block → Found

module _ {T : Type 0} (S : Scan) (maxretry : ℕ) (file : List ℕ) where
  -- `pls->name` has 100 bytes.
  abbrev pub rename : List ℕ → Session T → Going T
  rename ts s = elim (S.name ts) [
    | none ↦ on s
    | some n ↦
        if ltb (length n) 100 then on (record s { pls = record s.pls { name = n } }) else crashes
  ]

  abbrev pub recolor : List ℕ → Session T → Session T
  recolor ts s =
      let (col_s, col_p) = S.color ts in
      record s { pls = record s.pls { colors = col_p +ℤ shift_left col_s 16 } }

  abbrev pub after_transfer : Session T → Block → ℕ → Sending → Going T
  after_transfer s pd offset (done sequence ts log) = on (record s {
    pls = record s.pls { sequence = sequence };
    pd = pd;
    offset = offset;
    tries = ts;
    sent = s.sent ++ log;
  })
  after_transfer s pd offset (failed log) =
      leaves (record s { pd = pd; offset = offset; sent = s.sent ++ log })
  after_transfer s pd offset (still_waiting log) =
      stuck (record s { pd = pd; offset = offset; sent = s.sent ++ log })
  after_transfer s pd offset endless = stuck s

  -- `DEM_block_read_bin(&d, &pd); if (SendInitDEMPacket(&pd, ...)==-1) EXITCHILD;`
  unfoldable pub send_next_block : Session T → Going T
  send_next_block s = elim (dem_block_read_bin file s.offset s.pd) [
    | ok offset pd ↦
        after_transfer s pd offset
          (send_init_dem_packet maxretry s.pls.caddr pd s.pls.sequence s.tries)
    | exit e ↦ exits e
    | fault ↦ crashes
    | hangs ↦ stuck s
  ]

  -- The tests of one console order, one after the other.
  abbrev pub on_name : List ℕ → Session T → Going T
  on_name ts s = if starts_with (codes "name") ts then rename ts s else on s

  abbrev pub on_color : List ℕ → Session T → Going T
  on_color ts s = on (if starts_with (codes "color") ts then recolor ts s else s)

  abbrev pub on_request : List ℕ → List ℕ → Session T → Going T
  on_request word ts s = if same ts word then send_next_block s else on s

  abbrev pub on_begin : List ℕ → Session T → Going T
  on_begin ts s = on (if same ts (codes "begin") then record s { runtime = true } else s)

  unfoldable pub obey_console : List ℕ → Session T → Going T
  unfolding send_next_block
  obey_console ts s =
      on_name ts s
      then_go on_color ts
      then_go on_request (codes "prespawn") ts
      then_go on_request (codes "spawn ") ts
      then_go on_begin ts

  unfoldable pub obey : Order → Session T → Going T
  unfolding obey_console
  obey alive s = on (record s { gotit = true })
  obey problem s = on s
  obey (console ts) s = obey_console ts (record s { gotit = true })

  -- `while (am.p < am.end)`, on fuel: each round takes a byte.
  unfoldable pub obey_all : ℕ → Session T → Block → Going T
  obey_all zero s am = stuck s
  obey_all (suc fuel) s am = elim (ltb am.p am.end) [
    | false ↦ on s
    | true ↦ elim (get_order am) [
      | ok o am' ↦ obey o s then_go λ s'. obey_all fuel s' am'
      | exit e ↦ exits e
      | fault ↦ crashes
      | hangs ↦ stuck s
    ]
  ]

  -- A packet from the watcher that wants an acknowledgement, from its number on, in `am` behind the
  -- head.
  unfoldable pub take_numbered : ℕ → Run ℤ → Session T → Going T
  unfolding obey_all
  take_numbered end (ok a am) s =
      let aseq = pos_part a in
      let acked = record s { sent = s.sent ++ (packet ack_rel aseq [] ∷ []) } in
      if is_new aseq s.pls
      then obey_all (suc (end - am.p))
          (record acked { pls = record s.pls { cseqused = true; cseq = aseq } }) am
      else on acked
  take_numbered end (exit e) s = exits e
  take_numbered end fault s = crashes
  take_numbered end hangs s = stuck s

  unfoldable pub take_packet : Block → Session T → Going T
  unfolding take_numbered
  take_packet am s = take_numbered am.end (read_long_be am) s

  unfoldable pub on_found : Found → Session T → Going T
  unfolding take_packet
  on_found quiet s = on s
  on_found broken s = dies
  on_found (comes aaddr atype am) s =
      if equal_addr_in aaddr s.pls.caddr && (atype == last_rel) then take_packet am s else on s

  -- `while (!runtime)` around the loop over `retry`; `on` is the end of the init phase. A round that
  -- gets something in the last try ends the child as well.
  unfoldable pub init_phase : ℕ → List Found → Session T → Going T
  unfolding on_found
  init_phase retry [] s = stuck s
  init_phase retry (f ∷ fs) s = on_found f s then_go λ s'. elim (leb maxretry (retry + 1)) [
    | true ↦ leaves s'
    | false ↦ elim (s'.gotit && s'.runtime) [
      | true ↦ on s'
      | false ↦ init_phase (if s'.gotit then 0 else retry + 1) fs (record s' { gotit = false })
    ]
  ]
