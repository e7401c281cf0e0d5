-- ===== src/Examples/Server.antt =====
-- The theorems about src/dbs.c at concrete inputs: one watcher, two entries in the table, short packets.
use lmpc.Base.{
  ℕ, zero, suc, ◌≡◌, refl, true, false, List, [], ◌∷◌, ◌++◌, none, some, replicate, drop, take,
  get_elem?, arith,
}
use lmpc.Base.Int.{pos_part, ℤ, pos}
use lmpc.Binblock.{Block, ok, get_next_unsigned_char, peek}
use lmpc.Binblock.Number.{read_long_be}
use lmpc.Dbs.Packet.{Address, ack_rel, send_udp_packet, receive_udp_packet}
use lmpc.Dbs.Packet.Laws.{receive_udp_packet-send_udp_packet}
use lmpc.Dbs.Transfer.{hears, silence, failed, done, send_init_dem_packet, packet}
use lmpc.Dbs.Transfer.Confirmed.{Acknowledged, send_init_dem_packet-Acknowledged}
use lmpc.Dbs.Transfer.Late.{
  answer, answers, send_init_dem_packet-answered, send_init_dem_packet-late,
}
use lmpc.Dbs.Server.{Player, Qsdb, serves, find_free, is_known, connect, enlist, update}
use lmpc.Dbs.Server.Race.{World, connects, starts, Reach, here, later, set_used}
use lmpc.Dbs.Server.Race.Distinct.{Distinct, Calm, Reach-Distinct}
use lmpc.Dbs.Server.Race.Overwritten.{connect-connect}
use lmpc.Dbs.Client.{Scan, Session, on, take_packet, take_numbered, obey_all, obey, get_order}
use lmpc.Dbs.Client.Twice.{acknowledged, take_packet-take_packet}

abbrev here_port : Address
here_port = record { sin_addr = 7; sin_port = 1000 }

abbrev there_port : Address
there_port = record { sin_addr = 8; sin_port = 1000 }

-- Nineteen bytes, three of them messages.
abbrev small : Block
small = record { size = 19; buffer = replicate 16 0 ++ (1 ∷ 2 ∷ 3 ∷ []); p = 0; end = 19; base = 0 }

abbrev room : Block
room = record { size = 0; buffer = replicate 40 0; p = 0; end = 0; base = 0 }

receive_udp_packet-send_udp_packet_example :
    (bytes : List ℕ) × (m' : Block) × (n' : Block) × (send_udp_packet 9 small ≡ ok bytes m')
    × (receive_udp_packet bytes room ≡ ok 9 n')
    × (n'.p ≡ 4)
    × (n'.end ≡ 19)
    × (drop 4 (take 19 n'.buffer) ≡ drop 4 (take 19 small.buffer))
receive_udp_packet-send_udp_packet_example =
    receive_udp_packet-send_udp_packet 9 small room (omega arith) (omega arith) (omega arith)
      (omega arith) (omega arith)

abbrev number_zero : ℕ → ℕ
number_zero n = 0

-- The acknowledgement comes in the second try.
send_init_dem_packet-Acknowledged_example :
    Acknowledged here_port 0 3 (silence ∷ hears here_port ack_rel number_zero ∷ []) (
      send_init_dem_packet 3 here_port small 0 (silence ∷ hears here_port ack_rel number_zero ∷ []))
send_init_dem_packet-Acknowledged_example =
    send_init_dem_packet-Acknowledged 3 here_port small 0
      (silence ∷ hears here_port ack_rel number_zero ∷ [])

send_init_dem_packet-answered_example :
    (log : List (List ℕ)) × (send_init_dem_packet 3 here_port small 0
        (answers here_port ((1, number_zero) ∷ []) [])
      ≡ done 1 [] log)
send_init_dem_packet-answered_example =
    send_init_dem_packet-answered 3 here_port small 0 ((1, number_zero) ∷ []) [] refl
      (refl, omega arith, tt)

send_init_dem_packet-late_example :
    (log : List (List ℕ)) × (send_init_dem_packet 3 here_port small 0
        (answer here_port number_zero 2 [])
      ≡ failed log)
send_init_dem_packet-late_example =
    send_init_dem_packet-late 2 here_port small 0 number_zero [] (omega arith) refl

abbrev nobody : Player ℕ
nobody = record {
  pid = pos 0;
  used = false;
  sequence = 0;
  cseq = 0;
  cseqused = false;
  caddr = here_port;
  port = 0;
  name = 97 ∷ [];
  colors = pos 0;
  frags = pos 0;
  logintime = 0;
  address = 98 ∷ [];
}

abbrev two_free : Qsdb ℕ
two_free = record { name = []; address = []; demfilename = []; shm = nobody ∷ nobody ∷ [] }

abbrev one_taken : Qsdb ℕ
one_taken = record two_free { shm = enlist here_port 0 [] (pos 5) nobody ∷ nobody ∷ [] }

abbrev first_world : World ℕ
first_world = record { shm = two_free.shm; forked = []; serving = [] }

abbrev last_world : World ℕ
last_world = record { shm = update 0 (set_used true) one_taken.shm; forked = []; serving = 0 ∷ [] }

one_connects : connect here_port 0 [] (pos 5) room two_free ≡ serves 0 one_taken
unfolding connect find_free is_known
one_connects = refl

one_serves : Reach Calm first_world last_world
one_serves =
    later (later here (connects two_free one_taken 0 here_port 0 [] 5 room refl refl one_connects))
      (starts [] [] 0 refl)

none_used : (i : ℕ) (p : Player ℕ) → get_elem? first_world.shm i ≡ some p → p.used ≡ false
none_used zero p h = ground arith
none_used (suc zero) p h = ground arith
none_used (suc (suc i)) p h = cc

Reach-Distinct_example : Distinct last_world.shm
Reach-Distinct_example = Reach-Distinct none_used refl one_serves

connect-connect_example :
    (q'' : Qsdb ℕ) × (connect there_port 1 [] (pos 6) room one_taken ≡ serves 0 q'')
    × (p : Player ℕ) × (get_elem? q''.shm 0 ≡ some p)
    × (p.caddr ≡ there_port)
unfolding is_known
connect-connect_example =
    connect-connect here_port there_port 0 1 [] [] 5 6 room room two_free one_taken 0 one_connects
      refl

abbrev no_scan : Scan
no_scan = record { name = λ ts. none; color = λ ts. (pos 0, pos 0) }

-- A `keep alive` with the number 5.
abbrev alive_packet : Block
alive_packet = record { size = 9; buffer = 0 ∷ 0 ∷ 0 ∷ 5 ∷ 1 ∷ []; p = 0; end = 5; base = 0 }

abbrev started : Session ℕ
started = record {
  pls = nobody;
  pd = small;
  offset = 0;
  tries = [];
  sent = [];
  gotit = false;
  runtime = false;
}

abbrev heard_once : Session ℕ
heard_once = record started {
  pls = record nobody { cseqused = true; cseq = 5 };
  sent = packet ack_rel 5 [] ∷ [];
  gotit = true;
}

hears_once : take_packet no_scan 20 [] alive_packet started ≡ on heard_once
unfolding take_packet take_numbered obey_all obey get_order read_long_be get_next_unsigned_char peek
hears_once = refl

take_packet-take_packet_example :
    (a : ℤ) × (am' : Block) × (read_long_be alive_packet ≡ ok a am')
    × (take_packet no_scan 20 [] alive_packet heard_once
        ≡ on (acknowledged no_scan 20 [] (pos_part a) heard_once))
take_packet-take_packet_example =
    take_packet-take_packet no_scan 20 [] alive_packet started heard_once hears_once
