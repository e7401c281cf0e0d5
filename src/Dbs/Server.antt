-- ===== src/Dbs/Server.antt =====
-- src/dbs.c, `ControlServer`: the requests that come to the port of the server, and the table of the
-- watchers, in the memory that the server shares with a child process for each of them.
pub mod Table
pub mod Race
use lmpc.Base.{
  ℕ, zero, suc, ◌+◌, ◌%◌, Bool, true, false, not, ◌&&◌, List, [], ◌∷◌, ◌++◌, Option, none, some,
  ◌==◌, ltb, if◌then◌else◌, length, get_elem?, set,
}
use lmpc.Base.Int.{ℤ, pos, negsuc}
use lmpc.Base.Text.{codes}
use lmpc.Binblock.{
  Block, Run, ok, exit, fault, Cmd, ◌>>=◌, ◌>>◌, pure, get_next_unsigned_char, put_unsigned_char,
}
use lmpc.Binblock.Number.{put_long}
use lmpc.Binblock.Text.{get_next_string, put_string}
use lmpc.Dem.Edit.{same}
use lmpc.Dbs.Packet.{Address, equal_addr_in, control, seek_to, size_is_cursor, send_udp_packet}

-- `shm_t`. Times are of any type.
pub record Player (T : Type 0) : Type 0 where
  pub pid : ℤ
  pub used : Bool
  pub sequence : ℕ
  pub cseq : ℕ
  pub cseqused : Bool
  pub caddr : Address
  pub port : ℕ
  pub name : List ℕ
  pub colors : ℤ
  pub frags : ℤ
  pub logintime : T
  pub address : List ℕ

-- `qsdb_t`, without the socket and the identifier of the shared memory. `shm` has `max_players`
-- entries.
pub record Qsdb (T : Type 0) : Type 0 where
  pub name : List ℕ
  pub address : List ℕ
  pub demfilename : List ℕ
  pub shm : List (Player T)

abbrev pub net_protocol_version : ℕ
net_protocol_version = 0x03

abbrev pub ccreq_connect : ℕ
ccreq_connect = 0x01

abbrev pub ccreq_server_info : ℕ
ccreq_server_info = 0x02

abbrev pub ccreq_player_info : ℕ
ccreq_player_info = 0x03

abbrev pub ccreq_rule_info : ℕ
ccreq_rule_info = 0x04

abbrev pub ccrep_reject : ℕ
ccrep_reject = 0x82

abbrev pub ccrep_server_info : ℕ
ccrep_server_info = 0x83

abbrev pub ccrep_player_info : ℕ
ccrep_player_info = 0x84

abbrev pub ccrep_rule_info : ℕ
ccrep_rule_info = 0x85

abbrev pub rules : List (List ℕ × List ℕ)
rules =
    (codes "sv_maxspeed", codes "320")
    ∷ (codes "sv_friction", codes "4")
    ∷ (codes "sv_gravity", codes "800")
    ∷ (codes "noexit", codes "0")
    ∷ (codes "teamplay", codes "0")
    ∷ (codes "timelimit", codes "0")
    ∷ (codes "fraglimit", codes "0")
    ∷ (codes "cmdline", [])
    ∷ []

-- An answer is built in the buffer of `r`, behind the head, and goes out as a control packet.
abbrev pub answer : Cmd (Unit {0}) → Cmd (List ℕ)
answer body = do seek_to 4; body; size_is_cursor; send_udp_packet control

unfoldable pub reject : Cmd (List ℕ)
reject =
    answer (do put_unsigned_char ccrep_reject; put_string (codes "too many watchers out there"))

-- The rule behind each one of the name, and no more than the last but one is looked at.
unfoldable pub put_next_rule : List ℕ → List (List ℕ × List ℕ) → Cmd (Unit {0})
put_next_rule rule ((n1, v1) ∷ (n2, v2) ∷ rest) = do
  let found = (do put_string n2; put_string v2)
  if same rule n1 then found else pure tt
  put_next_rule rule ((n2, v2) ∷ rest)
put_next_rule rule few = pure tt

unfoldable pub rule_body : List ℕ → Cmd (Unit {0})
rule_body [] = do put_string (codes "sv_maxspeed"); put_string (codes "320")
rule_body (b ∷ bs) = put_next_rule (b ∷ bs) rules

unfoldable pub rule_info : List ℕ → Cmd (List ℕ)
unfolding rule_body
rule_info rule = answer (do put_unsigned_char ccrep_rule_info; rule_body rule)

-- What a request leads to: a message on the terminal only, an answer, a new watcher of a number in
-- the table, or an access outside the table.
pub data Action (T : Type 0) : Type 0 where
  nothing : Action T
  replies : Run (List ℕ) → Action T
  serves : ℕ → Qsdb T → Action T
  outside : Action T

abbrev pub one_later : Option ℕ → Option ℕ
one_later none = none
one_later (some i) = some (suc i)

module _ {T : Type 0} where
  unfoldable pub count_players : List (Player T) → ℕ
  count_players [] = 0
  count_players (p ∷ ps) = (if p.used then 1 else 0) + count_players ps

  -- The number of the first entry that is not used; `none` is -1.
  unfoldable pub find_free : List (Player T) → Option ℕ
  find_free [] = none
  find_free (p ∷ ps) = let later = one_later (find_free ps) in if p.used then later else some 0

  -- `ignore`: the address is that of a watcher.
  unfoldable pub is_known : Address → List (Player T) → Bool
  is_known from [] = false
  is_known from (p ∷ ps) = if p.used && equal_addr_in from p.caddr then true else is_known from ps

  -- `*pls` before `fork`, and after it in the parent, for the value of `fork`.
  abbrev pub enlist : Address → T → List ℕ → ℤ → Player T → Player T
  enlist from now text (pos n) p = record p {
    caddr = from;
    logintime = now;
    port = from.sin_port;
    address = text;
    pid = pos n;
  }
  enlist from now text (negsuc n) p = record p {
    caddr = from;
    logintime = now;
    port = from.sin_port;
    address = text;
    pid = negsuc n;
    used = false;
  }

  abbrev pub update : ℕ → (Player T → Player T) → List (Player T) → List (Player T)
  update i f [] = []
  update zero f (p ∷ ps) = f p ∷ ps
  update (suc i) f (p ∷ ps) = p ∷ update i f ps

  -- The request to watch, of the right game and version.
  unfoldable pub connect : Address → T → List ℕ → ℤ → Block → Qsdb T → Action T
  connect from now text fork r q = if is_known from q.shm then nothing else elim (find_free q.shm) [
    | none ↦ replies (reject r)
    | some i ↦ serves i (record q { shm = update i (enlist from now text fork) q.shm })
  ]

  unfoldable pub server_info : Qsdb T → Cmd (List ℕ)
  server_info q = answer do
    put_unsigned_char ccrep_server_info
    put_string q.address
    put_string q.name
    put_string q.demfilename
    put_unsigned_char (count_players q.shm % 256)
    put_unsigned_char (length q.shm % 256)
    put_unsigned_char net_protocol_version

  abbrev pub player_body : ℕ → ℤ → Player T → Cmd (Unit {0})
  player_body n elapsed p = do
    put_unsigned_char ccrep_player_info
    put_unsigned_char (n % 256)
    put_string p.name
    put_long p.colors
    put_long p.frags
    put_long elapsed
    put_string p.address

  -- `elapsed` is the difference of two times in whole seconds.
  unfoldable pub player_info : (T → T → ℤ) → T → ℕ → Block → Qsdb T → Action T
  player_info elapsed now n r q =
      if ltb (length q.shm) n then nothing else elim (get_elem? q.shm n) [
        | none ↦ outside
        | some p ↦
            if p.used
            then replies (answer (player_body n (elapsed now p.logintime) p) r)
            else nothing
      ]

  -- One packet at the port, in the block `m` behind its head, with its type; `text` is the address in
  -- print, `fork` the value of `fork`, and `r` the block for the answer.
  module _ (elapsed : T → T → ℤ) (from : Address) (now : T) (text : List ℕ) (fork : ℤ)
      (r : Block) where
    abbrev pub on_connect : Qsdb T → Cmd (Action T)
    on_connect q = do
      game ← get_next_string
      version ← get_next_unsigned_char
      pure (
          if same game (codes "QUAKE") && (version == net_protocol_version)
          then connect from now text fork r q
          else nothing)

    abbrev pub on_server_info : Qsdb T → Cmd (Action T)
    on_server_info q = do
      game ← get_next_string
      version ← get_next_unsigned_char
      pure (if same game (codes "QUAKE") then replies (server_info q r) else nothing)

    abbrev pub on_player_info : Qsdb T → Cmd (Action T)
    on_player_info q = do n ← get_next_unsigned_char; pure (player_info elapsed now n r q)

    abbrev pub on_rule_info : Qsdb T → Cmd (Action T)
    on_rule_info q = do rule ← get_next_string; pure (replies (rule_info rule r))

    unfoldable pub on_opcode : Qsdb T → ℕ → Cmd (Action T)
    on_opcode q opcode =
        if opcode == ccreq_connect
        then on_connect q
        else if opcode == ccreq_server_info
        then on_server_info q
        else if opcode == ccreq_player_info
        then on_player_info q
        else if opcode == ccreq_rule_info
        then on_rule_info q
        else pure nothing

    unfoldable pub control_packet : ℕ → Qsdb T → Cmd (Action T)
    unfolding on_opcode
    control_packet packet_type q =
        let request = (do opcode ← get_next_unsigned_char; on_opcode q opcode) in
        if packet_type == control then request else pure nothing
