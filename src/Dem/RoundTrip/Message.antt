-- ===== src/Dem/RoundTrip/Message.antt =====
-- src/udem.c: the messages of one value, of two, and of none, and their bytes.
use lmpc.Base.{ℕ, length, ◌<◌, List, [], ◌∷◌, ◌++◌, arith}
use lmpc.Base.Int.{ℤ}
use lmpc.Binblock.Codec.{IsShort}
use lmpc.Binblock.RoundTrip.{short_bytes}
use lmpc.Dem.RoundTrip.Value.{byte, word, wide, time, line, IsValue, value_bytes}

-- A message, by the name that the source gives to its reader.
pub data Message : Type 0 where
  bad nop disconnect spawnbinary killedmonster foundsecret intermission sellscreen : Message
  version : ℤ → Message
  setview : ℤ → Message
  time_of : ℕ → Message
  print : List ℕ → Message
  stufftext : List ℕ → Message
  setpause : ℕ → Message
  signonnum : ℕ → Message
  centerprint : List ℕ → Message
  finale : List ℕ → Message
  cutscene : List ℕ → Message
  stopsound : ℤ → Message
  updatecolors : (player : ℕ) → (colors : ℕ) → Message
  updatestat : (index : ℕ) → (value : ℤ) → Message
  lightstyle : (style : ℕ) → (string : List ℕ) → Message
  updatename : (player : ℕ) → (netname : List ℕ) → Message
  updatefrags : (player : ℕ) → (frags : ℤ) → Message
  cdtrack : (fromtrack : ℕ) → (totrack : ℕ) → Message

-- The values fit their fields: numbers their bytes, strings the buffer of a reader.
abbrev pub IsMessage : Message → Type 0
IsMessage bad = Unit
IsMessage nop = Unit
IsMessage disconnect = Unit
IsMessage spawnbinary = Unit
IsMessage killedmonster = Unit
IsMessage foundsecret = Unit
IsMessage intermission = Unit
IsMessage sellscreen = Unit
IsMessage (version v) = IsValue (wide v)
IsMessage (setview v) = IsValue (word v)
IsMessage (time_of v) = IsValue (time v)
IsMessage (print v) = IsValue (line v)
IsMessage (stufftext v) = IsValue (line v)
IsMessage (setpause v) = IsValue (byte v)
IsMessage (signonnum v) = IsValue (byte v)
IsMessage (centerprint v) = IsValue (line v)
IsMessage (finale v) = IsValue (line v)
IsMessage (cutscene v) = IsValue (line v)
IsMessage (stopsound v) = IsShort v
IsMessage (updatecolors a b) = (a < 256) × (b < 256)
IsMessage (updatestat a b) = IsValue (byte a) × IsValue (wide b)
IsMessage (lightstyle a b) = IsValue (byte a) × IsValue (line b)
IsMessage (updatename a b) = IsValue (byte a) × IsValue (line b)
IsMessage (updatefrags a b) = IsValue (byte a) × IsValue (word b)
IsMessage (cdtrack a b) = IsValue (byte a) × IsValue (byte b)

-- The bytes of a message in a recording.
abbrev pub encode : Message → List ℕ
encode bad = 0x0 ∷ []
encode nop = 0x1 ∷ []
encode disconnect = 0x2 ∷ []
encode spawnbinary = 0x15 ∷ []
encode killedmonster = 0x1b ∷ []
encode foundsecret = 0x1c ∷ []
encode intermission = 0x1e ∷ []
encode sellscreen = 0x21 ∷ []
encode (version v) = 0x4 ∷ value_bytes (wide v)
encode (setview v) = 0x5 ∷ value_bytes (word v)
encode (time_of v) = 0x7 ∷ value_bytes (time v)
encode (print v) = 0x8 ∷ value_bytes (line v)
encode (stufftext v) = 0x9 ∷ value_bytes (line v)
encode (setpause v) = 0x18 ∷ value_bytes (byte v)
encode (signonnum v) = 0x19 ∷ value_bytes (byte v)
encode (centerprint v) = 0x1a ∷ value_bytes (line v)
encode (finale v) = 0x1f ∷ value_bytes (line v)
encode (cutscene v) = 0x22 ∷ value_bytes (line v)
encode (stopsound v) = 0x10 ∷ short_bytes v
encode (updatecolors a b) = 0x11 ∷ (a ∷ b ∷ [])
encode (updatestat a b) = 0x3 ∷ (value_bytes (byte a) ++ value_bytes (wide b))
encode (lightstyle a b) = 0xc ∷ (value_bytes (byte a) ++ value_bytes (line b))
encode (updatename a b) = 0xd ∷ (value_bytes (byte a) ++ value_bytes (line b))
encode (updatefrags a b) = 0xe ∷ (value_bytes (byte a) ++ value_bytes (word b))
encode (cdtrack a b) = 0x20 ∷ (value_bytes (byte a) ++ value_bytes (byte b))

-- A message has a byte at least.
pub encode-nonempty : (x : Message) → 0 < length (encode x)
encode-nonempty bad = omega arith
encode-nonempty nop = omega arith
encode-nonempty disconnect = omega arith
encode-nonempty spawnbinary = omega arith
encode-nonempty killedmonster = omega arith
encode-nonempty foundsecret = omega arith
encode-nonempty intermission = omega arith
encode-nonempty sellscreen = omega arith
encode-nonempty (version v) = omega arith
encode-nonempty (setview v) = omega arith
encode-nonempty (time_of v) = omega arith
encode-nonempty (print v) = omega arith
encode-nonempty (stufftext v) = omega arith
encode-nonempty (setpause v) = omega arith
encode-nonempty (signonnum v) = omega arith
encode-nonempty (centerprint v) = omega arith
encode-nonempty (finale v) = omega arith
encode-nonempty (cutscene v) = omega arith
encode-nonempty (stopsound v) = omega arith
encode-nonempty (updatecolors a b) = omega arith
encode-nonempty (updatestat a b) = omega arith
encode-nonempty (lightstyle a b) = omega arith
encode-nonempty (updatename a b) = omega arith
encode-nonempty (updatefrags a b) = omega arith
encode-nonempty (cdtrack a b) = omega arith
