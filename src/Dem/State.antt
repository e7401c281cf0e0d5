-- ===== src/Dem/State.antt =====
-- src/udem.h: what the reader of a recording remembers from one message to the next, and the hints of
-- the messages that have a writer of their own.
use lmpc.Base.{ℕ, ◌-◌, Bool, List, [], ◌∷◌, Option, none, some, get_elem?, ◌==◌, if◌then◌else◌}
use lmpc.Base.Int.{ℤ}
use lmpc.Node.{Nodes, node, nil, cons, long, float, text, v_int, v_float, v_string}
use lmpc.Node.Chain.{node_command_init, node_add_hint}

-- DEM_t without its file; `nummodels` and `numsounds` are the lengths of the lists, whose first
-- string has the number 1.
pub record Dem : Type 0 where
  pub precache_models : List (List ℕ)
  pub precache_sounds : List (List ℕ)
  pub last_health : ℤ
  pub last_armor : ℤ
  pub last_minus_health : ℤ
  pub last_minus_armor : ℤ

abbrev pub h_simple : ℕ
h_simple = 1

abbrev pub h_unknown : ℕ
h_unknown = 15

abbrev h_dem_hint : ℕ
h_dem_hint = 0x40000

abbrev pub h_dem_sound : ℕ
h_dem_sound = 0x40001

abbrev pub h_dem_clientdata : ℕ
h_dem_clientdata = 0x40002

abbrev pub h_dem_stopsound : ℕ
h_dem_stopsound = 0x40003

abbrev pub h_dem_updatecolors : ℕ
h_dem_updatecolors = 0x40004

abbrev pub h_dem_spawnstatic : ℕ
h_dem_spawnstatic = 0x40005

abbrev pub h_dem_spawnbaseline : ℕ
h_dem_spawnbaseline = 0x40006

abbrev pub h_dem_updateentity : ℕ
h_dem_updateentity = 0x40007

-- `if (i>=1 && i<=num) node_add_comment(n, precache[i])`
abbrev pub precached : List (List ℕ) → ℕ → Option (List ℕ)
precached names i = if i == 0 then none else get_elem? names (i - 1)

-- The same for a model, but for the names that start with an asterisk.
abbrev pub starts_with_star : List ℕ → Bool
starts_with_star [] = Bool.false
starts_with_star (c ∷ cs) = c == 42

abbrev pub model_name : List (List ℕ) → ℕ → Option (List ℕ)
model_name names i = elim (precached names i) [
  | none ↦ none
  | some name ↦ if starts_with_star name then none else some name
]

-- `if (...) node_add_comment(n, ...)`
abbrev pub note : Option (List ℕ) → Nodes → Nodes
note o nil = nil
note o (cons (node t h c d p) ns) = cons (node t h (elim o [ none ↦ c | some s ↦ some s ]) d p) ns

-- `node_add_hint`
abbrev pub hint : Nodes → ℕ → Nodes
hint nil h = nil
hint (cons n ns) h = cons (node_add_hint n h) ns

-- Commands with one argument of a type.
abbrev pub int_command : ℕ → ℕ → ℤ → Nodes
int_command t h v = node_command_init t v_int h (long v) 0

abbrev pub float_command : ℕ → ℕ → ℕ → Nodes
float_command t h w = node_command_init t v_float h (float w) 0

abbrev pub string_command : ℕ → ℕ → List ℕ → Nodes
string_command t h s = node_command_init t v_string h (text s) 0
