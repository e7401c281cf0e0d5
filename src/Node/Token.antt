-- ===== src/Node/Token.antt =====
-- src/node.c: the table of tokens, which a module sets by `node_token_init`.
use lmpc.Base.{ℕ, Option, none, some, List, [], ◌∷◌, Bool, true, false, ◌&&◌, ◌==◌, if◌then◌else◌}

-- token_t; a table ends where the source has the entry with a NULL string.
pub record Token : Type 0 where
  pub string : List ℕ
  pub type : ℕ
  pub id : ℕ

-- `strcmp(a, b) == 0`
unfoldable pub string_eq : List ℕ → List ℕ → Bool
string_eq [] [] = true
string_eq [] (b ∷ bs) = false
string_eq (a ∷ as') [] = false
string_eq (a ∷ as') (b ∷ bs) = (a == b) && string_eq as' bs

unfoldable pub node_token_string : List Token → ℕ → Option (List ℕ)
node_token_string [] type = none
node_token_string (i ∷ field) type =
    if type == i.type then some i.string else node_token_string field type

unfoldable pub node_token_id : List Token → ℕ → ℕ
node_token_id [] type = 0
node_token_id (i ∷ field) type = if type == i.type then i.id else node_token_id field type

unfoldable pub node_token_get_by_string : List Token → List ℕ → Option Token
node_token_get_by_string [] string = none
node_token_get_by_string (i ∷ field) string =
    if string_eq i.string string then some i else node_token_get_by_string field string
