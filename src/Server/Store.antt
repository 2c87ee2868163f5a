-- ===== src/Server/Store.antt =====
-- The SQLite storage of internal/storage.go: `Save`, `PeekMeta`, `Get`, `Delete`, `GetAndDelete` and
-- the hourly cleanup.
--
-- The table is a list of rows, in which the primary key admits each id once. `now` is the clock
-- in seconds. That the database answers is an argument of the routes, not of these functions.
pub mod View
pub mod Refine
pub mod Cases
pub mod Stats
mod Tests
use own_pastebin.Prelude.{
  ℕ, Bool, true, false, not, ◌&&◌, Option, none, some, List, [], ◌∷◌, if◌then◌else◌, ltb, leb, Text,
  text_eq,
}

-- `PasteData`
pub record Paste : Type 0 where
  pub content : Text
  pub burn : Bool
  pub encrypted : Bool
  pub e2e_encrypted : Bool
  pub protected : Bool
  pub lang : Text
  pub expire_at : Option ℕ

abbrev pub Table : Type 0
Table = List (Text × Paste)

-- `WHERE id = ?`
unfoldable pub find : Text → Table → Option Paste
find key [] = none
find key ((k, p) ∷ rows) = if text_eq k key then some p else find key rows

-- `DELETE FROM pastes WHERE id = ?`
unfoldable pub delete : Text → Table → Table
delete key [] = []
delete key ((k, p) ∷ rows) =
    let rest = delete key rows in if text_eq k key then rest else (k, p) ∷ rest

-- `expireAt != nil && now >= *expireAt`
abbrev pub is_over : ℕ → Option ℕ → Bool
is_over now none = false
is_over now (some at) = leb at now

abbrev pub is_some : {A : Type 0} → Option A → Bool
is_some none = false
is_some (some x) = true

-- `Save`: the row is inserted unless the id is there; `none` is ErrSlugConflict.
unfoldable pub save : Text → Paste → Table → Option Table
unfolding find
save key p rows = if is_some (find key rows) then none else some ((key, p) ∷ rows)

abbrev pub answer : ℕ → Text → Table → Option Paste → Option Paste × Table
answer now key rows none = (none, rows)
answer now key rows (some p) =
    if is_over now p.expire_at then (none, delete key rows) else (some p, rows)

-- `Get`: an expired row is deleted on the way.
unfoldable pub get : ℕ → Text → Table → Option Paste × Table
unfolding find delete
get now key rows = answer now key rows (find key rows)

abbrev pub without_content : Option Paste → Option Paste
without_content none = none
without_content (some p) = some (record p { content = [] })

-- `PeekMeta`: the same without the content.
unfoldable pub peek_meta : ℕ → Text → Table → Option Paste × Table
unfolding get
peek_meta now key rows = let (found, rows') = get now key rows in (without_content found, rows')

-- `GetAndDelete`: only a row that has not expired is deleted and returned.
abbrev pub take_live : ℕ → Text → Table → Option Paste → Option Paste × Table
take_live now key rows none = (none, rows)
take_live now key rows (some p) =
    if is_over now p.expire_at then (none, rows) else (some p, delete key rows)

unfoldable pub get_and_delete : ℕ → Text → Table → Option Paste × Table
unfolding find delete
get_and_delete now key rows = take_live now key rows (find key rows)

-- `expire_at IS NOT NULL AND expire_at < ?`
abbrev pub is_stale : ℕ → Option ℕ → Bool
is_stale now none = false
is_stale now (some at) = ltb at now

-- The cleanup.
unfoldable pub cleanup : ℕ → Table → Table
cleanup now [] = []
cleanup now ((k, p) ∷ rows) =
    let rest = cleanup now rows in if is_stale now p.expire_at then rest else (k, p) ∷ rest
