-- ===== src/Server/Postgres.antt =====
-- The Postgres storage of internal/storage.go. Its conditions on the expiry stand in the queries, so
-- that nothing is deleted by a reading. The clock is `NOW()`, and an expiry time is in its unit.
pub mod Laws
mod Tests
use own_pastebin.Prelude.{
  ℕ, Bool, true, false, not, ◌&&◌, Option, none, some, [], ◌∷◌, if◌then◌else◌, ltb, Text, text_eq,
}
use own_pastebin.Server.Store.{Paste, Table, without_content, is_over, is_stale}
use own_pastebin.Server.Contract.{Backend}

-- `id = $1 AND (expire_at IS NULL OR expire_at > NOW())`
abbrev pub matches : ℕ → Text → Text → Paste → Bool
matches now key k p = text_eq k key && not (is_over now p.expire_at)

unfoldable pub select : ℕ → Text → Table → Option Paste
select now key [] = none
select now key ((k, p) ∷ rows) = if matches now key k p then some p else select now key rows

-- `DELETE` with the same condition.
unfoldable pub delete_selected : ℕ → Text → Table → Table
delete_selected now key [] = []
delete_selected now key ((k, p) ∷ rows) =
    let rest = delete_selected now key rows in if matches now key k p then rest else (k, p) ∷ rest

-- `DELETE FROM pastes WHERE id = $1`
unfoldable pub delete_id : Text → Table → Table
delete_id key [] = []
delete_id key ((k, p) ∷ rows) =
    let rest = delete_id key rows in if text_eq k key then rest else (k, p) ∷ rest

abbrev pub has_id : Text → Table → Bool
has_id key [] = false
has_id key ((k, p) ∷ rows) = if text_eq k key then true else has_id key rows

-- `ON CONFLICT (id) DO NOTHING`, with the number of rows looked at.
unfoldable pub insert : Text → Paste → Table → Option Table
insert key p rows = if has_id key rows then none else some ((key, p) ∷ rows)

-- `DELETE FROM pastes WHERE expire_at IS NOT NULL AND expire_at < NOW()`
unfoldable pub delete_stale : ℕ → Table → Table
delete_stale now [] = []
delete_stale now ((k, p) ∷ rows) =
    let rest = delete_stale now rows in if is_stale now p.expire_at then rest else (k, p) ∷ rest

abbrev pub postgres : Backend Table
postgres = record {
  get = λ now key rows. (select now key rows, rows);
  peek_meta = λ now key rows. (without_content (select now key rows), rows);
  get_and_delete = λ now key rows. (select now key rows, delete_selected now key rows);
  delete = delete_id;
  save = insert;
  cleanup = delete_stale;
}
