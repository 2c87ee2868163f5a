-- ===== src/Server/Readers.antt =====
-- Readers at the same time: `fetchPaste` of internal/routes.go cut at its calls of the database, each
-- of which is one step (internal/storage.go).
--
-- `pending` lists what readers do next. Between two calls of one reader anything may happen.
pub mod Steps
pub mod Burning
pub mod Once
mod Tests
use own_pastebin.Prelude.{
  ℕ, ◌+◌, Bool, true, false, Option, none, some, List, [], ◌∷◌, if◌then◌else◌, Text,
}
use own_pastebin.Server.Store.{Paste, Table, get, peek_meta, get_and_delete, delete, cleanup}

-- The next call: `GetAndDelete`, the last `Get`, or the `Get` of the fallback.
pub data Task : Type 0 where
  taking reading checking : Text → Task

pub record Pool : Type 0 where
  pub table : Table
  pub clock : ℕ
  pub pending : List Task
  pub delivered : List (Text × Paste)

abbrev pub wait_for : Task → Pool → Pool
wait_for w s = record s { pending = w ∷ s.pending }

abbrev pub deliver : Text → Option Paste × Table → Pool → Pool
deliver id (none, rows) s = record s { table = rows }
deliver id (some p, rows) s = record s { table = rows; delivered = (id, p) ∷ s.delivered }

abbrev pub peeked : Text → Option Paste × Table → Pool → Pool
peeked id (none, rows) s = wait_for (checking id) (record s { table = rows })
peeked id (some meta, rows) s =
    if meta.burn
    then wait_for (taking id) (record s { table = rows })
    else wait_for (reading id) (record s { table = rows })

-- A reader comes; `ok` is whether the database answers.
unfoldable pub arrive : Bool → Text → Pool → Pool
arrive ok id s = if ok then peeked id (peek_meta s.clock id s.table) s else wait_for (checking id) s

unfoldable pub take_step : Bool → Text → Pool → Pool
take_step ok id s = if ok then deliver id (get_and_delete s.clock id s.table) s else s

unfoldable pub read_step : Bool → Text → Pool → Pool
read_step ok id s = if ok then deliver id (get s.clock id s.table) s else s

abbrev pub checked : Text → Option Paste × Table → Pool → Pool
checked id (none, rows) s = record s { table = rows }
checked id (some p, rows) s =
    if p.burn
    then wait_for (taking id) (record s { table = rows })
    else record s { table = rows; delivered = (id, p) ∷ s.delivered }

unfoldable pub check_step : Bool → Text → Pool → Pool
check_step ok id s = if ok then checked id (get s.clock id s.table) s else s
