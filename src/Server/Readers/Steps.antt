-- ===== src/Server/Readers/Steps.antt =====
-- What can happen: readers, uploads, deletions, the cleanup and the clock.
use own_pastebin.Prelude.{ℕ, ◌+◌, Bool, false, some, List, ◌∷◌, ◌≡◌, Text, text_eq}
use own_pastebin.Server.Store.{Paste, Table, save, delete, cleanup}
use own_pastebin.Server.Readers.{
  Task, taking, reading, checking, Pool, arrive, take_step, read_step, check_step,
}

pub data Ends (w : Task) : List Task → List Task → Type 0 where
  here : {ws : List Task} → Ends w (w ∷ ws) ws
  later : {v : Task} {ws rest : List Task} → Ends w ws rest → Ends w (v ∷ ws) (v ∷ rest)

-- A step in which nothing is saved under the key.
pub data Step (key : Text) : Pool → Pool → Type 0 where
  arrived : (ok : Bool) (id : Text) (s : Pool) → Step key s (arrive ok id s)
  took :
      (ok : Bool) (id : Text) (rest : List Task) (s : Pool)
      → Ends (taking id) s.pending rest
      → Step key s (take_step ok id (record s { pending = rest }))
  got :
      (ok : Bool) (id : Text) (rest : List Task) (s : Pool)
      → Ends (reading id) s.pending rest
      → Step key s (read_step ok id (record s { pending = rest }))
  checked :
      (ok : Bool) (id : Text) (rest : List Task) (s : Pool)
      → Ends (checking id) s.pending rest
      → Step key s (check_step ok id (record s { pending = rest }))
  saved :
      (id : Text) (p : Paste) (rows : Table) (s : Pool)
      → text_eq id key ≡ false
      → save id p s.table ≡ some rows
      → Step key s (record s { table = rows })
  removed : (id : Text) (s : Pool) → Step key s (record s { table = delete id s.table })
  cleaned : (s : Pool) → Step key s (record s { table = cleanup s.clock s.table })
  ticked : (n : ℕ) (s : Pool) → Step key s (record s { clock = s.clock + n })

pub data Reach (key : Text) (s : Pool) : Pool → Type 0 where
  at_start : Reach key s s
  and_then : {t u : Pool} → Reach key s t → Step key t u → Reach key s u
