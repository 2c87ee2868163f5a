-- ===== src/Server/Routes/Fetch.antt =====
-- `fetchPaste` on SQLite, when the database answers, is the one on the interface.
use own_pastebin.Prelude.{ℕ, ◌/◌, Option, none, some, ◌≡◌, refl, Text}
use own_pastebin.Server.Ttl.{nanoseconds}
use own_pastebin.Server.Store.{Paste, Table, get, peek_meta}
use own_pastebin.Server.Contract.{take_if_burns, after_peek, fetch}
use own_pastebin.Server.Contract.Sqlite.{sqlite}
use own_pastebin.Server.Routes.{App, fetch_again, fetch_known, fetch_paste}
use own_pastebin.Server.Routes.Read.{all_answered}

module _ (app : App) (now : ℕ) (id : Text) where
  again_same :
      (x : Option Paste × Table)
      → fetch_again app now all_answered id x ≡ take_if_burns sqlite (now / nanoseconds) id x
  again_same (none, rows) = refl
  again_same (some p, rows) = refl

  known_same :
      (x : Option Paste × Table)
      → fetch_known app now all_answered id x ≡ after_peek sqlite (now / nanoseconds) id x
  known_same (none, rows) = again_same (get (now / nanoseconds) id rows)
  known_same (some meta, rows) = refl

  pub fetch_paste-fetch :
      (rows : Table)
      → fetch_paste app now all_answered id rows ≡ fetch sqlite (now / nanoseconds) id rows
  unfolding fetch_paste fetch
  fetch_paste-fetch rows = known_same (peek_meta (now / nanoseconds) id rows)
