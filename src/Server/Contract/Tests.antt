-- ===== src/Server/Contract/Tests.antt =====
-- `fetchPaste` on SQLite at an input: a paste that burns.
use own_pastebin.Prelude.{true, false, none, some, [], ◌∷◌, ◌≡◌, refl, arith, codes}
use own_pastebin.Server.Store.{Paste, Table, find}
use own_pastebin.Server.Store.View.{live, IsKeyed, nil, row}
use own_pastebin.Server.Contract.{fetch}
use own_pastebin.Server.Contract.Sqlite.{sqlite, sqlite-IsStorage}
use own_pastebin.Server.Contract.Fetch.{fetch-burns}

abbrev note : Paste
note = record {
  content = codes "hi";
  burn = true;
  encrypted = false;
  e2e_encrypted = false;
  protected = false;
  lang = codes "text";
  expire_at = some 100;
}

abbrev rows : Table
rows = (codes "a", note) ∷ []

rows-IsKeyed : IsKeyed rows
unfolding find
rows-IsKeyed = row (codes "a") note refl nil

fetch-burns_example :
    ((fetch sqlite 50 (codes "a") rows).0 ≡ some note)
    × (live 60 (codes "a") (fetch sqlite 50 (codes "a") rows).1 ≡ none)
unfolding live find
fetch-burns_example =
    fetch-burns sqlite IsKeyed live sqlite-IsStorage 50 60 (codes "a") (codes "a") (omega arith)
      rows rows-IsKeyed
