-- ===== src/Server/Postgres/Tests.antt =====
-- The Postgres storage at an input: a reading deletes nothing, in time or too late.
use own_pastebin.Prelude.{true, false, none, some, [], ◌∷◌, ◌≡◌, refl, codes}
use own_pastebin.Server.Store.{Paste, Table}
use own_pastebin.Server.Postgres.{select, delete_selected, insert, delete_stale}

abbrev note : Paste
note = record {
  content = codes "hi";
  burn = true;
  encrypted = false;
  e2e_encrypted = false;
  protected = false;
  lang = codes "text";
  expire_at = some 100;
}

abbrev rows : Table
rows = (codes "a", note) ∷ []

in_time : (select 99 (codes "a") rows ≡ some note) × (delete_selected 99 (codes "a") rows ≡ [])
unfolding select delete_selected
in_time = (refl, refl)

too_late : (select 100 (codes "a") rows ≡ none) × (delete_selected 100 (codes "a") rows ≡ rows)
unfolding select delete_selected
too_late = (refl, refl)

swept : (delete_stale 100 rows ≡ rows) × (delete_stale 101 rows ≡ [])
unfolding delete_stale
swept = (refl, refl)

taken : insert (codes "a") note rows ≡ none
unfolding insert
taken = refl
