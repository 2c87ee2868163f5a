-- ===== src/Server/Store/Tests.antt =====
-- The storage at an input.
use own_pastebin.Prelude.{◌+◌, true, false, none, some, [], ◌∷◌, ◌≡◌, refl, codes}
use own_pastebin.Server.Store.View.{nil, row}
use own_pastebin.Server.Store.Stats.{stats, readable, stats-live}
use own_pastebin.Server.Store.{is_some, Paste, Table, find, get, get_and_delete, delete}

abbrev paste : Paste
paste = record {
  content = codes "hi";
  burn = true;
  encrypted = false;
  e2e_encrypted = false;
  protected = false;
  lang = codes "text";
  expire_at = some 100;
}

abbrev table : Table
table = (codes "a", paste) ∷ []

in_time :
    (get 99 (codes "a") table ≡ (some paste, table))
    × (get_and_delete 99 (codes "a") table ≡ (some paste, []))
unfolding get get_and_delete find delete
in_time = (refl, refl)

too_late :
    (get 100 (codes "a") table ≡ (none, []))
    × (get_and_delete 100 (codes "a") table ≡ (none, table))
unfolding get get_and_delete find delete
too_late = (refl, refl)

stats-live_example :
    ((stats 99 table).total ≡ readable 99 (λ p. true) table table)
    × ((stats 99 table).burn_on_read ≡ readable 99 (λ p. p.burn) table table)
    × ((stats 99 table).ss_encrypted ≡ readable 99 (λ p. p.encrypted) table table)
    × ((stats 99 table).e2e_encrypted ≡ readable 99 (λ p. p.e2e_encrypted) table table)
    × ((stats 99 table).protected ≡ readable 99 (λ p. p.protected) table table)
    × ((stats 99 table).expiring ≡ readable 99 (λ p. is_some p.expire_at) table table)
    × ((stats 99 table).total ≡ (stats 99 table).permanent + (stats 99 table).expiring)
unfolding find
stats-live_example = stats-live 99 table (row (codes "a") paste refl nil)
