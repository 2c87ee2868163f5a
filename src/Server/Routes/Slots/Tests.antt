-- ===== src/Server/Routes/Slots/Tests.antt =====
-- One slot for two uploads.
use own_pastebin.Prelude.{◌≡◌, ◌≢◌, ◌⊎◌, ◌≤◌, refl, true, false, none, some, [], ◌∷◌, length, codes}
use own_pastebin.Server.Store.{Paste, find}
use own_pastebin.Server.Routes.{refused}
use own_pastebin.Server.Routes.Toy.{server, upload}
use own_pastebin.Server.Routes.Slots.{
  Pool, arrive, finish, arrives, finishes, Reach, at_start, and_then,
}
use own_pastebin.Server.Routes.Slots.Laws.{slots_kept}

abbrev paste : Paste
paste = record {
  content = codes "hi";
  burn = false;
  encrypted = false;
  e2e_encrypted = false;
  protected = true;
  lang = codes "text";
  expire_at = none;
}

abbrev idle : Pool
idle = record { taken = 0; working = []; rows = (codes "k", paste) ∷ [] }

abbrev one : Pool
one = (arrive server 1 (upload (codes "hi")) idle).1

abbrev two : Pool
two = (arrive server 1 (upload (codes "ho")) one).1

abbrev ended : Pool
ended = (finish server 1 5 0 two).1

history : Reach server 1 idle ended
history =
    and_then
      (and_then (and_then at_start (arrives (upload (codes "hi")) idle))
        (arrives (upload (codes "ho")) one))
      (finishes 5 0 two)

slots_kept_example :
    (ended.taken ≡ length ended.working)
    × (length ended.working ≤ 1)
    × (((arrive server 1 (upload (codes "he")) ended).0 ≢ some (refused 503))
        ⊎ (length ended.working ≡ 1))
    × (find (codes "k") ended.rows ≡ some paste)
unfolding find
slots_kept_example =
    slots_kept server 1 (upload (codes "he")) (codes "k") paste refl refl refl history

turned_away : (arrive server 1 (upload (codes "ho")) one).0 ≡ some (refused 503)
unfolding arrive
turned_away = refl
