-- ===== src/Server/Readers/Tests.antt =====
-- Two readers of a paste that burns, both of whom have seen its flag.
use own_pastebin.Prelude.{◌≤◌, true, false, none, some, [], ◌∷◌, ◌≡◌, refl, Text, codes}
use own_pastebin.Server.Store.{Paste, Table, find, peek_meta, get, get_and_delete, delete}
use own_pastebin.Server.Store.View.{IsKeyed, nil, row}
use own_pastebin.Server.Readers.{Pool, arrive, take_step}
use own_pastebin.Server.Readers.Steps.{here, Reach, at_start, and_then, arrived, took}
use own_pastebin.Server.Readers.Burning.{count}
use own_pastebin.Server.Readers.Once.{delivered_at_most_once}

abbrev secret : Paste
secret = record {
  content = codes "hi";
  burn = true;
  encrypted = false;
  e2e_encrypted = false;
  protected = false;
  lang = codes "text";
  expire_at = none;
}

abbrev key : Text
key = codes "a"

abbrev rows : Table
rows = (key, secret) ∷ []

rows-IsKeyed : IsKeyed rows
unfolding find
rows-IsKeyed = row key secret refl nil

found : find key rows ≡ some secret
unfolding find
found = refl

abbrev start : Pool
start = record { table = rows; clock = 5; pending = []; delivered = [] }

abbrev both_came : Pool
both_came = arrive true key (arrive true key start)

abbrev one_done : Pool
one_done = take_step true key (record both_came { pending = (arrive true key start).pending })

abbrev both_done : Pool
both_done = take_step true key (record one_done { pending = [] })

history : Reach key start both_done
unfolding arrive take_step peek_meta get get_and_delete find delete
history =
    and_then
      (and_then (and_then (and_then at_start (arrived true key start)) (arrived true key _))
        (took true key (arrive true key start).pending both_came here))
      (took true key [] one_done here)

delivered_at_most_once_example : count key both_done.delivered ≤ 1
delivered_at_most_once_example =
    delivered_at_most_once key start both_done secret rows-IsKeyed found refl refl refl history
