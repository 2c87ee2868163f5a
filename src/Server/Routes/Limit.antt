-- ===== src/Server/Routes/Limit.antt =====
-- A limit on the size that cannot be read closes the server for uploads.
use own_pastebin.Prelude.{
  ℕ, ◌<◌, Text, ◌≡◌, ◌∙◌, refl, Option, none, some, ◌∷◌, ◌++◌, Bool-cases, inl, inr,
}
use own_pastebin.Page.{decimal}
use own_pastebin.Server.Ttl.{pos, word}
use own_pastebin.Server.Config.{parse_size}
use own_pastebin.Server.Config.Size.{IsUnknown, parse_size-other}
use own_pastebin.Server.Store.{Table}
use own_pastebin.Server.Routes.{App, Upload, Reply, refused, is_above, read_body, handle_create}

-- The statuses of a refused upload that does not reach the table.
pub data IsTurnedAway : Reply → Type 0 where
  too_large : IsTurnedAway (refused 413)
  empty : IsTurnedAway (refused 400)
  unread : IsTurnedAway (refused 500)

nothing_read :
    (app : App) (now : ℕ) (u : Upload) (rows : Table)
    → app.max_paste_size ≡ 0
    → IsTurnedAway (read_body app now u rows u.body).0
      × ((read_body app now u rows u.body).1 ≡ rows)
nothing_read app now u rows z = go (u.body)
  where
    go :
        (b : Option _)
        → IsTurnedAway (read_body app now u rows b).0 × ((read_body app now u rows b).1 ≡ rows)
    go none = (unread, refl)
    go (some body) = rw z (empty, refl)

-- A server whose limit is a number below 2^64 in a unit that it does not know, as `5M` or `5MiB`,
-- refuses every upload with 413, 400 or 500, and leaves the table as it is.
pub unknown_size-refused :
    (app : App) (now n x : ℕ) (w : Text) (u : Upload) (rows : Table)
    → n < word
    → IsUnknown n x w
    → pos app.max_paste_size ≡ parse_size (decimal n ++ x ∷ w)
    → IsTurnedAway (handle_create app now u rows).0 × ((handle_create app now u rows).1 ≡ rows)
unfolding handle_create
unknown_size-refused app now n x w u rows b h e =
    let zero : app.max_paste_size ≡ 0 = cc (e ∙ parse_size-other n x w b h) in
    elim (Bool-cases (is_above app now u.content_length)) [
      | inl above ↦ rw above (too_large, refl)
      | inr below ↦ rw below (nothing_read app now u rows zero)
    ]
