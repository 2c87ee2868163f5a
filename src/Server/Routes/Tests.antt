-- ===== src/Server/Routes/Tests.antt =====
-- The handlers at an input.
use own_pastebin.Prelude.{
  ℕ, ◌*◌, true, false, none, some, [], ◌∷◌, ◌≡◌, refl, arith, if◌then◌else◌, codes,
}
use own_pastebin.Server.Ttl.{pos, nanoseconds, requested_ttl, resolve_ttl, expire_at}
use own_pastebin.Server.Store.{Paste, Table, find}
use own_pastebin.Server.Store.View.{live, IsKeyed, nil, row}
use own_pastebin.Server.Routes.{
  App, refused, content, reply_created, page_opened, handle_create, handle_raw, handle_view,
  handle_delete,
}
use own_pastebin.Server.Routes.Create.{IsSaved, handle_create-IsSaved}
use own_pastebin.Server.Routes.Read.{all_answered, IsAccepted, upload_read}
use own_pastebin.Server.Routes.Remove.{handle_delete_guarded, handle_create_cut}
use own_pastebin.Server.Routes.Toy.{server, upload, server_nonce}

abbrev minute : ℕ
minute = 60 * nanoseconds

handle_create-IsSaved_example :
    IsSaved server [] (handle_create server minute (upload (codes "hi")) [])
handle_create-IsSaved_example = handle_create-IsSaved server [] minute (upload (codes "hi"))

hi-IsAccepted :
    IsAccepted server minute
      (upload (codes "hi"))
      (codes "hi")
      server_nonce
      (codes "x1")
      (pos minute)
      []
unfolding requested_ttl find
hi-IsAccepted = record {
  not_above = refl;
  body_read = refl;
  is_within = omega arith;
  has_slot = refl;
  has_nonce = refl;
  nonce_long = refl;
  ttl_read = refl;
  first_id = refl;
  id_free = refl;
}

expires : expire_at minute (resolve_ttl server.max_ttl (pos minute)) ≡ some 120
unfolding expire_at resolve_ttl
expires = refl

upload_read_example :
    (p : Paste) × (handle_create server minute (upload (codes "hi")) []
      ≡ (reply_created server (codes "x1") p, (codes "x1", p) ∷ []))
    × (p.burn ≡ true)
    × (p.lang ≡ codes "text")
    × (p.e2e_encrypted ≡ true)
    × ((handle_raw server minute all_answered (codes "x1") ((codes "x1", p) ∷ [])).0
        ≡ content (codes "hi"))
    × ((handle_view server minute (λ s. true) all_answered (codes "x1") ((codes "x1", p) ∷ [])).0
        ≡ page_opened server minute (λ s. true) (codes "x1") p (some (codes "hi")))
    × (live 70
          (codes "x1")
          (handle_raw server minute all_answered (codes "x1") ((codes "x1", p) ∷ [])).1
        ≡ (if p.burn then none else live 70 (codes "x1") ((codes "x1", p) ∷ [])))
upload_read_example =
    upload_read server minute (upload (codes "hi")) b'h' (b'i' ∷ []) server_nonce (codes "x1")
      (pos minute) [] hi-IsAccepted minute 70 (λ s. true) (rw expires)

abbrev kept : Paste
kept = record {
  content = codes "hi";
  burn = false;
  encrypted = false;
  e2e_encrypted = false;
  protected = true;
  lang = codes "text";
  expire_at = none;
}

abbrev rows : Table
rows = (codes "k", kept) ∷ []

rows-IsKeyed : IsKeyed rows
unfolding find
rows-IsKeyed = row (codes "k") kept refl nil

handle_delete_guarded_example :
    ((handle_delete server minute all_answered (codes "k") rows).0 ≡ refused 403)
    × (live 70 (codes "k") (handle_delete server minute all_answered (codes "k") rows).1
        ≡ live 70 (codes "k") rows)
unfolding live find
handle_delete_guarded_example =
    handle_delete_guarded server minute 70 (codes "k") (codes "k") rows (omega arith) rows-IsKeyed

abbrev narrow : App
narrow = record server { max_paste_size = 2 }

handle_create_cut_test :
    handle_create narrow minute
      (record (upload []) { content_length = none; body = some (codes "hi there") })
      []
    ≡ handle_create narrow minute
        (record (upload []) { content_length = none; body = some (codes "hi") })
        []
handle_create_cut_test =
    handle_create_cut narrow minute (upload []) (codes "hi") (codes " there") [] refl
