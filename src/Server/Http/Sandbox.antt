-- ===== src/Server/Http/Sandbox.antt =====
-- In what form the bytes of a paste are sent.
use own_pastebin.Prelude.{
  ℕ, ◌≡◌, ◌⊎◌, inl, inr, refl, Bool, true, false, Bool-cases, Option, none, some, [], ◌∷◌, Text,
  codes,
}
use own_pastebin.Server.Limiter.{Rate, Entries}
use own_pastebin.Server.Store.{Paste, Table, peek_meta}
use own_pastebin.Server.Routes.{
  Reply, content, Answers, App, Upload, handle_create, handle_raw, handle_view, handle_delete,
  page_of, page_opened, decrypt_if_needed, fetch_paste, remove, remove_known, clock,
}
use own_pastebin.Server.Routes.Create.{IsSaved, handle_create-IsSaved}
use own_pastebin.Server.Http.Mux.{Mux}
use own_pastebin.Server.Http.{
  Headers, set, Request, Site, Answer, replied, raw_content, no_store, no_cache, plain, binary,
  raw_headers, download_headers, view_headers, create_headers, delete_headers,
}
use own_pastebin.Server.Http.Serve.{
  Route, to_raw, to_download, to_view, to_create, to_delete, handle, serve,
}
use own_pastebin.Server.Http.Ways.{secure, serve_cases}

-- A reply that is not a paste's bytes.
abbrev NotContent : Reply → Type 0
NotContent (content s) = ⊥
NotContent r = Unit

view-NotContent :
    (app : App) (now : ℕ) (valid : Text → Bool) (a : Answers) (id : Text) (rows : Table)
    → NotContent (handle_view app now valid a id rows).0
unfolding handle_view
view-NotContent app now valid a id rows = go (fetch_paste app now a id rows).0
  where
    opened : (p : Paste) (o : Option Text) → NotContent (page_opened app now valid id p o)
    opened p none = tt
    opened p (some s) = tt

    go : (o : Option Paste) → NotContent (page_of app now valid id o)
    go none = tt
    go (some p) = opened p (decrypt_if_needed app now p)

module _ (app : App) (now : ℕ) where
  remove-NotContent :
      (ok : Bool) (id : Text) (rows : Table) → NotContent (remove app now ok id rows).0
  remove-NotContent true id rows = tt
  remove-NotContent false id rows = tt

  remove_known-NotContent :
      (ok : Bool) (id : Text) (x : Option Paste) (rows : Table)
      → NotContent (remove_known app now ok id (x, rows)).0
  remove_known-NotContent ok id none rows = remove-NotContent ok id rows
  remove_known-NotContent ok id (some meta) rows = elim (Bool-cases meta.protected) [
    | inl e ↦ rw e tt
    | inr e ↦ rw e (remove-NotContent ok id rows)
  ]

  delete-NotContent :
      (a : Answers) (id : Text) (rows : Table) → NotContent (handle_delete app now a id rows).0
  unfolding handle_delete
  delete-NotContent a id rows = elim (Bool-cases app.protected_enabled) [
    | inl e ↦ rw e (elim (Bool-cases a.peek) [
      | inl p ↦ rw p (
          remove_known-NotContent a.first id (peek_meta (clock app now) id rows).0
            (peek_meta (clock app now) id rows).1)
      | inr p ↦ rw p tt
    ])
    | inr e ↦ rw e (remove-NotContent a.first id rows)
  ]

  create-NotContent : (u : Upload) (rows : Table) → NotContent (handle_create app now u rows).0
  create-NotContent u rows = go (handle_create-IsSaved app rows now u)
    where
      go :
          IsSaved app rows (handle_create app now u rows)
          → NotContent (handle_create app now u rows).0
      go (inl (status, e)) = rw e tt
      go (inr (id, p, free, e)) = rw e tt

-- The headers under which a browser neither runs what it gets, nor takes it for another type, nor
-- keeps it.
abbrev pub IsInert : Headers → Type 0
IsInert h =
    (h (codes "Content-Security-Policy") ≡ some (codes "sandbox"))
    × (h (codes "X-Content-Type-Options") ≡ some (codes "nosniff"))
    × (h (codes "Cache-Control") ≡ some no_store)
    × ((h (codes "Content-Type") ≡ some plain) ⊎ (h (codes "Content-Type") ≡ some binary))

abbrev pub IsContentInert : Answer → Headers → Type 0
IsContentInert (replied (content s)) h = IsInert h
IsContentInert a h = Unit

raw_headers-IsInert :
    (valid : Text → Bool) (id origin : Text) (r : Reply)
    → IsContentInert (replied r) (raw_headers valid id r (raw_content origin secure))
unfolding set
raw_headers-IsInert valid id [] (content s) = elim (Bool-cases (valid s)) [
  | inl e ↦ rw e (refl, refl, refl, inl refl)
  | inr e ↦ rw e (refl, refl, refl, inr refl)
]
raw_headers-IsInert valid id (c ∷ origin) (content s) = elim (Bool-cases (valid s)) [
  | inl e ↦ rw e (refl, refl, refl, inl refl)
  | inr e ↦ rw e (refl, refl, refl, inr refl)
]
raw_headers-IsInert valid id origin r = tt

download_headers-IsInert :
    (id origin : Text) (r : Reply)
    → IsContentInert (replied r) (download_headers id r (raw_content origin secure))
unfolding set
download_headers-IsInert id [] (content s) = (refl, refl, refl, inr refl)
download_headers-IsInert id (c ∷ origin) (content s) = (refl, refl, refl, inr refl)
download_headers-IsInert id origin r = tt

not_content : (r : Reply) (h : Headers) → NotContent r → IsContentInert (replied r) h
not_content (content s) h n = absurd n
not_content r h n = tt

module _ (mux : Mux) (site : Site) (valid : Text → Bool) (now : ℕ) where
  handle-IsInert :
      (req : Request) (rows : Table) (r : Route) (id : Text)
      → IsContentInert
          (handle mux site valid now req secure rows r id).0.answer
          (handle mux site valid now req secure rows r id).0.headers
  unfolding handle
  handle-IsInert req rows to_raw id =
      raw_headers-IsInert valid id site.origin (handle_raw site.app now req.answers id rows).0
  handle-IsInert req rows to_download id =
      download_headers-IsInert id site.origin (handle_raw site.app now req.answers id rows).0
  handle-IsInert req rows to_view id =
      let out = handle_view site.app now valid req.answers id rows in
      not_content out.0 (view_headers out.0 (no_cache site.origin secure))
        (view-NotContent site.app now valid req.answers id rows)
  handle-IsInert req rows to_create id =
      let out = handle_create site.app now req.upload rows in
      not_content out.0 (create_headers out.0 secure)
        (create-NotContent site.app now req.upload rows)
  handle-IsInert req rows to_delete id =
      let out = handle_delete site.app now req.answers id rows in
      not_content out.0 (delete_headers out.0 secure)
        (delete-NotContent site.app now req.answers id rows)
  handle-IsInert req rows r id = tt

  -- The bytes of a paste never come as a document of the site: whichever request is answered with
  -- them, the response is in a sandbox, of the type of plain text or of unknown bytes with sniffing
  -- switched off, and no cache stores it.
  pub content-IsInert :
      (rate : Rate) (req : Request) (entries : Entries rate) (rows : Table)
      → IsContentInert
          (serve mux site valid now rate req (entries, rows)).0.response.answer
          (serve mux site valid now rate req (entries, rows)).0.response.headers
  content-IsInert rate req entries rows =
      serve_cases mux site valid now rate
        (λ response _. IsContentInert response.answer response.headers) req rows (λ rest. tt)
        (λ lost. tt) tt (λ status. tt)
        (λ rest raw r id. handle-IsInert (record req { path = rest; raw_path = raw }) rows r id)
        entries
