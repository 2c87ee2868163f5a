-- ===== src/Server/Http/Sharing.antt =====
-- An upload, and a reader who follows the address of the answer.
use own_pastebin.Prelude.{
  ℕ, ◌/◌, ◌≡◌, Bool, refl, sym, ap, ◌∙◌, false, some, [], ◌∷◌, ◌++◌, append_assoc, append-nil, Text,
  codes, strip_prefix, strip_prefix-append,
}
use own_pastebin.Server.Limiter.{Rate, Entries}
use own_pastebin.Server.Ttl.{ℤ, nanoseconds, resolve_ttl, expire_at}
use own_pastebin.Server.Store.{Paste, Table, is_over}
use own_pastebin.Server.Routes.{reply_created, handle_create, handle_view, page_opened}
use own_pastebin.Server.Routes.Read.{IsAccepted, all_answered, upload_read}
use own_pastebin.Server.Http.Mux.{Mux}
use own_pastebin.Server.Http.{Request, Site, get, post, replied}
use own_pastebin.Server.Http.Serve.{to_create, post_routes, routes_of, handle, serve}
use own_pastebin.Server.Http.Links.{
  IsBase, IsLinkable, IsAdmitted, prefix-path, serve_rest, link-view,
}

cancel : (u s t : Text) → u ++ s ≡ u ++ t → s ≡ t
cancel u s t e =
    cc (sym (strip_prefix-append u s) ∙ ap (strip_prefix u) e ∙ strip_prefix-append u t)

-- The path of the address.
link-path :
    {site : Site} (scheme host path id req_path : Text)
    → IsBase site scheme host path []
    → site.app.base_url ++ b'/' ∷ id ≡ scheme ++ (codes "://" ++ (host ++ req_path))
    → req_path ≡ path ++ b'/' ∷ id
link-path {site} scheme host path id req_path base e =
    let whole : site.app.base_url ++ b'/' ∷ id
        ≡ scheme ++ (codes "://" ++ (host ++ (path ++ b'/' ∷ id))) =
      ap (λ u. u ++ b'/' ∷ id)
        (base.base ∙ ap (λ u. scheme ++ (codes "://" ++ (host ++ u))) (append-nil path))
      ∙ append_assoc scheme _ (b'/' ∷ id)
      ∙ ap (λ u. scheme ++ (codes "://" ++ u)) (append_assoc host path (b'/' ∷ id)) in
    cancel host req_path (path ++ b'/' ∷ id)
      (cancel (codes "://") _ _ (cancel scheme _ _ (sym e ∙ whole)))

module _ (mux : Mux) (site : Site) (valid : Text → Bool) (rate : Rate) (scheme host path : Text)
    (base : IsBase site scheme host path []) where
  create_served :
      (now : ℕ) (req : Request) (entries : Entries rate) (rows : Table)
      → IsAdmitted site now rate req entries
      → req.method ≡ post
      → req.path ≡ path ++ codes "/"
      → req.raw_path ≡ []
      → ((serve mux site valid now rate req (entries, rows)).0.response.answer
          ≡ replied (handle_create site.app now req.upload rows).0)
        × ((serve mux site valid now rate req (entries, rows)).1.1
            ≡ (handle_create site.app now req.upload rows).1)
  unfolding handle
  create_served now req entries rows ok method under whole =
      let (a, b) =
        serve_rest mux site valid now rate req entries rows (codes "/") (some (to_create, [])) ok
          (under ∙ ap (λ p. p ++ codes "/") (sym (prefix-path scheme host path [] base))) whole refl
          (ap (λ m. mux.route (routes_of m) (codes "/")) method
            ∙ mux.routes_exact post_routes (codes "/") to_create refl) in
      (ap (λ r. r.answer) a, b)

  -- Who follows the address that an upload was answered with sees what was uploaded: the POST is
  -- answered with the address and the paste is saved, and a later GET of the address's path is
  -- answered with the page of the text, if the text is UTF-8. (Both requests are within the rate
  -- limit; nothing stands against the upload; the base URL has no slash at its end, and the prefix of
  -- the server is read of it; the id has no slash and is no name of another page; the reader comes
  -- before the expiry, no path needs escapes, and the database answers.)
  pub upload-view :
      (now later : ℕ) (sent read : Request) (entries entries' : Entries rate) (rows : Table) (c : ℕ)
      (cs nonce id : Text) (ttl : ℤ)
      → IsAdmitted site now rate sent entries
      → sent.method ≡ post
      → sent.path ≡ path ++ codes "/"
      → sent.raw_path ≡ []
      → IsAccepted site.app now sent.upload (c ∷ cs) nonce id ttl rows
      → IsLinkable id
      → IsAdmitted site later rate read entries'
      → read.method ≡ get
      → site.app.base_url ++ b'/' ∷ id ≡ scheme ++ (codes "://" ++ (host ++ read.path))
      → read.raw_path ≡ []
      → read.answers ≡ all_answered
      → is_over (later / nanoseconds) (expire_at now (resolve_ttl site.app.max_ttl ttl)) ≡ false
      → (p : Paste) × ((serve mux site valid now rate sent (entries, rows)).0.response.answer
          ≡ replied (reply_created site.app id p))
        × ((serve mux site valid now rate sent (entries, rows)).1.1 ≡ (id, p) ∷ rows)
        × ((serve mux site valid later rate read (entries', (id, p) ∷ rows)).0.response.answer
            ≡ replied (page_opened site.app later valid id p (some (c ∷ cs))))
  upload-view now later sent read entries entries' rows c cs nonce id ttl ok method under whole v
        linkable ok' method' link whole' answers fresh =
      let (a, b) = create_served now sent entries rows ok method under whole in
      let found =
        upload_read site.app now sent.upload c cs nonce id ttl rows v later 0 valid fresh in
      let p : Paste = found.0 in
      let seen =
        link-view mux site valid later rate read entries' ((id, p) ∷ rows) scheme host path id base
          linkable ok' method' (link-path scheme host path id read.path base link) whole' in
      (
        p,
        a ∙ ap (λ r. replied r.0) found.1,
        b ∙ ap (λ r. r.1) found.1,
        seen.0
            ∙ ap (λ x. replied (handle_view site.app later valid x id ((id, p) ∷ rows)).0) answers
            ∙ ap replied found.6,
      )
