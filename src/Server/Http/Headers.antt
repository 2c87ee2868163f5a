-- ===== src/Server/Http/Headers.antt =====
-- The security headers, on every way that a request can take.
use own_pastebin.Prelude.{ℕ, ◌≡◌, ◌⊎◌, inl, inr, refl, Bool, Bool-cases, some, [], ◌∷◌, Text, codes}
use own_pastebin.Server.Limiter.{Rate, Entries}
use own_pastebin.Server.Store.{Table}
use own_pastebin.Server.Routes.{
  Reply, refused, created, content, deleted, handle_create, handle_raw, handle_view, handle_delete,
}
use own_pastebin.Server.Http.Mux.{Mux}
use own_pastebin.Server.Http.{
  Headers, set, Request, Site, outside, with_origin, long_cache, no_cache, raw_content,
  error_headers, content_type, raw_headers, download_headers, view_headers, create_headers,
  delete_headers,
}
use own_pastebin.Server.Http.Serve.{
  Route, to_raw, to_download, to_config, to_spec, to_swagger, to_form, to_view, to_create,
  to_delete, handle, serve,
}
use own_pastebin.Server.Http.Ways.{secure, IsLost, serve_cases}

-- The headers that every response has.
abbrev pub IsSecured : Headers → Type 0
IsSecured h =
    (h (codes "X-Content-Type-Options") ≡ some (codes "nosniff"))
    × (h (codes "X-Frame-Options") ≡ some (codes "SAMEORIGIN"))
    × (h (codes "Referrer-Policy") ≡ some (codes "no-referrer"))
    × (h (codes "X-Robots-Tag") ≡ some (codes "none"))

-- A header that says nothing of these leaves them.
with_origin-IsSecured :
    (origin : Text) (h : Headers) → IsSecured h → IsSecured (with_origin origin h)
unfolding set
with_origin-IsSecured [] h v = v
with_origin-IsSecured (c ∷ s) h v = v

secure-IsSecured : IsSecured secure
unfolding set
secure-IsSecured = (refl, refl, refl, refl)

long_cache-IsSecured : (origin : Text) → IsSecured (long_cache origin secure)
unfolding set
long_cache-IsSecured origin = with_origin-IsSecured origin _ secure-IsSecured

no_cache-IsSecured : (origin : Text) → IsSecured (no_cache origin secure)
unfolding set
no_cache-IsSecured origin = with_origin-IsSecured origin _ secure-IsSecured

raw_content-IsSecured : (origin : Text) → IsSecured (raw_content origin secure)
unfolding set
raw_content-IsSecured origin = with_origin-IsSecured origin _ secure-IsSecured

-- Nor does any handler take one away.
raw_headers-IsSecured :
    (valid : Text → Bool) (id : Text) (r : Reply) (h : Headers)
    → IsSecured h
    → IsSecured (raw_headers valid id r h)
unfolding set
raw_headers-IsSecured valid id (content s) h v = elim (Bool-cases (valid s)) [
  | inl e ↦ rw e v
  | inr e ↦ rw e v
]
raw_headers-IsSecured valid id r h (a, b, c, d) = (refl, b, c, d)

download_headers-IsSecured :
    (id : Text) (r : Reply) (h : Headers) → IsSecured h → IsSecured (download_headers id r h)
unfolding set
download_headers-IsSecured id (content s) h v = v
download_headers-IsSecured id r h (a, b, c, d) = (refl, b, c, d)

view_headers-IsSecured : (r : Reply) (h : Headers) → IsSecured h → IsSecured (view_headers r h)
unfolding set
view_headers-IsSecured (refused status) h (a, b, c, d) = (refl, b, c, d)
view_headers-IsSecured r h v = v

create_headers-IsSecured : (r : Reply) (h : Headers) → IsSecured h → IsSecured (create_headers r h)
unfolding set
create_headers-IsSecured (created x) h v = v
create_headers-IsSecured r h (a, b, c, d) = (refl, b, c, d)

delete_headers-IsSecured : (r : Reply) (h : Headers) → IsSecured h → IsSecured (delete_headers r h)
unfolding set
delete_headers-IsSecured deleted h v = v
delete_headers-IsSecured r h (a, b, c, d) = (refl, b, c, d)

limit-IsSecured : IsSecured (error_headers secure)
unfolding set
limit-IsSecured = (refl, refl, refl, refl)

content_type-IsSecured : (v : Text) (h : Headers) → IsSecured h → IsSecured (content_type v h)
unfolding set
content_type-IsSecured v h s = s

abbrev html_type : Text
html_type = codes "text/html; charset=utf-8"

module _ (mux : Mux) (site : Site) (valid : Text → Bool) (now : ℕ) where
  cached : IsSecured (long_cache site.origin secure)
  cached = long_cache-IsSecured site.origin

  handle-IsSecured :
      (req : Request) (rows : Table) (r : Route) (id : Text)
      → IsSecured (handle mux site valid now req secure rows r id).0.headers
  unfolding handle
  handle-IsSecured req rows to_raw id =
      raw_headers-IsSecured valid id (handle_raw site.app now req.answers id rows).0 _
        (raw_content-IsSecured site.origin)
  handle-IsSecured req rows to_download id =
      download_headers-IsSecured id (handle_raw site.app now req.answers id rows).0 _
        (raw_content-IsSecured site.origin)
  handle-IsSecured req rows to_view id =
      view_headers-IsSecured (handle_view site.app now valid req.answers id rows).0 _
        (no_cache-IsSecured site.origin)
  handle-IsSecured req rows to_create id =
      create_headers-IsSecured (handle_create site.app now req.upload rows).0 _ secure-IsSecured
  handle-IsSecured req rows to_delete id =
      delete_headers-IsSecured (handle_delete site.app now req.answers id rows).0 _ secure-IsSecured
  handle-IsSecured req rows to_config id =
      content_type-IsSecured (codes "application/json") _ cached
  handle-IsSecured req rows to_spec id = content_type-IsSecured (codes "application/json") _ cached
  handle-IsSecured req rows to_swagger id = content_type-IsSecured html_type _ cached
  handle-IsSecured req rows to_form id = content_type-IsSecured html_type _ cached

  -- Every response has the headers against sniffing, framing, referrers and robots, whatever is asked
  -- for and in whatever state, but for the answer 404 to a path that is not under the prefix that is
  -- stripped from it, as it is or as it is escaped: the server's, or that of the static files.
  pub serve-IsSecured :
      (rate : Rate) (req : Request) (entries : Entries rate) (rows : Table)
      → (((serve mux site valid now rate req (entries, rows)).0.response.answer ≡ outside)
          × IsLost site req)
        ⊎ IsSecured (serve mux site valid now rate req (entries, rows)).0.response.headers
  serve-IsSecured rate req entries rows =
      serve_cases mux site valid now rate
        (λ response _. ((response.answer ≡ outside) × IsLost site req) ⊎ IsSecured response.headers)
        req rows (λ rest. inr (long_cache-IsSecured site.origin)) (λ lost. inl (refl, lost))
        (inr limit-IsSecured) (λ status. inr secure-IsSecured)
        (λ rest raw r id.
          inr (handle-IsSecured (record req { path = rest; raw_path = raw }) rows r id))
        entries
