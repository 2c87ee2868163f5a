-- ===== src/Server/Http/Caching.antt =====
-- What a cache may keep, and in what form a paste's bytes are sent.
use own_pastebin.Prelude.{
  ℕ, ◌≡◌, ◌==◌, inl, inr, refl, sym, ap, ◌∙◌, Bool, true, false, Bool-cases, Option, none, some, [],
  ◌∷◌, Text, codes,
}
use own_pastebin.Server.Limiter.{Rate, Entries}
use own_pastebin.Server.Store.{Table}
use own_pastebin.Server.Routes.{
  Reply, refused, created, content, deleted, handle_create, handle_raw, handle_view, handle_delete,
}
use own_pastebin.Server.Http.Mux.{Mux}
use own_pastebin.Server.Http.{
  Headers, set, Request, Site, Answer, replied, form, settings, api_spec, api_page, static_file,
  too_many, unrouted, outside, Response, with_origin, no_cache, raw_content, error_headers,
  no_store, public_cache, raw_headers, download_headers, view_headers, create_headers,
  delete_headers,
}
use own_pastebin.Server.Http.Serve.{
  Route, to_raw, to_download, to_config, to_spec, to_swagger, to_form, to_view, to_create,
  to_delete, handle, serve, with_headers,
}
use own_pastebin.Server.Http.Ways.{secure, serve_cases}

abbrev pub cache_control : Headers → Option Text
cache_control h = h (codes "Cache-Control")

-- Neither the handlers nor the header of the origin change it.
with_origin-cache_control :
    (origin : Text) (h : Headers) → cache_control (with_origin origin h) ≡ cache_control h
unfolding set
with_origin-cache_control [] h = refl
with_origin-cache_control (c ∷ s) h = refl

raw_headers-cache_control :
    (valid : Text → Bool) (id : Text) (r : Reply) (h : Headers)
    → cache_control (raw_headers valid id r h) ≡ cache_control h
unfolding set
raw_headers-cache_control valid id (content s) h = elim (Bool-cases (valid s)) [
  | inl e ↦ rw e refl
  | inr e ↦ rw e refl
]
raw_headers-cache_control valid id r h = refl

download_headers-cache_control :
    (id : Text) (r : Reply) (h : Headers)
    → cache_control (download_headers id r h) ≡ cache_control h
unfolding set
download_headers-cache_control id (content s) h = refl
download_headers-cache_control id r h = refl

view_headers-cache_control :
    (r : Reply) (h : Headers) → cache_control (view_headers r h) ≡ cache_control h
unfolding set
view_headers-cache_control (refused status) h = refl
view_headers-cache_control r h = refl

create_headers-cache_control :
    (r : Reply) (h : Headers) → cache_control (create_headers r h) ≡ cache_control h
unfolding set
create_headers-cache_control (created x) h = refl
create_headers-cache_control r h = refl

delete_headers-cache_control :
    (r : Reply) (h : Headers) → cache_control (delete_headers r h) ≡ cache_control h
unfolding set
delete_headers-cache_control deleted h = refl
delete_headers-cache_control r h = refl

raw_content-cache_control :
    (origin : Text) → cache_control (raw_content origin secure) ≡ some no_store
unfolding set
raw_content-cache_control origin = with_origin-cache_control origin _

no_cache-cache_control : (origin : Text) → cache_control (no_cache origin secure) ≡ some no_store
unfolding set
no_cache-cache_control origin = with_origin-cache_control origin _

secure-cache_control : cache_control secure ≡ none
unfolding set
secure-cache_control = refl

limit-cache_control : cache_control (error_headers secure) ≡ none
unfolding set
limit-cache_control = refl

outside-cache_control : cache_control (error_headers (λ k. none)) ≡ none
unfolding set
outside-cache_control = refl

-- The answers that hold nothing of a paste: they are made of the settings, the query and the files.
abbrev pub IsShared : Answer → Type 0
IsShared (form d) = Unit
IsShared (settings d) = Unit
IsShared api_spec = Unit
IsShared api_page = Unit
IsShared (static_file rest) = Unit
IsShared a = ⊥

-- A response that caches may keep is such an answer, and it changes no paste.
abbrev IsCacheSafe : Table → Response → Table → Type 0
IsCacheSafe rows response rows' =
    cache_control response.headers ≡ some public_cache → IsShared response.answer × (rows' ≡ rows)

uncached :
    {rows rows' : Table} (a : Answer) (h : Headers) (x : Option Text)
    → cache_control h ≡ x
    → (x ≡ some public_cache → ⊥)
    → IsCacheSafe rows (record { answer = a; headers = h }) rows'
uncached a h x e never public = absurd (never (sym e ∙ public))

-- Whether a value can begin as `no_store` does.
abbrev is_private : Option Text → Bool
is_private none = true
is_private (some []) = true
is_private (some (c ∷ s)) = c == b'n'

absurd_of : true ≡ false → ⊥
absurd_of e = cc e

not_public : some no_store ≡ some public_cache → ⊥
not_public e = absurd_of (ap is_private e)

none_public : ◌≡◌ {A = Option Text} none (some public_cache) → ⊥
none_public e = cc e

module _ (mux : Mux) (site : Site) (valid : Text → Bool) (now : ℕ) (req : Request)
    (rows : Table) where
  kept_private :
      (f : Reply → Headers → Headers) (h : Headers) (x : Option Text) (out : Reply × Table)
      → ((r : Reply) → cache_control (f r h) ≡ cache_control h)
      → cache_control h ≡ x
      → (x ≡ some public_cache → ⊥)
      → IsCacheSafe rows
          (with_headers mux site valid now f h out).0
          (with_headers mux site valid now f h out).1
  kept_private f h x out same e = uncached (replied out.0) (f out.0 h) x (same out.0 ∙ e)

  handle-IsCacheSafe :
      (r : Route) (id : Text)
      → IsCacheSafe rows
          (handle mux site valid now req secure rows r id).0
          (handle mux site valid now req secure rows r id).1
  unfolding handle
  handle-IsCacheSafe to_raw id =
      let h = raw_content site.origin secure in
      kept_private (raw_headers valid id) h (some no_store)
        (handle_raw site.app now req.answers id rows) (λ r. raw_headers-cache_control valid id r h)
        (raw_content-cache_control site.origin) not_public
  handle-IsCacheSafe to_download id =
      let h = raw_content site.origin secure in
      kept_private (download_headers id) h (some no_store)
        (handle_raw site.app now req.answers id rows) (λ r. download_headers-cache_control id r h)
        (raw_content-cache_control site.origin) not_public
  handle-IsCacheSafe to_view id =
      let h = no_cache site.origin secure in
      kept_private view_headers h (some no_store)
        (handle_view site.app now valid req.answers id rows) (λ r. view_headers-cache_control r h)
        (no_cache-cache_control site.origin) not_public
  handle-IsCacheSafe to_create id =
      kept_private create_headers secure none (handle_create site.app now req.upload rows)
        (λ r. create_headers-cache_control r secure) secure-cache_control none_public
  handle-IsCacheSafe to_delete id =
      kept_private delete_headers secure none (handle_delete site.app now req.answers id rows)
        (λ r. delete_headers-cache_control r secure) secure-cache_control none_public
  handle-IsCacheSafe to_config id = λ public. (tt, refl)
  handle-IsCacheSafe to_spec id = λ public. (tt, refl)
  handle-IsCacheSafe to_swagger id = λ public. (tt, refl)
  handle-IsCacheSafe to_form id = λ public. (tt, refl)

-- Whatever a cache may keep for all (a response with `Cache-Control: public`) holds nothing of a
-- paste: it is the form, the settings, the description of the API or a static file, and the table is
-- as before. So no cache gives out a paste that was burned, deleted or is over.
pub cached_pasteless :
    (mux : Mux) (site : Site) (valid : Text → Bool) (now : ℕ) (rate : Rate) (req : Request)
    (entries : Entries rate) (rows : Table)
    → cache_control (serve mux site valid now rate req (entries, rows)).0.response.headers
      ≡ some public_cache
    → IsShared (serve mux site valid now rate req (entries, rows)).0.response.answer
      × ((serve mux site valid now rate req (entries, rows)).1.1 ≡ rows)
cached_pasteless mux site valid now rate req entries rows =
    serve_cases mux site valid now rate (IsCacheSafe rows) req rows (λ rest public. (tt, refl))
      (λ lost. uncached outside (error_headers (λ k. none)) none outside-cache_control none_public)
      (uncached too_many (error_headers secure) none limit-cache_control none_public)
      (λ status. uncached (unrouted status) secure none secure-cache_control none_public)
      (λ rest raw r id.
        handle-IsCacheSafe mux site valid now (record req { path = rest; raw_path = raw }) rows r
          id)
      entries
