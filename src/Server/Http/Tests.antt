-- ===== src/Server/Http/Tests.antt =====
-- Requests at an input.
use own_pastebin.Prelude.{ℕ, ◌*◌, ◌≡◌, ◌⊎◌, refl, arith, true, false, none, some, [], ◌∷◌, codes}
use own_pastebin.Server.Ttl.{pos, nanoseconds, requested_ttl, resolve_ttl, expire_at}
use own_pastebin.Server.Limiter.{Entries}
use own_pastebin.Server.Limiter.Toy.{two}
use own_pastebin.Server.Log.{info, text_handle}
use own_pastebin.Server.Log.Laws.{HasLine}
use own_pastebin.Server.Store.{Paste, Table, find}
use own_pastebin.Server.Config.{extract_path_prefix}
use own_pastebin.Server.Config.Prefix.{below}
use own_pastebin.Server.Routes.{reply_created, page_opened}
use own_pastebin.Server.Routes.Read.{IsAccepted}
use own_pastebin.Server.Routes.Toy.{upload, server_nonce}
use own_pastebin.Server.Http.{
  Site, get, post, replied, unrouted, outside, public_cache, Access, access_record,
}
use own_pastebin.Server.Http.Serve.{serve}
use own_pastebin.Server.Http.Headers.{IsSecured, serve-IsSecured}
use own_pastebin.Server.Http.Caching.{IsShared, cached_pasteless}
use own_pastebin.Server.Http.Sandbox.{IsContentInert, content-IsInert}
use own_pastebin.Server.Http.Ways.{IsLost}
use own_pastebin.Server.Http.Links.{IsBase, link_lost}
use own_pastebin.Server.Http.Sharing.{upload-view}
use own_pastebin.Server.Http.Forging.{path-HasLine}
use own_pastebin.Server.Http.Toy.{mux, site, slashed, request}

abbrev minute : ℕ
minute = 60 * nanoseconds

abbrev nobody : Entries two
nobody k = none

-- A bucket that is empty.
abbrev exhausted : Entries two
exhausted k = some (record { lim = (0, minute); last_seen = minute })

abbrev paste : Paste
paste = record {
  content = codes "<b>";
  burn = false;
  encrypted = false;
  e2e_encrypted = false;
  protected = false;
  lang = codes "text";
  expire_at = none;
}

abbrev rows : Table
rows = (codes "x1", paste) ∷ []

serve-IsSecured_example :
    (((serve mux site
          (λ s. true)
          minute
          two
          (request get (codes "/p/raw/x1"))
          (nobody, rows)).0.response.answer
        ≡ outside)
      × IsLost site (request get (codes "/p/raw/x1")))
    ⊎ IsSecured
        (serve mux site
          (λ s. true)
          minute
          two
          (request get (codes "/p/raw/x1"))
          (nobody, rows)).0.response.headers
serve-IsSecured_example =
    serve-IsSecured mux site (λ s. true) minute two (request get (codes "/p/raw/x1")) nobody rows

content-IsInert_example :
    IsContentInert
      (serve mux site
        (λ s. true)
        minute
        two
        (request get (codes "/p/raw/x1"))
        (nobody, rows)).0.response.answer
      (serve mux site
        (λ s. true)
        minute
        two
        (request get (codes "/p/raw/x1"))
        (nobody, rows)).0.response.headers
content-IsInert_example =
    content-IsInert mux site (λ s. true) minute two (request get (codes "/p/raw/x1")) nobody rows

cached_pasteless_example :
    IsShared
      (serve mux site
        (λ s. true)
        minute
        two
        (request get (codes "/p/static/a.css"))
        (nobody, rows)).0.response.answer
    × ((serve mux site
          (λ s. true)
          minute
          two
          (request get (codes "/p/static/a.css"))
          (nobody, rows)).1.1
        ≡ rows)
unfolding serve own_pastebin.Server.Http.set
cached_pasteless_example =
    cached_pasteless mux site (λ s. true) minute two (request get (codes "/p/static/a.css")) nobody
      rows refl

is_base : IsBase site (codes "http") (codes "localhost") (codes "/p") []
unfolding extract_path_prefix
is_base = record {
  base = refl;
  prefix = refl;
  scheme_plain = refl;
  host_plain = refl;
  path_plain = below [] b'p' refl;
  only_slashes = refl;
}

is_slashed : IsBase slashed (codes "http") (codes "localhost") (codes "/p") (codes "/")
unfolding extract_path_prefix
is_slashed = record {
  base = refl;
  prefix = refl;
  scheme_plain = refl;
  host_plain = refl;
  path_plain = below [] b'p' refl;
  only_slashes = refl;
}

link_lost_example :
    ((serve mux slashed
        (λ s. true)
        minute
        two
        (request get (codes "/p//x1"))
        (nobody, rows)).0.response.answer
      ≡ unrouted 404)
    × ((serve mux slashed (λ s. true) minute two (request get (codes "/p//x1")) (nobody, rows)).1.1
        ≡ rows)
unfolding own_pastebin.Server.Limiter.admit own_pastebin.Server.Limiter.real_ip
link_lost_example =
    link_lost mux slashed (λ s. true) minute two (request get (codes "/p//x1")) nobody rows
      (codes "http") (codes "localhost") (codes "/p") [] (codes "x1") is_slashed refl refl refl refl

path-HasLine_example :
    (a : Access) × ((serve mux site
        (λ s. true)
        minute
        two
        (request get (codes "/p/x\nfake\ny"))
        (exhausted, rows)).0.logged
      ≡ some a)
    × (a.level ≡ info)
    × HasLine
        (codes "fake")
        (text_handle [] (access_record (codes "now") (codes "1ms") (codes "20") a))
unfolding own_pastebin.Server.Limiter.admit own_pastebin.Server.Limiter.real_ip
path-HasLine_example =
    path-HasLine mux site (λ s. true) minute two (request get (codes "/p/x\nfake\ny")) exhausted
      rows (codes "/x\nfake\ny") [] (codes "now") (codes "1ms") (codes "20") (codes "/x")
      (codes "fake") (codes "y") refl refl refl refl refl refl

hi-IsAccepted :
    IsAccepted site.app minute
      (upload (codes "hi"))
      (codes "hi")
      server_nonce
      (codes "x1")
      (pos minute)
      []
unfolding requested_ttl find
hi-IsAccepted = record {
  not_above = refl;
  body_read = refl;
  is_within = omega arith;
  has_slot = refl;
  has_nonce = refl;
  nonce_long = refl;
  ttl_read = refl;
  first_id = refl;
  id_free = refl;
}

upload-view_example :
    (p : Paste) × ((serve mux site
        (λ s. true)
        minute
        two
        (request post (codes "/p/"))
        (nobody, [])).0.response.answer
      ≡ replied (reply_created site.app (codes "x1") p))
    × ((serve mux site (λ s. true) minute two (request post (codes "/p/")) (nobody, [])).1.1
        ≡ (codes "x1", p) ∷ [])
    × ((serve mux site
          (λ s. true)
          minute
          two
          (request get (codes "/p/x1"))
          (nobody, (codes "x1", p) ∷ [])).0.response.answer
        ≡ replied (page_opened site.app minute (λ s. true) (codes "x1") p (some (codes "hi"))))
unfolding own_pastebin.Server.Limiter.admit own_pastebin.Server.Limiter.real_ip expire_at
    resolve_ttl
upload-view_example =
    upload-view mux site (λ s. true) two (codes "http") (codes "localhost") (codes "/p") is_base
      minute minute (request post (codes "/p/")) (request get (codes "/p/x1")) nobody nobody [] b'h'
      (b'i' ∷ []) server_nonce (codes "x1") (pos minute) refl refl refl refl hi-IsAccepted
      (record { segment = refl; not_config = refl; not_spec = refl; not_swagger = refl }) refl refl
      refl refl refl refl
