-- ===== src/Server/Http/Links.antt =====
-- The address that a created paste gets leads to the paste, if the base URL has no slash at its end.
use own_pastebin.Prelude.{
  ℕ, ◌≡◌, refl, sym, ap, ◌∙◌, arith, Bool, true, false, not, Option, none, some, [], ◌∷◌, ◌++◌,
  ◌==◌, Text, codes, text_eq, strip_prefix, all,
}
use own_pastebin.Server.Limiter.{Rate, Entries, admit, real_ip, rate_limited}
use own_pastebin.Server.Config.{extract_path_prefix}
use own_pastebin.Server.Config.Prefix.{is_slash, IsPrefix, extract_path_prefix-print}
use own_pastebin.Server.Store.{Table}
use own_pastebin.Server.Routes.{handle_view}
use own_pastebin.Server.Http.Mux.{Mux, is_segment, fitting}
use own_pastebin.Server.Http.{Request, Site, Response, get, replied, unrouted}
use own_pastebin.Server.Http.Serve.{
  Route, to_view, get_routes, post_routes, delete_routes, routes_of, handle, dispatch, routed,
  serve,
}
use own_pastebin.Server.Http.Ways.{secure, under_prefix}

-- The base URL, scheme and host and the path, with slashes at its end; the server's prefix is read of
-- it.
pub record IsBase (site : Site) (scheme host path slashes : Text) : Type 0 where
  pub base : site.app.base_url ≡ scheme ++ (codes "://" ++ (host ++ (path ++ slashes)))
  pub prefix : site.path_prefix ≡ extract_path_prefix site.app.base_url
  pub scheme_plain : all (λ c. not (c == b':')) scheme ≡ true
  pub host_plain : all (λ c. not (is_slash c)) host ≡ true
  pub path_plain : IsPrefix path
  pub only_slashes : all is_slash slashes ≡ true

pub prefix-path :
    {site : Site} (scheme host path slashes : Text)
    → IsBase site scheme host path slashes
    → site.path_prefix ≡ path
prefix-path scheme host path slashes b =
    b.prefix
    ∙ ap extract_path_prefix b.base
    ∙ extract_path_prefix-print scheme host path slashes b.scheme_plain b.host_plain b.path_plain
        b.only_slashes

-- An id that is one segment and no name of another page.
pub record IsLinkable (id : Text) : Type 0 where
  pub segment : is_segment id ≡ true
  pub not_config : text_eq (codes "config") id ≡ false
  pub not_spec : text_eq (codes "openapi.json") id ≡ false
  pub not_swagger : text_eq (codes "swagger-ui") id ≡ false

-- A text without a slash does not begin with one that has a slash.
no_slash :
    (u v s : Text) → all (λ c. not (c == b'/')) s ≡ true → strip_prefix (u ++ b'/' ∷ v) s ≡ none
no_slash [] v [] h = refl
no_slash [] v (c ∷ s) h = ground (arith, h)
no_slash (d ∷ u) v [] h = refl
no_slash (d ∷ u) v (c ∷ s) h = ground (arith, h, no_slash u v s)

get_routes-view : (id : Text) → IsLinkable id → fitting (b'/' ∷ id) get_routes ≡ (to_view, id) ∷ []
get_routes-view [] v = cc v.segment
get_routes-view (c ∷ s) v =
    rw
      (
        no_slash (codes "raw") [] (c ∷ s) v.segment,
        no_slash (codes "download") [] (c ∷ s) v.segment,
        v.not_config,
        v.not_spec,
        v.not_swagger,
        v.segment,
      )
      refl

segment-no_slash : (id : Text) → is_segment id ≡ true → all (λ c. not (c == b'/')) id ≡ true
segment-no_slash [] h = refl
segment-no_slash (c ∷ s) h = h

-- Slashes with another one behind them.
two_slashes :
    (more id : Text)
    → all is_slash (b'/' ∷ more) ≡ true
    → (tail : Text) × (more ++ b'/' ∷ id ≡ b'/' ∷ tail)
two_slashes [] id h = (id, refl)
two_slashes (c ∷ more) id h =
    let first : c ≡ b'/' = ground (arith, h) in
    (more ++ b'/' ∷ id, ap (λ d. d ∷ more ++ b'/' ∷ id) first)

-- The rate limit lets the request pass.
abbrev pub IsAdmitted : Site → ℕ → (rate : Rate) → Request → Entries rate → Type 0
IsAdmitted site now rate req entries =
    (admit rate now (real_ip site.trusted_proxy req.sender) entries).0 ≡ true

-- A request under the prefix that the limit admits goes to its route.
module _ (mux : Mux) (site : Site) (valid : Text → Bool) (now : ℕ) (rate : Rate) (req : Request)
    (entries : Entries rate) (rows : Table) where
  abbrev pub at_rest : Text → Option (Route × Text) → Response × Table
  at_rest rest o =
      dispatch mux site valid now (record req { path = rest; raw_path = [] }) secure o rows

  routed_admitted :
      (rest : Text)
      → IsAdmitted site now rate req entries
      → ((routed mux site valid now rate
            (record req { path = rest; raw_path = [] })
            (entries, rows)).0
          ≡ (at_rest rest (mux.route (routes_of req.method) rest)).0)
        × ((routed mux site valid now rate
              (record req { path = rest; raw_path = [] })
              (entries, rows)).1.1
            ≡ (at_rest rest (mux.route (routes_of req.method) rest)).1)
  unfolding routed rate_limited
  routed_admitted rest ok = rw ok (refl, refl)

  pub serve_rest :
      (rest : Text) (o : Option (Route × Text))
      → IsAdmitted site now rate req entries
      → req.path ≡ site.path_prefix ++ rest
      → req.raw_path ≡ []
      → strip_prefix (codes "/static/") rest ≡ none
      → mux.route (routes_of req.method) rest ≡ o
      → ((serve mux site valid now rate req (entries, rows)).0.response ≡ (at_rest rest o).0)
        × ((serve mux site valid now rate req (entries, rows)).1.1 ≡ (at_rest rest o).1)
  unfolding serve
  serve_rest rest o ok under whole no_file found =
      let (a, b) = routed_admitted rest ok in
      let (no_asset, inside) =
        under_prefix site.path_prefix rest req.path req.raw_path under whole no_file in
      rw (no_asset, inside)
        (a ∙ ap (λ x. (at_rest rest x).0) found, b ∙ ap (λ x. (at_rest rest x).1) found)

  -- The page of a paste, at the address that its upload was answered with.
  pub link-view :
      (scheme host path id : Text)
      → IsBase site scheme host path []
      → IsLinkable id
      → IsAdmitted site now rate req entries
      → req.method ≡ get
      → req.path ≡ path ++ b'/' ∷ id
      → req.raw_path ≡ []
      → ((serve mux site valid now rate req (entries, rows)).0.response.answer
          ≡ replied (handle_view site.app now valid req.answers id rows).0)
        × ((serve mux site valid now rate req (entries, rows)).1.1
            ≡ (handle_view site.app now valid req.answers id rows).1)
  unfolding handle
  link-view scheme host path id base v ok method under whole =
      let (a, b) =
        serve_rest (b'/' ∷ id) (some (to_view, id)) ok
          (under ∙ ap (λ p. p ++ b'/' ∷ id) (sym (prefix-path scheme host path [] base))) whole
          (no_slash (codes "static") [] id (segment-no_slash id v.segment))
          (ap (λ m. mux.route (routes_of m) (b'/' ∷ id)) method
            ∙ mux.routes_only get_routes (b'/' ∷ id) id to_view (get_routes-view id v)) in
      (ap (λ r. r.answer) a, b)

  -- Where the base URL ends in a slash, the address of a paste leads nowhere: a GET of it, whose path
  -- needs no escapes, is answered 404.
  pub link_lost :
      (scheme host path more id : Text)
      → IsBase site scheme host path (b'/' ∷ more)
      → IsAdmitted site now rate req entries
      → req.method ≡ get
      → req.path ≡ path ++ (b'/' ∷ more ++ b'/' ∷ id)
      → req.raw_path ≡ []
      → ((serve mux site valid now rate req (entries, rows)).0.response.answer ≡ unrouted 404)
        × ((serve mux site valid now rate req (entries, rows)).1.1 ≡ rows)
  link_lost scheme host path more id base ok method under whole =
      let (tail, e) = two_slashes more id base.only_slashes in
      let (a, b) =
        serve_rest (b'/' ∷ b'/' ∷ tail) none ok
          (under
            ∙ ap (λ t. path ++ (b'/' ∷ t)) e
            ∙ ap (λ p. p ++ (b'/' ∷ b'/' ∷ tail))
                (sym (prefix-path scheme host path (b'/' ∷ more) base)))
          whole refl
          (ap (λ m. mux.route (routes_of m) (b'/' ∷ b'/' ∷ tail)) method
            ∙ mux.routes_none get_routes (b'/' ∷ b'/' ∷ tail) refl) in
      (
        ap (λ r. r.answer) a
            ∙ (rw
                (
                  mux.routes_none get_routes (b'/' ∷ b'/' ∷ tail) refl,
                  mux.routes_none post_routes (b'/' ∷ b'/' ∷ tail) refl,
                  mux.routes_none delete_routes (b'/' ∷ b'/' ∷ tail) refl,
                )
                refl),
        b,
      )
