-- ===== src/Server/Http/Ways.antt =====
-- The ways that a request can take through the server.
use own_pastebin.Prelude.{
  ℕ, ◌≡◌, ◌⊎◌, refl, ap, ◌∙◌, arith, [], ◌∷◌, strip_prefix-append, inl, inr, Bool, Bool-cases,
  Option, none, some, ◌++◌, Text, codes, if◌then◌else◌, strip_prefix,
}
use own_pastebin.Server.Limiter.{Rate, Entries, admit, real_ip, rate_limited}
use own_pastebin.Server.Store.{Table}
use own_pastebin.Server.Http.Mux.{Mux}
use own_pastebin.Server.Http.{
  Headers, Request, Site, static_file, too_many, unrouted, outside, Response, security_headers,
  long_cache, error_headers,
}
use own_pastebin.Server.Http.Serve.{
  Route, handle, dispatch, routed, route_path, static_prefix, and_raw, strip_raw, strip_url,
  stripped, asset, assets_first, serve, routes_of, known,
}

abbrev pub secure : Headers
secure = security_headers (λ k. none)

strip_prefix-both : (p u s : Text) → strip_prefix (p ++ u) (p ++ s) ≡ strip_prefix u s
strip_prefix-both [] u s = refl
strip_prefix-both (c ∷ p) u s = ground (arith, strip_prefix-both p u s)

-- A path under the prefix that is not one of the static files.
pub under_prefix :
    (prefix rest path raw : Text)
    → path ≡ prefix ++ rest
    → raw ≡ []
    → strip_prefix (codes "/static/") rest ≡ none
    → (strip_prefix (static_prefix prefix) path ≡ none)
      × (strip_url prefix path raw ≡ some (rest, []))
under_prefix prefix rest path raw under whole no_file = (
  ap (strip_prefix (prefix ++ codes "/static/")) under
      ∙ strip_prefix-both prefix (codes "/static/") rest
      ∙ no_file,
  ap (λ r. strip_url prefix path r) whole
      ∙ ap (and_raw prefix []) (ap (strip_prefix prefix) under ∙ strip_prefix-append prefix rest),
)

-- The path, or its escaped form, is not under the server's prefix, or the path is under that of the
-- static files and its escaped form is not.
abbrev pub IsLost : Site → Request → Type 0
IsLost site req =
    (strip_url site.path_prefix req.path req.raw_path ≡ none)
    ⊎ ((rest : Text) × (strip_prefix (static_prefix site.path_prefix) req.path ≡ some rest)
        × (strip_raw (static_prefix site.path_prefix) rest req.raw_path ≡ none))

-- A property of the response and the table holds of every request if it holds on each way.
module _ (mux : Mux) (site : Site) (valid : Text → Bool) (now : ℕ) (rate : Rate)
    (P : Response → Table → Type 0) (req : Request) (rows : Table)
    (at_file : (rest : Text)
      → P (record { answer = static_file rest; headers = long_cache site.origin secure }) rows)
    (at_outside : IsLost site req
      → P (record { answer = outside; headers = error_headers (λ k. none) }) rows)
    (at_limit : P (record { answer = too_many; headers = error_headers secure }) rows)
    (at_none : (status : ℕ) → P (record { answer = unrouted status; headers = secure }) rows)
    (at_route : (rest raw : Text) (r : Route) (id : Text)
      → P
          (handle mux site valid now
            (record req { path = rest; raw_path = raw })
            secure
            rows
            r
            id).0
          (handle mux site valid now
            (record req { path = rest; raw_path = raw })
            secure
            rows
            r
            id).1) where
  dispatch_cases :
      (rest raw : Text) (o : Option (Route × Text))
      → P
          (dispatch mux site valid now (record req { path = rest; raw_path = raw }) secure o rows).0
          (dispatch mux site valid now (record req { path = rest; raw_path = raw }) secure o rows).1
  dispatch_cases rest raw none =
      at_none
        (if known mux site valid now (route_path mux site valid now rest raw) then 405 else 404)
  dispatch_cases rest raw (some (r, id)) = at_route rest raw r id

  routed_cases :
      (rest raw : Text) (entries : Entries rate)
      → P
          (routed mux site valid now rate
            (record req { path = rest; raw_path = raw })
            (entries, rows)).0
          (routed mux site valid now rate
            (record req { path = rest; raw_path = raw })
            (entries, rows)).1.1
  unfolding routed rate_limited
  routed_cases rest raw entries =
      elim (Bool-cases (admit rate now (real_ip site.trusted_proxy req.sender) entries).0) [
        | inl ok ↦ rw ok (
            dispatch_cases rest raw
              (mux.route (routes_of req.method) (route_path mux site valid now rest raw)))
        | inr over ↦ rw over at_limit
      ]

  stripped_cases :
      (o : Option (Text × Text)) (entries : Entries rate)
      → strip_url site.path_prefix req.path req.raw_path ≡ o
      → P
          (stripped mux site valid now rate req o (entries, rows)).0.response
          (stripped mux site valid now rate req o (entries, rows)).1.1
  stripped_cases none entries e = at_outside (inl e)
  stripped_cases (some (rest, raw)) entries e = routed_cases rest raw entries

  asset_cases :
      (rest : Text) (o : Option (Text × Text)) (entries : Entries rate)
      → strip_prefix (static_prefix site.path_prefix) req.path ≡ some rest
      → strip_raw (static_prefix site.path_prefix) rest req.raw_path ≡ o
      → P
          (asset mux site valid now rate o (entries, rows)).0.response
          (asset mux site valid now rate o (entries, rows)).1.1
  asset_cases rest none entries e h = at_outside (inr (rest, e, h))
  asset_cases rest (some (file, raw)) entries e h = at_file file

  assets_cases :
      (o : Option Text) (entries : Entries rate)
      → strip_prefix (static_prefix site.path_prefix) req.path ≡ o
      → P
          (assets_first mux site valid now rate req o (entries, rows)).0.response
          (assets_first mux site valid now rate req o (entries, rows)).1.1
  assets_cases none entries e =
      stripped_cases (strip_url site.path_prefix req.path req.raw_path) entries refl
  assets_cases (some rest) entries e =
      asset_cases rest (strip_raw (static_prefix site.path_prefix) rest req.raw_path) entries e refl

  pub serve_cases :
      (entries : Entries rate)
      → P
          (serve mux site valid now rate req (entries, rows)).0.response
          (serve mux site valid now rate req (entries, rows)).1.1
  unfolding serve
  serve_cases entries =
      assets_cases (strip_prefix (static_prefix site.path_prefix) req.path) entries refl
