-- ===== src/Server/Http/Serve.antt =====
-- The routes and the whole way of a request: `router`, the rate limit, the access log, and the
-- handler that main.go puts in front.
use own_pastebin.Prelude.{
  ℕ, Bool, ◌||◌, Option, none, some, List, [], ◌∷◌, ◌++◌, if◌then◌else◌, is_some, Text, codes,
  strip_prefix,
}
use own_pastebin.Server.Limiter.{Rate, Entries, rate_limited}
use own_pastebin.Server.Store.{Table}
use own_pastebin.Server.Routes.{Reply, handle_create, handle_raw, handle_view, handle_delete}
use own_pastebin.Server.Http.Mux.{Pattern, exact, with_id, Mux}
use own_pastebin.Server.Http.{
  Headers, Method, get, post, delete, other, Request, Site, Answer, replied, form, settings,
  api_spec, api_page, static_file, too_many, unrouted, outside, Response, form_data, config_data,
  security_headers, no_cache, long_cache, raw_content, error_headers, raw_headers, download_headers,
  view_headers, create_headers, delete_headers, html, json, Access, access,
}

pub data Route : Type 0 where
  to_raw to_download to_config to_spec to_swagger to_form to_view to_create to_delete : Route

abbrev pub Routes : Type 0
Routes = List (Pattern × Route)

abbrev pub get_routes : Routes
get_routes =
    (with_id (codes "/raw/"), to_raw)
    ∷ (with_id (codes "/download/"), to_download)
    ∷ (exact (codes "/config"), to_config)
    ∷ (exact (codes "/openapi.json"), to_spec)
    ∷ (exact (codes "/swagger-ui"), to_swagger)
    ∷ (exact (codes "/"), to_form)
    ∷ (with_id (codes "/"), to_view)
    ∷ []

abbrev pub post_routes : Routes
post_routes = (exact (codes "/"), to_create) ∷ []

abbrev pub delete_routes : Routes
delete_routes = (with_id (codes "/"), to_delete) ∷ []

abbrev pub routes_of : Method → Routes
routes_of get = get_routes
routes_of post = post_routes
routes_of delete = delete_routes
routes_of (other name) = []

-- The answer to a request, and what it is that the access log says.
pub record Served : Type 0 where
  pub response : Response
  pub logged : Option Access

-- `http.StripPrefix`, which takes the prefix from the path and from its escaped form, if there is one;
-- `none` is its answer 404.
abbrev pub with_raw : Text → Option Text → Option (Text × Text)
with_raw rest none = none
with_raw rest (some raw) = some (rest, raw)

abbrev pub strip_raw : Text → Text → Text → Option (Text × Text)
strip_raw prefix rest [] = some (rest, [])
strip_raw prefix rest (c ∷ raw) = with_raw rest (strip_prefix prefix (c ∷ raw))

abbrev pub and_raw : Text → Text → Option Text → Option (Text × Text)
and_raw prefix raw none = none
and_raw prefix raw (some rest) = strip_raw prefix rest raw

abbrev pub strip_url : Text → Text → Text → Option (Text × Text)
strip_url prefix path raw = and_raw prefix raw (strip_prefix prefix path)

abbrev pub static_prefix : Text → Text
static_prefix prefix = prefix ++ codes "/static/"

module _ (mux : Mux) (site : Site) (valid : Text → Bool) (now : ℕ) where
  abbrev pub with_headers : (Reply → Headers → Headers) → Headers → Reply × Table → Response × Table
  with_headers f h (r, rows) = (record { answer = replied r; headers = f r h }, rows)

  abbrev pub unchanged : Answer → Headers → Table → Response × Table
  unchanged a h rows = (record { answer = a; headers = h }, rows)

  -- The handlers behind the middlewares of their routes.
  unfoldable pub handle : Request → Headers → Table → Route → Text → Response × Table
  handle req h rows to_raw id =
      with_headers (raw_headers valid id) (raw_content site.origin h)
        (handle_raw site.app now req.answers id rows)
  handle req h rows to_download id =
      with_headers (download_headers id) (raw_content site.origin h)
        (handle_raw site.app now req.answers id rows)
  handle req h rows to_view id =
      with_headers view_headers (no_cache site.origin h)
        (handle_view site.app now valid req.answers id rows)
  handle req h rows to_create id =
      with_headers create_headers h (handle_create site.app now req.upload rows)
  handle req h rows to_delete id =
      with_headers delete_headers h (handle_delete site.app now req.answers id rows)
  handle req h rows to_config id =
      unchanged (settings (config_data site)) (json (long_cache site.origin h)) rows
  handle req h rows to_spec id = unchanged api_spec (json (long_cache site.origin h)) rows
  handle req h rows to_swagger id = unchanged api_page (html (long_cache site.origin h)) rows
  handle req h rows to_form id =
      unchanged (form (form_data site req.upload.query)) (html (long_cache site.origin h)) rows

  -- The path that chi takes: the escaped one, if the URL has it.
  abbrev pub route_path : Text → Text → Text
  route_path path [] = path
  route_path path (c ∷ raw) = c ∷ raw

  -- A path that has a route for another method is answered 405.
  abbrev pub known : Text → Bool
  known path =
      is_some (mux.route get_routes path)
      || is_some (mux.route post_routes path)
      || is_some (mux.route delete_routes path)

  abbrev pub dispatch : Request → Headers → Option (Route × Text) → Table → Response × Table
  dispatch req h (some (r, id)) rows = handle req h rows r id
  dispatch req h none rows =
      unchanged (unrouted (if known (route_path req.path req.raw_path) then 405 else 404)) h rows

  module _ (rate : Rate) where
    abbrev pub State : Type 0
    State = Entries rate × Table

    -- `router`: the middlewares of all routes, then the route.
    unfoldable pub routed : Request → State → Response × State
    unfolding rate_limited handle
    routed req state =
        let h = security_headers (λ k. none) in
        rate_limited rate site.trusted_proxy now req.sender
          (record { answer = too_many; headers = error_headers h })
          (dispatch req h (mux.route (routes_of req.method) (route_path req.path req.raw_path)))
          state

    abbrev pub with_access : Request → Response × State → Served × State
    with_access req (response, state) = (
      record { response = response; logged = some (access site.trusted_proxy req response.answer) },
      state,
    )

    abbrev pub unlogged : Answer → Headers → State → Served × State
    unlogged a h state =
        (record { response = record { answer = a; headers = h }; logged = none }, state)

    -- The 404 of `http.StripPrefix`.
    abbrev pub not_stripped : State → Served × State
    not_stripped = unlogged outside (error_headers (λ k. none))

    abbrev pub stripped : Request → Option (Text × Text) → State → Served × State
    stripped req none state = not_stripped state
    stripped req (some (rest, raw)) state =
        with_access (record req { path = rest; raw_path = raw })
          (routed (record req { path = rest; raw_path = raw }) state)

    abbrev pub asset : Option (Text × Text) → State → Served × State
    asset none state = not_stripped state
    asset (some (rest, raw)) state =
        unlogged (static_file rest) (long_cache site.origin (security_headers (λ k. none))) state

    abbrev pub assets_first : Request → Option Text → State → Served × State
    assets_first req (some rest) state =
        asset (strip_raw (static_prefix site.path_prefix) rest req.raw_path) state
    assets_first req none state =
        stripped req (strip_url site.path_prefix req.path req.raw_path) state

    -- `newPrefixHandler`; an empty prefix is stripped from every path.
    unfoldable pub serve : Request → State → Served × State
    unfolding routed access
    serve req state =
        assets_first req (strip_prefix (static_prefix site.path_prefix) req.path) state
