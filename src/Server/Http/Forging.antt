-- ===== src/Server/Http/Forging.antt =====
-- A path with line ends in the access log.
use own_pastebin.Prelude.{
  ℕ, ◌≡◌, Bool, refl, ap, ◌∙◌, false, none, some, List, [], ◌∷◌, ◌++◌, Text, codes, strip_prefix,
}
use own_pastebin.Page.{decimal}
use own_pastebin.Server.Limiter.{Rate, Entries, admit, real_ip, rate_limited}
use own_pastebin.Server.Log.{Attr, info, text_handle}
use own_pastebin.Server.Log.Laws.{HasLine, text_handle-HasLine}
use own_pastebin.Server.Store.{Table}
use own_pastebin.Server.Http.Mux.{Mux}
use own_pastebin.Server.Http.{
  Request, Site, Access, access, access_record, text_attr, number_attr, full_path, too_many,
}
use own_pastebin.Server.Http.Serve.{routed, serve}
use own_pastebin.Server.Http.Ways.{under_prefix}

module _ (mux : Mux) (site : Site) (valid : Text → Bool) (now : ℕ) (rate : Rate) (req : Request)
    (entries : Entries rate) (rows : Table) (rest : Text) where
  limited_logged :
      (admit rate now (real_ip site.trusted_proxy req.sender) entries).0 ≡ false
      → req.path ≡ site.path_prefix ++ rest
      → req.raw_path ≡ []
      → strip_prefix (codes "/static/") rest ≡ none
      → (serve mux site valid now rate req (entries, rows)).0.logged
        ≡ some (access site.trusted_proxy (record req { path = rest; raw_path = [] }) too_many)
  unfolding serve routed rate_limited
  limited_logged over under whole no_file =
      let (no_asset, inside) =
        under_prefix site.path_prefix rest req.path req.raw_path under whole no_file in
      rw (no_asset, inside) (rw over refl)

  -- A client that is over the limit can write lines of its own into the log: the request is logged at
  -- the level of normal requests, and a text that stands in its path between two line ends is a line
  -- of the log, whatever it says. (The text handler is used, and the request has no query; its path is escaped in
  -- the default way, as `%0A` is for a line end.)
  pub path-HasLine :
      (attached : List Attr) (time duration bytes before s after : Text)
      → (admit rate now (real_ip site.trusted_proxy req.sender) entries).0 ≡ false
      → req.path ≡ site.path_prefix ++ rest
      → req.raw_path ≡ []
      → strip_prefix (codes "/static/") rest ≡ none
      → req.raw_query ≡ []
      → rest ≡ before ++ (10 ∷ s ++ 10 ∷ after)
      → (a : Access) × ((serve mux site valid now rate req (entries, rows)).0.logged ≡ some a)
        × (a.level ≡ info)
        × HasLine s (text_handle attached (access_record time duration bytes a))
  unfolding access access_record
  path-HasLine attached time duration bytes before s after over under whole no_file no_query e =
      let a : Access =
        access site.trusted_proxy (record req { path = rest; raw_path = [] }) too_many in
      (
        a,
        limited_logged over under whole no_file,
        refl,
        text_handle-HasLine attached (access_record time duration bytes a)
            (text_attr (codes "method") a.method ∷ []) (text_attr (codes "path") a.path)
            (number_attr (codes "status") (decimal a.status)
              ∷ text_attr (codes "duration") duration
              ∷ number_attr (codes "bytes") bytes
              ∷ text_attr (codes "ip") a.ip
              ∷ [])
            s before after refl refl (ap (full_path rest) no_query ∙ e),
      )
