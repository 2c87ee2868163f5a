-- ===== src/Server/Config/Load.antt =====
-- `loadSettings` of internal/config.go: the settings from the environment, a function that is empty
-- where a variable is not set. Go's parsers of addresses, networks and URLs are arguments.
use own_pastebin.Prelude.{
  Bool, false, Option, none, some, List, [], ◌∷◌, ◌++◌, if◌then◌else◌, Text, codes, contains,
}
use own_pastebin.Server.Strings.{trim_space}
use own_pastebin.Server.Ttl.{ℤ, pos}
use own_pastebin.Server.Config.{
  get_env, get_env_bool, get_env_int, parse_time, parse_size, extract_path_prefix, ExpiryOption,
  parse_expiry_times,
}

pub record Settings : Type 0 where
  pub redis_url : Text
  pub postgres_url : Text
  pub sqlite_path : Text
  pub base_url : Text
  pub origin : Text
  pub path_prefix : Text
  pub default_burn : Bool
  pub default_ttl : ℤ
  pub max_ttl : ℤ
  pub slug_len : ℤ
  pub max_paste_size : ℤ
  pub max_parallel_uploads : ℤ
  pub sqlite_page_size : ℤ
  pub version : Text
  pub cookie_url : Text
  pub privacy_note_url : Text
  pub custom_url : Text
  pub custom_url_icon : Text
  pub expiry_times : List ExpiryOption
  pub server_side_encryption_enabled : Bool
  pub server_side_encryption_key : Text
  pub protected_paste_enabled : Bool
  pub trusted_proxy : Option (Text → Bool)
  pub theme_css : Text

-- An address as `net.ParseIP` gives it: whether it is one of IPv4, and how it is printed.
pub record Ip : Type 0 where
  pub is_v4 : Bool
  pub printed : Text

-- `net.ParseIP`, `net.ParseCIDR` with the test of a network, and `url.Parse` with scheme and host.
pub record Parsers : Type 0 where
  pub parse_ip : Text → Option Ip
  pub parse_net : Text → Option (Text → Bool)
  pub parse_url : Text → Option (Text × Text)

module _ (q : Parsers) where
  -- `originFromBaseURL`
  abbrev pub joined : Option (Text × Text) → Text
  joined none = []
  joined (some ([], host)) = []
  joined (some (c ∷ scheme, [])) = []
  joined (some (c ∷ scheme, d ∷ host)) = (c ∷ scheme) ++ (codes "://" ++ d ∷ host)

  unfoldable pub origin_of : Text → Text
  origin_of url = joined (q.parse_url url)

  -- `parseCIDR`
  abbrev pub host_network : Option Ip → Option (Text → Bool)
  host_network none = none
  host_network (some ip) =
      q.parse_net (ip.printed ++ (if ip.is_v4 then codes "/32" else codes "/128"))

  unfoldable pub parse_cidr : Text → Option (Text → Bool)
  parse_cidr raw =
      let input = trim_space raw in
      if contains b'/' input then q.parse_net input else host_network (q.parse_ip input)

  abbrev pub proxy_of : Text → Option (Text → Bool)
  proxy_of [] = none
  proxy_of (c ∷ raw) = parse_cidr (c ∷ raw)

  unfoldable pub load_settings : (Text → Text) → Settings
  unfolding origin_of parse_cidr
  load_settings env =
      let base : Text = get_env (env (codes "PASTEBIN_BASE_URL")) (codes "http://localhost:8080") in
      record {
        redis_url = env (codes "PASTEBIN_REDIS_URL");
        postgres_url = env (codes "PASTEBIN_POSTGRES_URL");
        sqlite_path = get_env (env (codes "PASTEBIN_SQLITE_PATH")) (codes "/app/data/pastes.db");
        base_url = base;
        origin = origin_of base;
        path_prefix = extract_path_prefix base;
        slug_len = get_env_int (env (codes "PASTEBIN_SLUG_LEN")) (pos 20);
        default_burn = get_env_bool (env (codes "PASTEBIN_DEFAULT_BURN")) false;
        max_paste_size = parse_size (get_env (env (codes "PASTEBIN_MAX_PASTE_SIZE")) (codes "5MB"));
        max_parallel_uploads = get_env_int (env (codes "PASTEBIN_MAX_PARALLEL_UPLOADS")) (pos 20);
        sqlite_page_size = get_env_int (env (codes "PASTEBIN_SQLITE_PAGE_SIZE")) (pos 0);
        cookie_url = env (codes "PASTEBIN_COOKIE_URL");
        privacy_note_url = env (codes "PASTEBIN_PRIVACY_URL");
        custom_url = env (codes "PASTEBIN_CUSTOM_URL");
        custom_url_icon = env (codes "PASTEBIN_CUSTOM_ICON");
        server_side_encryption_enabled =
            get_env_bool (env (codes "PASTEBIN_SERVER_SIDE_ENCRYPTION_ENABLED")) false;
        server_side_encryption_key = env (codes "PASTEBIN_SERVER_SIDE_ENCRYPTION_KEY");
        protected_paste_enabled =
            get_env_bool (env (codes "PASTEBIN_PROTECTED_PASTE_ENABLED")) false;
        theme_css = env (codes "PASTEBIN_THEME_CUSTOM_CSS");
        version = env (codes "VERSION");
        default_ttl = parse_time (get_env (env (codes "PASTEBIN_DEFAULT_TTL")) (codes "0"));
        max_ttl = parse_time (env (codes "PASTEBIN_MAX_TTL"));
        trusted_proxy = proxy_of (env (codes "PASTEBIN_TRUSTED_PROXY"));
        expiry_times = parse_expiry_times (env (codes "PASTEBIN_EXPIRY_TIMES"));
      }
