-- ===== src/Server/Start.antt =====
-- The start of the server: `run` of main.go with `newApp` and `listenAddress`, `newCrypto` of
-- internal/crypto.go, and the choice of the backend in `newStorage` of internal/storage.go.
--
-- The environment is a function, empty where a variable is not set. An error that `run` returns ends
-- the process, and so do `os.Exit` in `newStorage` and the panic of `make` on a negative size.
pub mod Sealing
pub mod Laws
pub mod Env
mod Tests
use own_pastebin.Prelude.{
  ℕ, Bool, true, false, ◌&&◌, Option, none, some, [], ◌∷◌, ◌++◌, ◌==◌, if◌then◌else◌, length, Text,
  codes, ◌>>=◌,
}
use own_pastebin.Server.Ttl.{ℤ, pos, negsuc}
use own_pastebin.Server.Config.{get_env, expiry_times}
use own_pastebin.Server.Config.Load.{Settings, Parsers, load_settings}
use own_pastebin.Server.Cipher.{Gcm}
use own_pastebin.Server.Routes.{App}
use own_pastebin.Server.Http.{Site}

-- What is outside: the decoder of base64 (`none` is an error), the cipher that Go's library makes of a
-- key of 32 bytes, the storages, how each backend opens one from its address or path (`none` is an
-- error), the parsers, and whether the template and the embedded files are read.
pub record Outside : Type 1 where
  pub decode : Text → Option Text
  pub gcm_of : Text → Gcm
  pub Storage : Type 0
  pub open_redis : Text → Option Storage
  pub open_postgres : Text → Option Storage
  pub open_sqlite : Text → Option Storage
  pub parsers : Parsers
  pub template_parses : Bool
  pub files_open : Bool

-- `listenAddress`
unfoldable pub listen_address : (Text → Text) → Text
listen_address env =
    get_env (env (codes "PASTEBIN_HOST")) (codes "0.0.0.0")
    ++ b':' ∷ get_env (env (codes "PASTEBIN_PORT")) (codes "8080")

abbrev pub is_set : Text → Bool
is_set [] = false
is_set (c ∷ s) = true

-- The key of the cipher.
abbrev pub sized : Option Text → Option Text
sized none = none
sized (some key) = if length key == 32 then some key else none

-- `newCrypto`
unfoldable pub new_crypto : (Text → Option Text) → Text → Option Text
new_crypto decode [] = none
new_crypto decode (c ∷ s) = sized (decode (c ∷ s))

-- The limit of an app. A negative one, by which each upload is refused, is taken as 0, by which each
-- is refused too.
abbrev pub limit_of : ℤ → ℕ
limit_of (pos n) = n
limit_of (negsuc n) = 0

-- The settings and the cipher as the handlers see them.
abbrev pub new_app : Settings → Option Gcm → Site
new_app cfg cipher = record {
  app = record {
    max_paste_size = limit_of cfg.max_paste_size;
    max_ttl = cfg.max_ttl;
    default_burn = cfg.default_burn;
    protected_enabled = cfg.protected_paste_enabled;
    encryption_enabled = cfg.server_side_encryption_enabled;
    cipher = cipher;
    base_url = cfg.base_url;
  };
  path_prefix = cfg.path_prefix;
  origin = cfg.origin;
  default_ttl = cfg.default_ttl;
  expiry_options = expiry_times cfg.expiry_times;
  trusted_proxy = cfg.trusted_proxy;
}

-- `make(chan struct{}, n)`; `none` is the panic.
abbrev pub slots_of : ℤ → Option ℕ
slots_of (pos n) = some n
slots_of (negsuc n) = none

module _ (o : Outside) where
  abbrev pub keyed : Option Text → Option (Option Gcm)
  keyed none = none
  keyed (some key) = some (some (o.gcm_of key))

  -- The cipher of the app, nil if encryption is off; `none` outside is an error.
  unfoldable pub cipher_of : Settings → Option (Option Gcm)
  unfolding new_crypto
  cipher_of cfg =
      if cfg.server_side_encryption_enabled
      then keyed (new_crypto o.decode cfg.server_side_encryption_key)
      else some none

  -- A backend that is tried if its address is set and none was opened before.
  abbrev pub tried : (Text → Option o.Storage) → Text → Option o.Storage → Option o.Storage
  tried opens url (some s) = some s
  tried opens url none = if is_set url then opens url else none

  abbrev pub or_sqlite : Text → Option o.Storage → Option o.Storage
  or_sqlite path (some s) = some s
  or_sqlite path none = o.open_sqlite path

  -- `newStorage`; `none` is `os.Exit(1)`.
  unfoldable pub new_storage : Settings → Option o.Storage
  new_storage cfg =
      or_sqlite cfg.sqlite_path
        (tried o.open_postgres cfg.postgres_url (tried o.open_redis cfg.redis_url none))

  pub record Server : Type 0 where
    pub site : Site
    pub store : o.Storage
    pub slots : ℕ
    pub address : Text
    pub tls : Bool

  abbrev pub ready : (Text → Text) → Settings → Option Gcm → o.Storage → ℕ → Server
  ready env cfg cipher store slots = record {
    site = new_app cfg cipher;
    store = store;
    slots = slots;
    address = listen_address env;
    tls = is_set (env (codes "PASTEBIN_TLS_KEY")) && is_set (env (codes "PASTEBIN_TLS_CERT"));
  }

  -- The server behind the template and the embedded files.
  abbrev pub assembled :
      (Text → Text) → Settings → Option Gcm → o.Storage → Option ℕ → Option Server
  assembled env cfg cipher store none = none
  assembled env cfg cipher store (some slots) =
      if o.template_parses && o.files_open then some (ready env cfg cipher store slots) else none

  unfoldable pub run_with : (Text → Text) → Settings → Option Server
  unfolding cipher_of new_storage listen_address
  run_with env cfg = do
    cipher ← cipher_of cfg
    store ← new_storage cfg
    assembled env cfg cipher store (slots_of cfg.max_parallel_uploads)

  abbrev pub settings : (Text → Text) → Settings
  settings env = load_settings o.parsers env

  -- `run`, up to the server that listens.
  abbrev pub run : (Text → Text) → Option Server
  run env = run_with env (settings env)
