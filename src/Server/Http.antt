-- ===== src/Server/Http.antt =====
-- How a request reaches its handler: the middlewares of internal/middleware.go, `router` and
-- `baseData` of internal/routes.go, `newPrefixHandler` and `buildFinalHandler` of main.go.
--
-- A handler takes the headers that are set so far and the state, and returns the response and the
-- state. The matching of paths is the library chi's, Http.Mux. What the file server and the API
-- templates answer is named, not modelled, and so are the duration and the size in the access log.
-- A HEAD request and the like count as `other`.
pub mod Mux
pub mod Serve
pub mod Ways
pub mod Headers
pub mod Caching
pub mod Sandbox
pub mod Links
pub mod Sharing
pub mod Forging
pub mod Toy
mod Tests
use own_pastebin.Prelude.{
  ℕ, suc, ◌/◌, ◌-◌, Bool, true, false, Option, none, some, List, [], ◌∷◌, ◌++◌, ◌==◌, if◌then◌else◌,
  leb, Text, codes, text_eq,
}
use own_pastebin.Page.{decimal}
use own_pastebin.Server.Ttl.{ℤ, pos, negsuc, nanoseconds}
use own_pastebin.Server.Config.{ExpiryOption}
use own_pastebin.Server.Config.Page.{seconds_of, default_expiry}
use own_pastebin.Server.Assets.{Imports, page_imports}
use own_pastebin.Server.Log.{Level, debug, info, warn, Value, string, Attr, Record}
use own_pastebin.Server.Limiter.{Sender, real_ip}
use own_pastebin.Server.Store.{Table}
use own_pastebin.Server.Routes.{
  App, Upload, Answers, Reply, refused, created, content, page, not_found, deleted, Created,
}

-- `http.Header` with its `Set`.
abbrev pub Headers : Type 0
Headers = Text → Option Text

unfoldable pub set : Text → Text → Headers → Headers
set name v h k = if text_eq k name then some v else h k

pub data Method : Type 0 where
  get post delete : Method
  other : Text → Method

pub record Request : Type 0 where
  pub method : Method
  pub path : Text
  pub raw_path : Text  -- as it was escaped, empty where the path alone tells it (`URL.RawPath`)
  pub raw_query : Text
  pub upload : Upload  -- with the values of the query parameters
  pub answers : Answers
  pub sender : Sender

-- The settings, and those that `App` does not have.
pub record Site : Type 0 where
  pub app : App
  pub path_prefix : Text
  pub origin : Text
  pub default_ttl : ℤ
  pub expiry_options : List ExpiryOption
  pub trusted_proxy : Option (Text → Bool)

-- The data of the page with the form (`baseData`).
pub record FormData : Type 0 where
  pub uri_prefix : Text
  pub imports : Imports
  pub expiry_options : List ExpiryOption
  pub default_expiry : Text
  pub default_burn : Bool
  pub protected_paste_enabled : Bool
  pub level : Text
  pub msg : Text
  pub glyph : Text
  pub flash_url : Text

-- The answer of /config.
pub record ConfigData : Type 0 where
  pub max_ttl : ℤ
  pub default_ttl : ℤ
  pub max_paste_size : ℕ
  pub server_side_encryption : Bool
  pub protected_paste_enabled : Bool

pub data Answer : Type 0 where
  replied : Reply → Answer
  form : FormData → Answer
  settings : ConfigData → Answer
  api_spec api_page : Answer
  static_file : Text → Answer
  unrouted : ℕ → Answer
  too_many outside : Answer

pub record Response : Type 0 where
  pub answer : Answer
  pub headers : Headers

unfoldable pub form_data : Site → (Text → Text) → FormData
form_data site query = record {
  uri_prefix = site.path_prefix;
  imports = page_imports site.path_prefix [];
  expiry_options = site.expiry_options;
  default_expiry = default_expiry site.default_ttl;
  default_burn = site.app.default_burn;
  protected_paste_enabled = site.app.protected_enabled;
  level = query (codes "level");
  msg = query (codes "msg");
  glyph = query (codes "glyph");
  flash_url = query (codes "url");
}

-- `a.cfg.MaxTTL > 0`
abbrev pub positive_seconds : ℤ → ℤ
positive_seconds (pos n) = seconds_of (pos n)
positive_seconds (negsuc n) = pos 0

unfoldable pub config_data : Site → ConfigData
config_data site = record {
  max_ttl = positive_seconds site.app.max_ttl;
  default_ttl = seconds_of site.default_ttl;
  max_paste_size = site.app.max_paste_size;
  server_side_encryption = site.app.encryption_enabled;
  protected_paste_enabled = site.app.protected_enabled;
}

-- The middlewares that set headers.
abbrev pub security_headers : Headers → Headers
security_headers h = set (codes "X-Robots-Tag") (codes "none") (
    set (codes "Referrer-Policy") (codes "no-referrer") (
      set (codes "X-Frame-Options") (codes "SAMEORIGIN")
        (set (codes "X-Content-Type-Options") (codes "nosniff") h)))

abbrev pub with_origin : Text → Headers → Headers
with_origin [] h = h
with_origin (c ∷ s) h = set (codes "Access-Control-Allow-Origin") (c ∷ s) h

abbrev pub no_store : Text
no_store = codes "no-store, no-cache, must-revalidate"

abbrev pub public_cache : Text
public_cache = codes "public, max-age=15552000, immutable"

abbrev pub no_cache : Text → Headers → Headers
no_cache origin h = with_origin origin (set (codes "Cache-Control") no_store h)

abbrev pub long_cache : Text → Headers → Headers
long_cache origin h = with_origin origin (set (codes "Cache-Control") public_cache h)

abbrev pub raw_content : Text → Headers → Headers
raw_content origin h = with_origin origin (
    set (codes "Content-Security-Policy") (codes "sandbox")
      (set (codes "Cache-Control") no_store h))

-- The headers that the handlers set for what they reply; `http.Error` sets two.
abbrev pub content_type : Text → Headers → Headers
content_type = set (codes "Content-Type")

abbrev pub plain : Text
plain = codes "text/plain; charset=utf-8"

abbrev pub binary : Text
binary = codes "application/octet-stream"

abbrev pub error_headers : Headers → Headers
error_headers h = set (codes "X-Content-Type-Options") (codes "nosniff") (content_type plain h)

abbrev pub attachment : Text → Headers → Headers
attachment id h =
    set (codes "Content-Disposition") (codes "attachment; filename=" ++ id) (content_type binary h)

-- `handleRaw`, `handleDownload`, `handleView`, `handleCreatePaste` and `handleDelete`.
abbrev pub raw_headers : (Text → Bool) → Text → Reply → Headers → Headers
raw_headers valid id (content s) h = if valid s then content_type plain h else attachment id h
raw_headers valid id r h = error_headers h

abbrev pub download_headers : Text → Reply → Headers → Headers
download_headers id (content s) h = attachment id h
download_headers id r h = error_headers h

abbrev pub html : Headers → Headers
html = content_type (codes "text/html; charset=utf-8")

abbrev pub json : Headers → Headers
json = content_type (codes "application/json")

abbrev pub view_headers : Reply → Headers → Headers
view_headers (refused status) h = error_headers h
view_headers r h = html h

abbrev pub create_headers : Reply → Headers → Headers
create_headers (created c) h = json (set (codes "Location") c.url h)
create_headers r h = error_headers h

abbrev pub delete_headers : Reply → Headers → Headers
delete_headers deleted h = json h
delete_headers r h = error_headers h

abbrev pub status_of_reply : Reply → ℕ
status_of_reply (refused status) = status
status_of_reply (created c) = 201
status_of_reply (content s) = 200
status_of_reply (page d) = 200
status_of_reply not_found = 404
status_of_reply deleted = 200

abbrev pub status_of : Answer → ℕ
status_of (replied r) = status_of_reply r
status_of (form d) = 200
status_of (settings d) = 200
status_of api_spec = 200
status_of api_page = 200
status_of (static_file rest) = 200
status_of (unrouted status) = status
status_of too_many = 429
status_of outside = 404

-- What `accessLogMiddleware` logs, but for the duration and the size.
pub record Access : Type 0 where
  pub level : Level
  pub method : Text
  pub path : Text
  pub status : ℕ
  pub ip : Text

abbrev pub method_name : Method → Text
method_name get = codes "GET"
method_name post = codes "POST"
method_name delete = codes "DELETE"
method_name (other name) = name

abbrev pub full_path : Text → Text → Text
full_path path [] = path
full_path path (c ∷ query) = path ++ b'?' ∷ c ∷ query

abbrev pub level_of : ℕ → Level
level_of status = if status == 404 then debug else if leb 500 status then warn else info

unfoldable pub access : Option (Text → Bool) → Request → Answer → Access
unfolding real_ip
access trusted req a = record {
  level = level_of (status_of a);
  method = method_name req.method;
  path = full_path req.path req.raw_query;
  status = status_of a;
  ip = real_ip trusted req.sender;
}

-- The record that is logged; the time, the duration and the size are arguments.
abbrev pub text_attr : Text → Text → Attr
text_attr key s = record { key = key; value = string s }

abbrev pub number_attr : Text → Text → Attr
number_attr key s = record { key = key; value = Value.other s }

unfoldable pub access_record : Text → Text → Text → Access → Record
access_record time duration bytes a = record {
  time = time;
  level = a.level;
  message = codes "access";
  attrs =
      text_attr (codes "method") a.method
      ∷ text_attr (codes "path") a.path
      ∷ number_attr (codes "status") (decimal a.status)
      ∷ text_attr (codes "duration") duration
      ∷ number_attr (codes "bytes") bytes
      ∷ text_attr (codes "ip") a.ip
      ∷ [];
}
