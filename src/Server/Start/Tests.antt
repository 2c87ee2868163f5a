-- ===== src/Server/Start/Tests.antt =====
-- A start with a key, without Redis, and one without any settings.
use own_pastebin.Prelude.{
  ◌≡◌, ◌⊎◌, true, false, Option, none, some, [], if◌then◌else◌, refl, Text, codes, text_eq,
}
use own_pastebin.Server.Ttl.{parse_int}
use own_pastebin.Server.Config.{get_env, get_env_int, get_env_bool}
use own_pastebin.Server.Config.Load.{load_settings}
use own_pastebin.Server.Routes.Toy.{gcm, upload}
use own_pastebin.Server.Start.{
  Outside, Server, ready, settings, new_crypto, listen_address, run_with, run,
}
use own_pastebin.Server.Start.Laws.{IsFrom, SavesSealed, SavesPlain}
use own_pastebin.Server.Start.Env.{encryption_flag, flag_decides, starts_on_any}

abbrev key : Text
key = codes "0123456789abcdef0123456789abcdef"

abbrev setting : Text
setting = codes "MDEyMzQ1Njc4OWFiY2RlZjAxMjM0NTY3ODlhYmNkZWY="

abbrev decode : Text → Option Text
decode s =
    if text_eq s setting
    then some key
    else if text_eq s (codes "c2hvcnQ=")
    then some (codes "short")
    else none

abbrev outside : Outside
outside = record {
  decode = decode;
  gcm_of = λ k. gcm;
  Storage = Text;
  open_redis = λ url. none;
  open_postgres = λ url. some url;
  open_sqlite = λ path. some path;
  parsers = record {
    parse_ip = λ s. none;
    parse_net = λ s. some (λ peer. true);
    parse_url = λ url. some (codes "http", codes "localhost:8080");
  };
  template_parses = true;
  files_open = true;
}

abbrev env : Text → Text
env name =
    if text_eq name (codes "PASTEBIN_SERVER_SIDE_ENCRYPTION_ENABLED")
    then codes "Yes"
    else if text_eq name (codes "PASTEBIN_SERVER_SIDE_ENCRYPTION_KEY")
    then setting
    else if text_eq name (codes "PASTEBIN_REDIS_URL")
    then codes "redis://db"
    else if text_eq name (codes "PASTEBIN_PORT")
    then codes "80"
    else []

abbrev server : Server outside
server = ready outside env (settings outside env) (some gcm) (codes "/app/data/pastes.db") 20

started : run outside env ≡ some server
unfolding run_with load_settings get_env get_env_bool get_env_int parse_int
started = refl

too_short : new_crypto decode (codes "c2hvcnQ=") ≡ none
unfolding new_crypto
too_short = refl

default_host : listen_address env ≡ codes "0.0.0.0:80"
unfolding listen_address get_env
default_host = refl

flag_decides_example :
    ((encryption_flag env ≡ true)
      × SavesSealed outside (settings outside env) server.site [] 5 (upload (codes "hi")))
    ⊎ ((encryption_flag env ≡ false) × SavesPlain outside server.site [] 5 (upload (codes "hi")))
flag_decides_example = flag_decides outside env server [] 5 (upload (codes "hi")) started

starts_on_any_example :
    (s : Server outside) × (run outside env ≡ some s)
    × (s.slots ≡ 20)
    × IsFrom outside (settings outside env) (codes "/app/data/pastes.db") s.store
unfolding get_env get_env_int parse_int
starts_on_any_example =
    starts_on_any outside env b'M' 20 (codes "DEyMzQ1Njc4OWFiY2RlZjAxMjM0NTY3ODlhYmNkZWY=") key
      (codes "/app/data/pastes.db") refl (refl, refl) refl refl refl refl
