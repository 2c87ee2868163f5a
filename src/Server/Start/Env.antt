-- ===== src/Server/Start/Env.antt =====
-- What the environment decides.
use own_pastebin.Prelude.{
  ℕ, Bool, false, true, ◌≡◌, ◌⊎◌, inl, inr, Bool-cases, some, ◌∷◌, Text, codes,
}
use own_pastebin.Server.Ttl.{pos}
use own_pastebin.Server.Config.{get_env, get_env_bool, get_env_int}
use own_pastebin.Server.Config.Load.{load_settings}
use own_pastebin.Server.Store.{Table}
use own_pastebin.Server.Routes.{Upload}
use own_pastebin.Server.Start.{Outside, Server, settings, run}
use own_pastebin.Server.Start.Laws.{
  IsKeyOf, IsFrom, SavesSealed, run_with-SavesSealed, SavesPlain, run_with-SavesPlain,
  run_with-some,
}

abbrev pub encryption_flag : (Text → Text) → Bool
encryption_flag env = get_env_bool (env (codes "PASTEBIN_SERVER_SIDE_ENCRYPTION_ENABLED")) false

module _ (o : Outside) (env : Text → Text) where
  -- The variable PASTEBIN_SERVER_SIDE_ENCRYPTION_ENABLED decides. If it is read as true, a server that
  -- comes up has a key of 32 bytes, which base64 decodes from the settings, and each upload is refused
  -- or saves one paste that is marked as encrypted and holds a nonce with the sealed bytes of the body:
  -- no bad key lets the server store plain text. Else each upload is refused or saves one paste that
  -- holds the body as it was sent and is not marked. The body is cut at the limit.
  pub flag_decides :
      (s : Server o) (rows : Table) (now : ℕ) (u : Upload)
      → run o env ≡ some s
      → ((encryption_flag env ≡ true) × SavesSealed o (settings o env) s.site rows now u)
        ⊎ ((encryption_flag env ≡ false) × SavesPlain o s.site rows now u)
  unfolding load_settings
  flag_decides s rows now u e = elim (Bool-cases (encryption_flag env)) [
    | inl on ↦ inl (on, run_with-SavesSealed o env (settings o env) s rows now u on e)
    | inr off ↦ inr (off, run_with-SavesPlain o env (settings o env) s rows now u off e)
  ]

  -- If base64 decodes the key to 32 bytes, the number of parallel uploads is not negative and the
  -- template and the files can be read, the server comes up wherever SQLite opens, whether or not Redis
  -- and Postgres do; it has that number of slots, and its storage is one that Redis or Postgres opened
  -- from the settings, or that of SQLite.
  pub starts_on_any :
      (c n : ℕ) (t key : Text) (local : o.Storage)
      → env (codes "PASTEBIN_SERVER_SIDE_ENCRYPTION_KEY") ≡ c ∷ t
      → IsKeyOf o.decode (c ∷ t) key
      → get_env_int (env (codes "PASTEBIN_MAX_PARALLEL_UPLOADS")) (pos 20) ≡ pos n
      → o.template_parses ≡ true
      → o.files_open ≡ true
      → o.open_sqlite (get_env (env (codes "PASTEBIN_SQLITE_PATH")) (codes "/app/data/pastes.db"))
        ≡ some local
      → (s : Server o) × (run o env ≡ some s)
        × (s.slots ≡ n)
        × IsFrom o (settings o env) local s.store
  unfolding load_settings
  starts_on_any c n t key local e k slots parses opens h =
      run_with-some o env (settings o env) c n t key local e k slots parses opens h
