-- ===== src/Server/Start/Laws.antt =====
-- What a server that came up does with uploads, and which settings let it come up.
use own_pastebin.Prelude.{
  subst, ◌⊎◌, ℕ, true, false, ◌&&◌, ◌==◌, ◌≡◌, ◌∙◌, Bool-cases, Option-cases, inl, inr, Option,
  none, some, [], ◌∷◌, refl, sym, ap, arith, length, Text,
}
use own_pastebin.Server.Ttl.{pos}
use own_pastebin.Server.Cipher.{Gcm}
use own_pastebin.Server.Store.{Table}
use own_pastebin.Server.Routes.{App, Upload, handle_create}
use own_pastebin.Server.Routes.Create.{IsSavedWith}
use own_pastebin.Server.Config.Load.{Settings}
use own_pastebin.Server.Http.{Site}
use own_pastebin.Server.Start.Sealing.{
  IsSealed, handle_create-IsSealed, IsPlain, handle_create-IsPlain,
}
use own_pastebin.Server.Start.{
  Outside, Server, sized, new_crypto, new_storage, cipher_of, new_app, slots_of, ready, tried,
  assembled, run_with,
}

-- The key that `newCrypto` takes.
abbrev pub IsKeyOf : (Text → Option Text) → Text → Text → Type 0
IsKeyOf decode setting key = (decode setting ≡ some key) × (length key ≡ 32)

sized_long :
    (o : Option Text) (key : Text) → sized o ≡ some key → (o ≡ some key) × (length key ≡ 32)
sized_long none key e = absurd (cc e)
sized_long (some k) key e = elim (Bool-cases (length k == 32)) [
  | inl long ↦
      let same : k ≡ key = cc (rw long at e) in
      (ap some same, ap length (sym same) ∙ ground (arith, long))
  | inr short ↦ absurd (cc (rw short at e))
]

new_crypto-IsKeyOf :
    (decode : Text → Option Text) (setting key : Text)
    → new_crypto decode setting ≡ some key
    → IsKeyOf decode setting key
unfolding new_crypto
new_crypto-IsKeyOf decode [] key e = absurd (cc e)
new_crypto-IsKeyOf decode (c ∷ s) key e = sized_long (decode (c ∷ s)) key e

new_crypto-key :
    (decode : Text → Option Text) (c : ℕ) (t key : Text)
    → IsKeyOf decode (c ∷ t) key
    → new_crypto decode (c ∷ t) ≡ some key
unfolding new_crypto
new_crypto-key decode c t key (e, long) = rw (e, long) refl

module _ (o : Outside) where
  -- The app has a cipher with a key of the settings.
  abbrev HasCipher : Settings → App → Type 0
  HasCipher cfg app =
      (key : Text) × (IsKeyOf o.decode cfg.server_side_encryption_key key)
      × (app.cipher ≡ some (o.gcm_of key))

  cipher_of-IsKeyOf :
      (cfg : Settings) (cipher : Option Gcm)
      → cfg.server_side_encryption_enabled ≡ true
      → cipher_of o cfg ≡ some cipher
      → (key : Text) × (IsKeyOf o.decode cfg.server_side_encryption_key key)
        × (cipher ≡ some (o.gcm_of key))
  unfolding cipher_of
  cipher_of-IsKeyOf cfg cipher on e =
      elim (Option-cases (new_crypto o.decode cfg.server_side_encryption_key)) [
        | inl bad ↦ absurd (cc (rw (on, bad) at e))
        | inr (key, q) ↦ (
          key,
          new_crypto-IsKeyOf o.decode cfg.server_side_encryption_key key q,
          cc (rw (on, q) at e),
        )
      ]

  cipher_of-some :
      (cfg : Settings) (c : ℕ) (t key : Text)
      → cfg.server_side_encryption_key ≡ c ∷ t
      → IsKeyOf o.decode (c ∷ t) key
      → (cipher : Option Gcm) × (cipher_of o cfg ≡ some cipher)
  unfolding cipher_of
  cipher_of-some cfg c t key e k = elim (Bool-cases cfg.server_side_encryption_enabled) [
    | inl on ↦ (some (o.gcm_of key), rw (on, e, new_crypto-key o.decode c t key k) refl)
    | inr off ↦ (none, rw off refl)
  ]

  -- Which backend a storage is from.
  abbrev pub IsFrom : Settings → o.Storage → o.Storage → Type 0
  IsFrom cfg local s =
      (o.open_redis cfg.redis_url ≡ some s)
      ⊎ ((o.open_postgres cfg.postgres_url ≡ some s) ⊎ (s ≡ local))

  tried_from :
      (opens : Text → Option o.Storage) (url : Text) (s : o.Storage)
      → tried o opens url none ≡ some s
      → opens url ≡ some s
  tried_from opens [] s e = absurd (cc e)
  tried_from opens (c ∷ url) s e = e

  pub new_storage-IsFrom :
      (cfg : Settings) (local : o.Storage)
      → o.open_sqlite cfg.sqlite_path ≡ some local
      → (s : o.Storage) × (new_storage o cfg ≡ some s) × IsFrom cfg local s
  unfolding new_storage
  new_storage-IsFrom cfg local h = elim (Option-cases (tried o o.open_redis cfg.redis_url none)) [
    | inr (s, e) ↦ (s, rw e refl, inl (tried_from o.open_redis cfg.redis_url s e))
    | inl down ↦ elim (Option-cases (tried o o.open_postgres cfg.postgres_url none)) [
      | inr (s, e) ↦
          (s, rw (down, e) refl, inr (inl (tried_from o.open_postgres cfg.postgres_url s e)))
      | inl off ↦ (local, rw (down, off) h, inr (inr refl))
    ]
  ]

  abbrev site_in : Site → Option (Server o) → Site
  site_in site none = site
  site_in site (some s) = s.site

  assembled-site :
      (env : Text → Text) (cfg : Settings) (cipher : Option Gcm) (store : o.Storage)
      (slots : Option ℕ) (s : Server o)
      → assembled o env cfg cipher store slots ≡ some s
      → new_app cfg cipher ≡ s.site
  assembled-site env cfg cipher store none s e = absurd (cc e)
  assembled-site env cfg cipher store (some n) s e =
      elim (Bool-cases (o.template_parses && o.files_open)) [
        | inl are_read ↦ ap (site_in (new_app cfg cipher)) (rw are_read at e)
        | inr failed ↦ absurd (cc (rw failed at e))
      ]

  -- A server that came up has the app of a cipher that could be made.
  pub run_with-site :
      (env : Text → Text) (cfg : Settings) (s : Server o)
      → run_with o env cfg ≡ some s
      → (cipher : Option Gcm) × (cipher_of o cfg ≡ some cipher) × (new_app cfg cipher ≡ s.site)
  unfolding run_with
  run_with-site env cfg s e = elim (Option-cases (cipher_of o cfg)) [
    | inl bad ↦ absurd (cc (rw bad at e))
    | inr (cipher, q) ↦ elim (Option-cases (new_storage o cfg)) [
      | inl bad ↦ absurd (cc (rw (q, bad) at e))
      | inr (store, opened) ↦ (
        cipher,
        q,
        assembled-site env cfg cipher store (slots_of cfg.max_parallel_uploads) s
            (rw (q, opened) at e),
      )
    ]
  ]

  abbrev pub SavesSealed : Settings → Site → Table → ℕ → Upload → Type 0
  SavesSealed cfg site rows now u =
      (key : Text) × (IsKeyOf o.decode cfg.server_side_encryption_key key)
      × IsSavedWith (IsSealed (o.gcm_of key) site.app.max_paste_size u) site.app rows
          (handle_create site.app now u rows)

  pub run_with-SavesSealed :
      (env : Text → Text) (cfg : Settings) (s : Server o) (rows : Table) (now : ℕ) (u : Upload)
      → cfg.server_side_encryption_enabled ≡ true
      → run_with o env cfg ≡ some s
      → SavesSealed cfg s.site rows now u
  run_with-SavesSealed env cfg s rows now u on e =
      let (cipher, q, same) = run_with-site env cfg s e in
      let (key, k, has) = cipher_of-IsKeyOf cfg cipher on q in
      subst (λ site. SavesSealed cfg site rows now u) same
        (key, k, handle_create-IsSealed (new_app cfg cipher).app (o.gcm_of key) on has rows now u)

  abbrev pub SavesPlain : Site → Table → ℕ → Upload → Type 0
  SavesPlain site rows now u =
      IsSavedWith (IsPlain site.app.max_paste_size u) site.app rows
        (handle_create site.app now u rows)

  pub run_with-SavesPlain :
      (env : Text → Text) (cfg : Settings) (s : Server o) (rows : Table) (now : ℕ) (u : Upload)
      → cfg.server_side_encryption_enabled ≡ false
      → run_with o env cfg ≡ some s
      → SavesPlain s.site rows now u
  run_with-SavesPlain env cfg s rows now u off e =
      let (cipher, q, same) = run_with-site env cfg s e in
      subst (λ site. SavesPlain site rows now u) same
        (handle_create-IsPlain (new_app cfg cipher).app rows now u off)

  pub run_with-some :
      (env : Text → Text) (cfg : Settings) (c n : ℕ) (t key : Text) (local : o.Storage)
      → cfg.server_side_encryption_key ≡ c ∷ t
      → IsKeyOf o.decode (c ∷ t) key
      → cfg.max_parallel_uploads ≡ pos n
      → o.template_parses ≡ true
      → o.files_open ≡ true
      → o.open_sqlite cfg.sqlite_path ≡ some local
      → (s : Server o) × (run_with o env cfg ≡ some s) × (s.slots ≡ n) × IsFrom cfg local s.store
  unfolding run_with
  run_with-some env cfg c n t key local e k slots parses opens h =
      let (cipher, q) = cipher_of-some cfg c t key e k in
      let (store, opened, from) = new_storage-IsFrom cfg local h in
      (ready o env cfg cipher store n, rw (q, opened, slots, parses, opens) refl, refl, from)
