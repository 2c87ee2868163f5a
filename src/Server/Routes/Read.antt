-- ===== src/Server/Routes/Read.antt =====
-- What a reader gets of a paste that was uploaded, and what is there afterwards.
use own_pastebin.Prelude.{
  ℕ, ◌/◌, Bool, true, false, Option, none, some, [], ◌∷◌, ◌++◌, ◌≡◌, inl, inr, refl, ap, arith,
  Bool-cases, if◌then◌else◌, ◌≤◌, take_all, length, Text, codes, text_eq, text_eq_refl,
}
use own_pastebin.Server.Ttl.{ℤ, nanoseconds, requested_ttl, resolve_ttl, expire_at}
use own_pastebin.Server.Cipher.{Gcm, encrypt, nonce_size, decrypt-encrypt}
use own_pastebin.Server.Store.{
  Paste, Table, find, save, is_over, get, peek_meta, get_and_delete, delete,
}
use own_pastebin.Server.Store.View.{live, live-delete}
use own_pastebin.Server.Routes.{
  App, Upload, Answers, content, sealed_by, save_loop, reply_created, content_of, new_paste,
  is_above, handle_create, fetch_paste, decrypt_if_needed, handle_raw, handle_view, page_opened,
  burn_of, lang_of,
}

abbrev pub all_answered : Answers
all_answered = record { peek = true; first = true; second = true }

-- What is stored is what `decryptIfNeeded` opens again.
sealed_back :
    (app : App) (now : ℕ) (nonce raw : Text) (cipher : Option Gcm) (p : Paste)
    → length nonce ≡ nonce_size
    → app.cipher ≡ cipher
    → (bytes : Text) × (encrypted : Bool) × (sealed_by (some nonce) raw cipher
        ≡ some (bytes, encrypted))
      × (decrypt_if_needed app now (record p { content = bytes; encrypted = encrypted }) ≡ some raw)
unfolding encrypt decrypt_if_needed
sealed_back app now nonce raw none p h e = (raw, false, refl, refl)
sealed_back app now nonce raw (some g) p h e =
    (nonce ++ g.seal nonce raw, true, refl, rw e (decrypt-encrypt g nonce raw h))

module _ (app : App) (nonce raw : Text) (p : Paste) (h : length nonce ≡ nonce_size) where
  content_back :
      (now : ℕ)
      → (bytes : Text) × (encrypted : Bool) × (content_of app (some nonce) raw
          ≡ some (bytes, encrypted))
        × (decrypt_if_needed app now (record p { content = bytes; encrypted = encrypted })
            ≡ some raw)
  unfolding content_of decrypt_if_needed
  content_back now = elim (Bool-cases app.encryption_enabled) [
    | inl e ↦ rw e (sealed_back app now nonce raw app.cipher p h refl)
    | inr e ↦ rw e (raw, false, refl, refl)
  ]

-- A reader of a paste that is there, when all calls are answered.
module _ (app : App) (now : ℕ) (id : Text) (p : Paste) (rows : Table) (hf : find id rows ≡ some p)
    (h : is_over (now / nanoseconds) p.expire_at ≡ false) where
  get_found : get (now / nanoseconds) id rows ≡ (some p, rows)
  unfolding get
  get_found = rw (hf, h)

  peek_found : peek_meta (now / nanoseconds) id rows ≡ (some (record p { content = [] }), rows)
  unfolding peek_meta
  peek_found = rw get_found

  take_found : get_and_delete (now / nanoseconds) id rows ≡ (some p, delete id rows)
  unfolding get_and_delete
  take_found = rw (hf, h)

  pub fetch_found :
      fetch_paste app now all_answered id rows ≡ (some p, if p.burn then delete id rows else rows)
  unfolding fetch_paste
  fetch_found = rw peek_found (rw (get_found, take_found) (ground arith))

  raw_found :
      (raw : Text)
      → decrypt_if_needed app now p ≡ some raw
      → handle_raw app now all_answered id rows
        ≡ (content raw, if p.burn then delete id rows else rows)
  unfolding handle_raw
  raw_found raw e = rw fetch_found (rw e)

  view_found :
      (valid : Text → Bool) (raw : Text)
      → decrypt_if_needed app now p ≡ some raw
      → handle_view app now valid all_answered id rows
        ≡ (page_opened app now valid id p (some raw), if p.burn then delete id rows else rows)
  unfolding handle_view
  view_found valid raw e = rw fetch_found (rw e)

found_first : (id : Text) (p : Paste) (rows : Table) → find id ((id, p) ∷ rows) ≡ some p
unfolding find
found_first id p rows = rw (text_eq_refl id)

gone_if :
    (t : ℕ) (id : Text) (p : Paste) (rows : Table)
    → live t id (if p.burn then delete id rows else rows)
      ≡ (if p.burn then none else live t id rows)
gone_if t id p rows = elim (Bool-cases p.burn) [
  | inl e ↦ simp e (rw (live-delete t id id rows) (rw (text_eq_refl id)))
  | inr e ↦ simp e
]

-- An upload that nothing stands against.
pub record IsAccepted (app : App) (now : ℕ) (u : Upload) (raw nonce id : Text) (ttl : ℤ)
    (rows : Table) : Type 0 where
  pub not_above : is_above app now u.content_length ≡ false
  pub body_read : u.body ≡ some raw
  pub is_within : length raw ≤ app.max_paste_size
  pub has_slot : u.slot_free ≡ true
  pub has_nonce : u.nonce ≡ some nonce
  pub nonce_long : length nonce ≡ nonce_size
  pub ttl_read : requested_ttl (u.query (codes "ttl")) ≡ some ttl
  pub first_id : u.attempts 0 ≡ record { id = some id; answers = true }
  pub id_free : find id rows ≡ none

module _ (app : App) (now : ℕ) (u : Upload) (c : ℕ) (cs nonce id : Text) (ttl : ℤ) (rows : Table)
    (v : IsAccepted app now u (c ∷ cs) nonce id ttl rows) where
  save_first :
      (p : Paste) → save_loop app p u.attempts rows 2 0 ≡ (reply_created app id p, (id, p) ∷ rows)
  unfolding save_loop save
  save_first p = rw (v.first_id, v.id_free)

  create_accepted :
      (bytes : Text) (encrypted : Bool)
      → content_of app (some nonce) (c ∷ cs) ≡ some (bytes, encrypted)
      → handle_create app now u rows ≡ (
        reply_created app id (new_paste app now u.query bytes encrypted ttl),
        (id, new_paste app now u.query bytes encrypted ttl) ∷ rows,
      )
  unfolding handle_create
  create_accepted bytes encrypted e =
      let whole = take_all app.max_paste_size (c ∷ cs) v.is_within in
      rw (v.not_above, v.body_read)
        (rw whole (
          rw (v.has_slot, v.has_nonce, e, v.ttl_read)
            (save_first (new_paste app now u.query bytes encrypted ttl))))

  abbrev pub sent : Paste → Table
  sent p = (id, p) ∷ rows

  -- An upload that nothing stands against (its body is not longer than the limit and neither empty, a
  -- slot is free, the `ttl` is a number, the random source works and gives a free id, and the database
  -- answers) is answered with the id and saved. A reader before the expiry gets at /raw exactly
  -- the bytes of the body, with encryption on the server or without, and the page shows them if
  -- they are UTF-8; after that the paste is gone if it burns, and else as it was.
  pub upload_read :
      (later t : ℕ) (valid : Text → Bool)
      → is_over (later / nanoseconds) (expire_at now (resolve_ttl app.max_ttl ttl)) ≡ false
      → (p : Paste) × (handle_create app now u rows ≡ (reply_created app id p, sent p))
        × (p.burn ≡ burn_of app.default_burn (u.query (codes "burn")))
        × (p.lang ≡ lang_of (u.query (codes "lang")))
        × (p.e2e_encrypted ≡ text_eq (u.query (codes "encrypted")) (codes "true"))
        × ((handle_raw app later all_answered id (sent p)).0 ≡ content (c ∷ cs))
        × ((handle_view app later valid all_answered id (sent p)).0
            ≡ page_opened app later valid id p (some (c ∷ cs)))
        × (live t id (handle_raw app later all_answered id (sent p)).1
            ≡ (if p.burn then none else live t id (sent p)))
  upload_read later t valid h =
      let draft : Paste = new_paste app now u.query [] false ttl in
      let (bytes, encrypted, e, back) = content_back app nonce (c ∷ cs) draft v.nonce_long later in
      let p : Paste = new_paste app now u.query bytes encrypted ttl in
      let raw = raw_found app later id p (sent p) (found_first id p rows) h (c ∷ cs) back in
      (
        p,
        create_accepted bytes encrypted e,
        refl,
        refl,
        refl,
        ap (λ r. r.0) raw,
        ap (λ r. r.0)
            (view_found app later id p (sent p) (found_first id p rows) h valid (c ∷ cs) back),
        rw raw (gone_if t id p (sent p)),
      )
