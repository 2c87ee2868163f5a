-- ===== src/Server/Routes/Create.antt =====
-- What `handleCreatePaste` does to the table, on every branch.
use own_pastebin.Prelude.{
  ℕ, zero, suc, ◌+◌, Bool, Option, none, some, [], ◌∷◌, ◌≡◌, ◌⊎◌, inl, inr, refl, ap, Bool-cases,
  take, Text, codes,
}
use own_pastebin.Server.Ttl.{ℤ, requested_ttl}
use own_pastebin.Server.Store.{Paste, Table, find, save}
use own_pastebin.Server.Store.View.{save_done}
use own_pastebin.Server.Routes.{
  App, Attempt, Upload, Reply, refused, stored, attempt, save_loop, reply_created, internal_error,
  content_of, new_paste, store_content, accept_body, read_body, is_above, handle_create,
}

-- The upload is refused and the table is as before, or one paste was added under an id that was
-- free, and the reply names it.
abbrev pub IsSavedWith : (Paste → Type 0) → App → Table → Reply × Table → Type 0
IsSavedWith P app rows result =
    ((status : ℕ) × (result ≡ (refused status, rows)))
    ⊎ ((id : Text) × (p : Paste) × (P p)
        × (find id rows ≡ none)
        × (result ≡ (reply_created app id p, (id, p) ∷ rows)))

module _ (P : Paste → Type 0) (app : App) (rows : Table) where
  refused_with : (status : ℕ) → IsSavedWith P app rows (refused status, rows)
  refused_with status = inl (status, refl)

  stored_with :
      (id : Text) (p : Paste) (conflict : Reply × Table) (x : Option Table)
      → save id p rows ≡ x
      → P p
      → IsSavedWith P app rows conflict
      → IsSavedWith P app rows (stored app id p rows conflict x)
  stored_with id p conflict none e h v = v
  stored_with id p conflict (some rows') e h v =
      let (free, added) = save_done id p rows rows' e in
      inr (id, p, h, free, ap (λ t. (reply_created app id p, t)) added)

  attempt_with :
      (p : Paste) (conflict : Reply × Table) (a : Attempt) (id : Option Text)
      → P p
      → IsSavedWith P app rows conflict
      → IsSavedWith P app rows (attempt app p rows conflict a id)
  attempt_with p conflict a none h v = refused_with 500
  attempt_with p conflict a (some id) h v = elim (Bool-cases a.answers) [
    | inl e ↦ rw e (stored_with id p conflict (save id p rows) refl h v)
    | inr e ↦ rw e (refused_with 500)
  ]

  save_loop_with :
      (p : Paste) (attempts : ℕ → Attempt) (left i : ℕ)
      → P p
      → IsSavedWith P app rows (save_loop app p attempts rows left i)
  unfolding save_loop
  save_loop_with p attempts zero i h =
      attempt_with p (internal_error, rows) (attempts i) (attempts i).id h (refused_with 500)
  save_loop_with p attempts (suc left) i h =
      attempt_with p (save_loop app p attempts rows left (i + 1)) (attempts i) (attempts i).id h
        (save_loop_with p attempts left (i + 1) h)

  -- What holds of each paste that the handler can make of the body holds of the one that is saved.
  module _ (now : ℕ) (u : Upload)
      (h : (body bytes : Text) (encrypted : Bool) (ttl : ℤ)
        → u.body ≡ some body
        → content_of app u.nonce (take app.max_paste_size body) ≡ some (bytes, encrypted)
        → P (new_paste app now u.query bytes encrypted ttl)) where
    store_content_with :
        (body : Text) (x : Option (Text × Bool)) (ttl : Option ℤ)
        → u.body ≡ some body
        → content_of app u.nonce (take app.max_paste_size body) ≡ x
        → IsSavedWith P app rows (store_content app now u rows x ttl)
    store_content_with body none ttl b e = refused_with 500
    store_content_with body (some x) none b e = refused_with 400
    store_content_with body (some (bytes, encrypted)) (some ttl) b e =
        save_loop_with (new_paste app now u.query bytes encrypted ttl) u.attempts 2 0
          (h body bytes encrypted ttl b e)

    accept_body_with :
        (body raw : Text)
        → u.body ≡ some body
        → take app.max_paste_size body ≡ raw
        → IsSavedWith P app rows (accept_body app now u rows raw)
    accept_body_with body [] b e = refused_with 400
    accept_body_with body (c ∷ s) b e = elim (Bool-cases u.slot_free) [
      | inl free ↦ rw free (
          store_content_with body (content_of app u.nonce (c ∷ s))
            (requested_ttl (u.query (codes "ttl"))) b (ap (content_of app u.nonce) e))
      | inr busy ↦ rw busy (refused_with 503)
    ]

    read_body_with :
        (body : Option Text)
        → u.body ≡ body
        → IsSavedWith P app rows (read_body app now u rows body)
    read_body_with none b = refused_with 500
    read_body_with (some body) b = accept_body_with body (take app.max_paste_size body) b refl

    pub handle_create-IsSavedWith : IsSavedWith P app rows (handle_create app now u rows)
    unfolding handle_create
    handle_create-IsSavedWith = elim (Bool-cases (is_above app now u.content_length)) [
      | inl e ↦ rw e (refused_with 413)
      | inr e ↦ rw e (read_body_with u.body refl)
    ]

-- Nothing is asked of the paste.
abbrev pub IsSaved : App → Table → Reply × Table → Type 0
IsSaved app rows result =
    ((status : ℕ) × (result ≡ (refused status, rows)))
    ⊎ ((id : Text) × (p : Paste) × (find id rows ≡ none)
        × (result ≡ (reply_created app id p, (id, p) ∷ rows)))

-- Whatever is uploaded and whatever fails: a POST is refused with a status and leaves the table as it
-- was, or it adds one paste under an id that was not in the table, and answers with this id. So no
-- paste is lost or overwritten, and no answer names a paste that was not saved.
pub handle_create-IsSaved :
    (app : App) (rows : Table) (now : ℕ) (u : Upload)
    → IsSaved app rows (handle_create app now u rows)
handle_create-IsSaved app rows now u =
    elim (handle_create-IsSavedWith (λ p. Unit {0}) app rows now u
      (λ body bytes encrypted ttl b e. tt)) [
        | inl v ↦ inl v
        | inr (id, p, h, free, e) ↦ inr (id, p, free, e)
      ]
