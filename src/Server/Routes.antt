-- ===== src/Server/Routes.antt =====
-- The handlers of the server: internal/routes.go, on the SQLite storage.
--
-- A request's parts from outside are arguments: its length if the header gives it, its body unless
-- reading fails, the value of each query parameter (empty where it is missing), the random nonce,
-- the random ids, whether an upload slot is free, and whether the database answers a call.
-- `now` is the clock in nanoseconds. `text_of` says whether bytes are UTF-8 (`utf8.Valid`).
pub mod Create
pub mod Read
pub mod Remove
pub mod Fetch
pub mod Limit
pub mod Slots
pub mod Toy
mod Tests
use own_pastebin.Prelude.{
  ℕ, zero, suc, ◌+◌, ◌/◌, Bool, true, false, ◌&&◌, Option, none, some, [], ◌∷◌, ◌++◌, if◌then◌else◌,
  ltb, length, take, Text, codes, text_eq,
}
use own_pastebin.Server.Ttl.{ℤ, nanoseconds, requested_ttl, resolve_ttl, expire_at}
use own_pastebin.Server.Cipher.{Gcm, encrypt, decrypt}
use own_pastebin.Server.Store.{Paste, Table, save, get, peek_meta, get_and_delete, delete}

-- `Settings`, and the cipher of `App` (nil is `none`).
pub record App : Type 0 where
  pub max_paste_size : ℕ
  pub max_ttl : ℤ
  pub default_burn : Bool
  pub protected_enabled : Bool
  pub encryption_enabled : Bool
  pub cipher : Option Gcm
  pub base_url : Text

-- A new id, and whether the database answers when it is saved.
pub record Attempt : Type 0 where
  pub id : Option Text
  pub answers : Bool

pub record Upload : Type 0 where
  pub content_length : Option ℕ
  pub body : Option Text
  pub query : Text → Text
  pub slot_free : Bool
  pub nonce : Option Text
  pub attempts : ℕ → Attempt

-- Which calls of the database are answered: the peek, the reading, and a second reading.
pub record Answers : Type 0 where
  pub peek : Bool
  pub first : Bool
  pub second : Bool

pub record Created : Type 0 where
  pub url : Text
  pub id : Text
  pub lang : Text
  pub protected : Bool

-- The template's data of a paste's page.
pub record PageData : Type 0 where
  pub code : Text
  pub id : Text
  pub lang : Text
  pub is_burned : Bool
  pub is_encrypted : Bool
  pub is_protected : Bool
  pub expire_at : Option ℕ

pub data Reply : Type 0 where
  refused : ℕ → Reply
  created : Created → Reply
  content : Text → Reply
  page : PageData → Reply
  not_found deleted : Reply

abbrev pub bad_request : Reply
bad_request = refused 400

abbrev pub internal_error : Reply
internal_error = refused 500

abbrev pub reply_created : App → Text → Paste → Reply
reply_created app id p =
    created
      (record { url = app.base_url ++ b'/' ∷ id; id = id; lang = p.lang; protected = p.protected })

-- The loop over the ids, with the number of tries that are left after this one.
abbrev pub stored : App → Text → Paste → Table → Reply × Table → Option Table → Reply × Table
stored app id p rows conflict none = conflict
stored app id p rows conflict (some rows') = (reply_created app id p, rows')

abbrev pub attempt : App → Paste → Table → Reply × Table → Attempt → Option Text → Reply × Table
attempt app p rows conflict a none = (internal_error, rows)
attempt app p rows conflict a (some id) =
    if a.answers then stored app id p rows conflict (save id p rows) else (internal_error, rows)

unfoldable pub save_loop : App → Paste → (ℕ → Attempt) → Table → ℕ → ℕ → Reply × Table
save_loop app p attempts rows zero i =
    attempt app p rows (internal_error, rows) (attempts i) (attempts i).id
save_loop app p attempts rows (suc left) i =
    attempt app p rows (save_loop app p attempts rows left (i + 1)) (attempts i) (attempts i).id

-- The content that is stored for what was uploaded, with the flag `encrypted`.
abbrev pub sealed_by : Option Text → Text → Option Gcm → Option (Text × Bool)
sealed_by random raw none = some (raw, false)
sealed_by random raw (some g) = elim (encrypt g random raw) [
  | none ↦ none
  | some s ↦ some (s, true)
]

unfoldable pub content_of : App → Option Text → Text → Option (Text × Bool)
content_of app random raw =
    if app.encryption_enabled then sealed_by random raw app.cipher else some (raw, false)

abbrev pub lang_of : Text → Text
lang_of [] = codes "text"
lang_of (c ∷ s) = c ∷ s

abbrev pub burn_of : Bool → Text → Bool
burn_of default_burn [] = default_burn
burn_of default_burn (c ∷ s) = text_eq (c ∷ s) (codes "true")

module _ (app : App) (now : ℕ) where
  abbrev pub new_paste : (Text → Text) → Text → Bool → ℤ → Paste
  new_paste query bytes encrypted ttl = record {
    content = bytes;
    burn = burn_of app.default_burn (query (codes "burn"));
    encrypted = encrypted;
    e2e_encrypted = text_eq (query (codes "encrypted")) (codes "true");
    protected = app.protected_enabled && text_eq (query (codes "protected")) (codes "true");
    lang = lang_of (query (codes "lang"));
    expire_at = expire_at now (resolve_ttl app.max_ttl ttl);
  }

  -- The handler behind the check of the slot.
  abbrev pub store_content : Upload → Table → Option (Text × Bool) → Option ℤ → Reply × Table
  store_content u rows none ttl = (internal_error, rows)
  store_content u rows (some x) none = (bad_request, rows)
  store_content u rows (some (bytes, encrypted)) (some ttl) =
      save_loop app (new_paste u.query bytes encrypted ttl) u.attempts rows 2 0

  abbrev pub accept_body : Upload → Table → Text → Reply × Table
  accept_body u rows [] = (bad_request, rows)
  accept_body u rows (c ∷ s) =
      if u.slot_free
      then store_content u rows (content_of app u.nonce (c ∷ s))
          (requested_ttl (u.query (codes "ttl")))
      else (refused 503, rows)

  abbrev pub read_body : Upload → Table → Option Text → Reply × Table
  read_body u rows none = (internal_error, rows)
  read_body u rows (some body) = accept_body u rows (take app.max_paste_size body)

  abbrev pub is_above : Option ℕ → Bool
  is_above none = false
  is_above (some n) = ltb app.max_paste_size n

  -- `handleCreatePaste`
  unfoldable pub handle_create : Upload → Table → Reply × Table
  unfolding save_loop content_of
  handle_create u rows =
      if is_above u.content_length then (refused 413, rows) else read_body u rows u.body

  abbrev pub clock : ℕ
  clock = now / nanoseconds

  abbrev pub answered : Bool → Option Paste × Table → Table → Option Paste × Table
  answered ok result rows = if ok then result else (none, rows)

  abbrev pub fetch_again : Answers → Text → Option Paste × Table → Option Paste × Table
  fetch_again a id (none, rows) = (none, rows)
  fetch_again a id (some p, rows) =
      if p.burn then answered a.second (get_and_delete clock id rows) rows else (some p, rows)

  abbrev pub fetch_known : Answers → Text → Option Paste × Table → Option Paste × Table
  fetch_known a id (none, rows) = fetch_again a id (answered a.first (get clock id rows) rows)
  fetch_known a id (some meta, rows) =
      if meta.burn
      then answered a.first (get_and_delete clock id rows) rows
      else answered a.first (get clock id rows) rows

  -- `fetchPaste`: an error counts as no paste.
  unfoldable pub fetch_paste : Answers → Text → Table → Option Paste × Table
  fetch_paste a id rows = fetch_known a id (answered a.peek (peek_meta clock id rows) rows)

  -- `decryptIfNeeded`
  abbrev pub opened_by : Paste → Option Gcm → Option Text
  opened_by p none = some p.content
  opened_by p (some g) = decrypt g p.content

  unfoldable pub decrypt_if_needed : Paste → Option Text
  decrypt_if_needed p = if p.encrypted then opened_by p app.cipher else some p.content

  abbrev pub reply_opened : Option Text → Reply
  reply_opened none = internal_error
  reply_opened (some s) = content s

  abbrev pub reply_content : Option Paste → Reply
  reply_content none = not_found
  reply_content (some p) = reply_opened (decrypt_if_needed p)

  -- `handleRaw`, and `handleDownload`, which differs in the headers.
  unfoldable pub handle_raw : Answers → Text → Table → Reply × Table
  unfolding fetch_paste decrypt_if_needed
  handle_raw a id rows = let (found, rows') = fetch_paste a id rows in (reply_content found, rows')

  abbrev pub page_opened : (Text → Bool) → Text → Paste → Option Text → Reply
  page_opened valid id p none = internal_error
  page_opened valid id p (some s) = page (record {
    code = if valid s then s else codes "[binary data]";
    id = id;
    lang = p.lang;
    is_burned = p.burn;
    is_encrypted = p.e2e_encrypted;
    is_protected = p.protected;
    expire_at = p.expire_at;
  })

  abbrev pub page_of : (Text → Bool) → Text → Option Paste → Reply
  page_of valid id none = not_found
  page_of valid id (some p) = page_opened valid id p (decrypt_if_needed p)

  -- `handleView`
  unfoldable pub handle_view : (Text → Bool) → Answers → Text → Table → Reply × Table
  unfolding fetch_paste decrypt_if_needed
  handle_view valid a id rows =
      let (found, rows') = fetch_paste a id rows in (page_of valid id found, rows')

  abbrev pub remove : Bool → Text → Table → Reply × Table
  remove ok id rows = if ok then (deleted, delete id rows) else (internal_error, rows)

  abbrev pub remove_known : Bool → Text → Option Paste × Table → Reply × Table
  remove_known ok id (none, rows) = remove ok id rows
  remove_known ok id (some meta, rows) =
      if meta.protected then (refused 403, rows) else remove ok id rows

  -- `handleDelete`
  unfoldable pub handle_delete : Answers → Text → Table → Reply × Table
  handle_delete a id rows =
      if app.protected_enabled
      then (if a.peek
          then remove_known a.first id (peek_meta clock id rows)
          else (internal_error, rows))
      else remove a.first id rows
