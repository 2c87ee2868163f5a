-- ===== src/Server/Contract.antt =====
-- The interface `Storage` of internal/storage.go, what each backend promises, and `fetchPaste` of
-- internal/routes.go on any backend that answers.
--
-- The promise is told on a view: the paste that a reader would find under an id at a time. `IsValid`
-- is the backend's invariant.
pub mod Fetch
pub mod Sqlite
mod Tests
use own_pastebin.Prelude.{ℕ, ◌≤◌, Bool, Option, none, some, ◌≡◌, if◌then◌else◌, Text, text_eq}
use own_pastebin.Server.Store.{Paste, without_content}
use own_pastebin.Server.Store.View.{visible}

pub record Backend (S : Type 0) : Type 0 where
  pub get : ℕ → Text → S → Option Paste × S
  pub peek_meta : ℕ → Text → S → Option Paste × S
  pub get_and_delete : ℕ → Text → S → Option Paste × S
  pub delete : Text → S → S
  pub save : Text → Paste → S → Option S  -- none is ErrSlugConflict
  pub cleanup : ℕ → S → S

-- A call returns what the view holds, and leaves behind what it says for each later time.
pub record IsStorage {S : Type 0} (b : Backend S) (IsValid : S → Type 0)
    (view : ℕ → Text → S → Option Paste) : Type 0 where
  pub get_read : (now : ℕ) (key : Text) (s : S) → IsValid s → (b.get now key s).0 ≡ view now key s
  pub get_kept :
      (now later : ℕ) (key k : Text) (s : S)
      → IsValid s
      → now ≤ later
      → view later k (b.get now key s).1 ≡ view later k s
  pub get_valid : (now : ℕ) (key : Text) (s : S) → IsValid s → IsValid (b.get now key s).1
  pub peek_read :
      (now : ℕ) (key : Text) (s : S)
      → IsValid s
      → (b.peek_meta now key s).0 ≡ without_content (view now key s)
  pub peek_kept :
      (now later : ℕ) (key k : Text) (s : S)
      → IsValid s
      → now ≤ later
      → view later k (b.peek_meta now key s).1 ≡ view later k s
  pub peek_valid : (now : ℕ) (key : Text) (s : S) → IsValid s → IsValid (b.peek_meta now key s).1
  pub take_read :
      (now : ℕ) (key : Text) (s : S) → IsValid s → (b.get_and_delete now key s).0 ≡ view now key s
  pub take_gone :
      (now later : ℕ) (key k : Text) (s : S)
      → IsValid s
      → now ≤ later
      → view later k (b.get_and_delete now key s).1
        ≡ (if text_eq key k then none else view later k s)
  pub take_valid :
      (now : ℕ) (key : Text) (s : S) → IsValid s → IsValid (b.get_and_delete now key s).1
  pub delete_gone :
      (now : ℕ) (key k : Text) (s : S)
      → IsValid s
      → view now k (b.delete key s) ≡ (if text_eq key k then none else view now k s)
  pub delete_valid : (key : Text) (s : S) → IsValid s → IsValid (b.delete key s)
  pub cleanup_kept :
      (now later : ℕ) (k : Text) (s : S)
      → IsValid s
      → now ≤ later
      → view later k (b.cleanup now s) ≡ view later k s
  pub cleanup_valid : (now : ℕ) (s : S) → IsValid s → IsValid (b.cleanup now s)
  pub save_added :
      (now : ℕ) (key k : Text) (p : Paste) (s s' : S)
      → IsValid s
      → b.save key p s ≡ some s'
      → (view now key s ≡ none)
        × (view now k s' ≡ (if text_eq key k then visible now (some p) else view now k s))
        × IsValid s'

module _ {S : Type 0} (b : Backend S) (now : ℕ) (key : Text) where
  abbrev pub take_if_burns : Option Paste × S → Option Paste × S
  take_if_burns (none, s) = (none, s)
  take_if_burns (some p, s) = if p.burn then b.get_and_delete now key s else (some p, s)

  abbrev pub after_peek : Option Paste × S → Option Paste × S
  after_peek (none, s) = take_if_burns (b.get now key s)
  after_peek (some meta, s) = if meta.burn then b.get_and_delete now key s else b.get now key s

  -- `fetchPaste`
  unfoldable pub fetch : S → Option Paste × S
  fetch s = after_peek (b.peek_meta now key s)
