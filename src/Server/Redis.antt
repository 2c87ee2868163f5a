-- ===== src/Server/Redis.antt =====
-- The Redis storage of internal/storage.go, at its single transactions: `Save` has two of them, one
-- that claims the id with the content and one that writes the flags.
--
-- The database maps a key to a hash; a hash without a field answers "nil" for it, which the program
-- reads as 0 or the empty text. Redis drops a key at its expiry time. `left` is what the call of
-- `TTL` makes of the expiry time.
pub mod Laws
mod Tests
use own_pastebin.Prelude.{
  ℕ, Bool, true, false, Option, none, some, List, [], ◌∷◌, if◌then◌else◌, Text, text_eq,
}
use own_pastebin.Server.Store.{Paste, is_over}

-- The fields that the second transaction writes.
pub record Fields : Type 0 where
  pub burn : Bool
  pub enc : Bool
  pub e2e : Bool
  pub prot : Bool
  pub lang : Text

pub record Hash : Type 0 where
  pub content : Option Text
  pub fields : Option Fields
  pub expire_at : Option ℕ

abbrev pub Db : Type 0
Db = List (Text × Hash)

unfoldable pub hash_of : ℕ → Text → Db → Option Hash
hash_of now key [] = none
hash_of now key ((k, h) ∷ db) =
    if text_eq k key then (if is_over now h.expire_at then none else some h) else hash_of now key db

-- `DEL`
unfoldable pub del : Text → Db → Db
del key [] = []
del key ((k, h) ∷ db) = let rest = del key db in if text_eq k key then rest else (k, h) ∷ rest

abbrev pub put : Text → Hash → Db → Db
put key h db = (key, h) ∷ del key db

abbrev pub claimed : Text → Text → Db → Option Hash → Option Db
claimed key content db none =
    some (put key (record { content = some content; fields = none; expire_at = none }) db)
claimed key content db (some h) = elim (h.content) [
  | none ↦ some (put key (record h { content = some content }) db)
  | some c ↦ none
]

-- The first transaction of `Save`, HSETNX; `none` is ErrSlugConflict.
unfoldable pub save_content : ℕ → Text → Paste → Db → Option Db
unfolding hash_of del
save_content now key p db = claimed key p.content db (hash_of now key db)

abbrev pub fields_of : Paste → Fields
fields_of p = record {
  burn = p.burn;
  enc = p.encrypted;
  e2e = p.e2e_encrypted;
  prot = p.protected;
  lang = p.lang;
}

-- Without a lifetime there is no EXPIRE, and a key keeps the one that it has.
abbrev pub expiry_of : Option ℕ → Option ℕ → Option ℕ
expiry_of none old = old
expiry_of (some at) old = some at

abbrev pub completed : Text → Paste → Db → Option Hash → Db
completed key p db none =
    put key (record { content = none; fields = some (fields_of p); expire_at = p.expire_at }) db
completed key p db (some h) =
    put key
      (record h { fields = some (fields_of p); expire_at = expiry_of p.expire_at h.expire_at }) db

-- The second one, HSET and EXPIRE.
unfoldable pub save_fields : ℕ → Text → Paste → Db → Db
unfolding hash_of del
save_fields now key p db = completed key p db (hash_of now key db)

-- A paste of a content and the fields that are there.
abbrev pub paste_of : Text → Option Fields → Option ℕ → Paste
paste_of content none left = record {
  content = content;
  burn = false;
  encrypted = false;
  e2e_encrypted = false;
  protected = false;
  lang = [];
  expire_at = left;
}
paste_of content (some f) left = record {
  content = content;
  burn = f.burn;
  encrypted = f.enc;
  e2e_encrypted = f.e2e;
  protected = f.prot;
  lang = f.lang;
  expire_at = left;
}

abbrev pub metadata : Option ℕ → Option Hash → Option Paste
metadata left none = none
metadata left (some h) = elim (h.fields) [ none ↦ none | some f ↦ some (paste_of [] (some f) left) ]

-- `PeekMeta`: without the field "burn" there is no paste.
unfoldable pub peek_meta : Option ℕ → ℕ → Text → Db → Option Paste
unfolding hash_of
peek_meta left now key db = metadata left (hash_of now key db)

abbrev pub whole : Option ℕ → Option Hash → Option Paste
whole left none = none
whole left (some h) = elim (h.content) [ none ↦ none | some c ↦ some (paste_of c h.fields left) ]

-- `Get`: without the field "content" there is no paste.
unfoldable pub get : Option ℕ → ℕ → Text → Db → Option Paste
unfolding hash_of
get left now key db = whole left (hash_of now key db)

-- `GetAndDelete`: the reading and the deletion are one transaction.
unfoldable pub get_and_delete : Option ℕ → ℕ → Text → Db → Option Paste × Db
unfolding get del
get_and_delete left now key db = (get left now key db, del key db)
