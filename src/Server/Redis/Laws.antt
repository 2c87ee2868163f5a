-- ===== src/Server/Redis/Laws.antt =====
-- What `Save` on Redis leads to when it is not interrupted, and between its two transactions.
use own_pastebin.Prelude.{
  ℕ, true, false, Option, none, some, [], ◌∷◌, ◌≡◌, refl, ◌∙◌, arith, if◌then◌else◌, Text, text_eq,
  text_eq_refl, text_eq_sound,
}
use own_pastebin.Server.Store.{Paste, is_over}
use own_pastebin.Server.Redis.{
  Hash, Db, hash_of, del, put, save_content, fields_of, expiry_of, save_fields, paste_of, peek_meta,
  get, get_and_delete,
}

hash_of-del :
    (now : ℕ) (key k : Text) (db : Db)
    → hash_of now k (del key db) ≡ (if text_eq key k then none else hash_of now k db)
unfolding hash_of del
hash_of-del now key k [] = ground arith
hash_of-del now key k ((j, h) ∷ db) = ground (
  arith,
  text_eq_sound j key,
  text_eq_sound j k,
  text_eq_sound key k,
  text_eq_refl k,
  hash_of-del now key k db,
)

hash_of-put :
    (now : ℕ) (key : Text) (h : Hash) (db : Db)
    → hash_of now key (put key h db) ≡ (if is_over now h.expire_at then none else some h)
unfolding hash_of
hash_of-put now key h db = rw (text_eq_refl key)

fresh_expiry : (x : Option ℕ) → expiry_of x none ≡ x
fresh_expiry none = refl
fresh_expiry (some at) = refl

module _ (now : ℕ) (key : Text) (p : Paste) (db : Db) (free : hash_of now key db ≡ none) where
  -- The database between the two transactions, and after them.
  abbrev pub half : Db
  half = put key (record { content = some p.content; fields = none; expire_at = none }) db

  abbrev pub full : Db
  full = save_fields now key p half

  claimed_half : save_content now key p db ≡ some half
  unfolding save_content
  claimed_half = rw free

  half_hash :
      (t : ℕ)
      → hash_of t key half
        ≡ some (record { content = some p.content; fields = none; expire_at = none })
  half_hash t = hash_of-put t key _ db

  full_hash :
      (t : ℕ)
      → hash_of t key full ≡ (
          if is_over t p.expire_at
          then none
          else some (record {
            content = some p.content;
            fields = some (fields_of p);
            expire_at = p.expire_at;
          }))
  unfolding save_fields
  full_hash t = rw (half_hash now) (
      hash_of-put t key
        (record {
          content = some p.content;
          fields = some (fields_of p);
          expire_at = expiry_of p.expire_at none;
        })
        half
      ∙ (rw (fresh_expiry p.expire_at)))

  other_hash : (t : ℕ) (k : Text) → text_eq key k ≡ false → hash_of t k full ≡ hash_of t k db
  unfolding save_fields hash_of
  other_hash t k h =
      rw (half_hash now) (rw (h, hash_of-del t key k half, h) (rw (hash_of-del t key k db, h)))

  -- The two transactions of `Save` for an id that is free, with nothing in between: the first one
  -- succeeds; from then on, until its expiry, `Get` gives the paste, `PeekMeta` its flags, and
  -- `GetAndDelete` the paste once more and deletes it; and no other key is changed.
  pub saved_whole :
      (left : Option ℕ) (t later : ℕ) (k : Text)
      → is_over t p.expire_at ≡ false
      → text_eq key k ≡ false
      → (save_content now key p db ≡ some half)
        × (get left t key full ≡ some (paste_of p.content (some (fields_of p)) left))
        × (peek_meta left t key full ≡ some (paste_of [] (some (fields_of p)) left))
        × ((get_and_delete left t key full).0 ≡ some (paste_of p.content (some (fields_of p)) left))
        × (get left later key (get_and_delete left t key full).1 ≡ none)
        × (hash_of t k full ≡ hash_of t k db)
  unfolding get peek_meta get_and_delete
  saved_whole left t later k h other =
      let there = full_hash t in
      (
        claimed_half,
        rw (there, h),
        rw (there, h),
        rw (there, h),
        rw (hash_of-del later key key full, text_eq_refl key),
        other_hash t k other,
      )

  -- Between the two transactions of `Save` a reader gets the content of a paste that burns, and the
  -- paste stays: `PeekMeta` finds nothing, so that `fetchPaste` goes on to `Get`, and that gives
  -- the content with the flag "burn" off. After the second transaction another reader gets
  -- the content by `GetAndDelete`.
  pub half_saved_read :
      (left : Option ℕ) (t later : ℕ)
      → is_over later p.expire_at ≡ false
      → p.burn ≡ true
      → (save_content now key p db ≡ some half)
        × (peek_meta left t key half ≡ none)
        × (get left t key half ≡ some (paste_of p.content none left))
        × ((paste_of p.content none left).burn ≡ false)
        × ((get_and_delete left later key full).0
            ≡ some (paste_of p.content (some (fields_of p)) left))
        × ((fields_of p).burn ≡ true)
  unfolding get peek_meta get_and_delete
  half_saved_read left t later h burns =
      (claimed_half, rw (half_hash t), rw (half_hash t), refl, rw (full_hash later, h), burns)
