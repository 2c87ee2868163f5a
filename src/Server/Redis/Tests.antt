-- ===== src/Server/Redis/Tests.antt =====
-- The Redis storage at an input: a paste that burns, on an empty database.
use own_pastebin.Prelude.{false, true, none, some, [], ◌≡◌, refl, codes}
use own_pastebin.Server.Store.{Paste}
use own_pastebin.Server.Redis.{
  hash_of, fields_of, paste_of, save_content, peek_meta, get, get_and_delete,
}
use own_pastebin.Server.Redis.Laws.{half, full, saved_whole, half_saved_read}

abbrev note : Paste
note = record {
  content = codes "hi";
  burn = true;
  encrypted = false;
  e2e_encrypted = false;
  protected = false;
  lang = codes "text";
  expire_at = some 100;
}

free : hash_of 10 (codes "a") [] ≡ none
unfolding hash_of
free = refl

saved_whole_test :
    (save_content 10 (codes "a") note [] ≡ some (half 10 (codes "a") note [] free))
    × (get (some 100) 50 (codes "a") (full 10 (codes "a") note [] free) ≡ some note)
    × (peek_meta (some 100) 50 (codes "a") (full 10 (codes "a") note [] free)
        ≡ some (record note { content = [] }))
    × ((get_and_delete (some 100) 50 (codes "a") (full 10 (codes "a") note [] free)).0 ≡ some note)
    × (get
          (some 100)
          60
          (codes "a")
          (get_and_delete (some 100) 50 (codes "a") (full 10 (codes "a") note [] free)).1
        ≡ none)
    × (hash_of 50 (codes "b") (full 10 (codes "a") note [] free) ≡ hash_of 50 (codes "b") [])
saved_whole_test = saved_whole 10 (codes "a") note [] free (some 100) 50 60 (codes "b") refl refl

half_saved_read_example :
    (save_content 10 (codes "a") note [] ≡ some (half 10 (codes "a") note [] free))
    × (peek_meta (some 100) 11 (codes "a") (half 10 (codes "a") note [] free) ≡ none)
    × (get (some 100) 11 (codes "a") (half 10 (codes "a") note [] free)
        ≡ some (paste_of (codes "hi") none (some 100)))
    × ((paste_of (codes "hi") none (some 100)).burn ≡ false)
    × ((get_and_delete (some 100) 12 (codes "a") (full 10 (codes "a") note [] free)).0 ≡ some note)
    × ((fields_of note).burn ≡ true)
half_saved_read_example = half_saved_read 10 (codes "a") note [] free (some 100) 11 12 refl refl
