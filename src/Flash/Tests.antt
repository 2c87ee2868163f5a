-- ===== src/Flash/Tests.antt =====
-- A redirect at an input.
use own_pastebin.Prelude.{some, ◌≡◌, refl, arith, Text, codes, Lacks-of}
use own_pastebin.Url.Params.{read_query, IsValue-of}
use own_pastebin.Url.Printed.{IsPlain}
use own_pastebin.Flash.{flash_uri, danger, glyph_failed}
use own_pastebin.Flash.Laws.{flash_uri-read_query}

abbrev busy : Text
busy = codes "Server is busy."

danger-IsPlain : IsPlain danger
danger-IsPlain = (IsValue-of danger refl, Lacks-of b'$' danger refl)

glyph_failed-IsPlain : IsPlain glyph_failed
glyph_failed-IsPlain = (IsValue-of glyph_failed refl, Lacks-of b'$' glyph_failed refl)

busy-IsPlain : IsPlain busy
busy-IsPlain = (IsValue-of busy refl, Lacks-of b'$' busy refl)

flash_uri-read_query_test :
    (read_query (codes "level") (flash_uri (codes "/p") danger glyph_failed busy) ≡ some danger)
    × (read_query (codes "glyph") (flash_uri (codes "/p") danger glyph_failed busy)
        ≡ some glyph_failed)
    × (read_query (codes "msg") (flash_uri (codes "/p") danger glyph_failed busy) ≡ some busy)
flash_uri-read_query_test =
    flash_uri-read_query (codes "/p") danger glyph_failed busy (omega arith) danger-IsPlain
      glyph_failed-IsPlain busy-IsPlain
