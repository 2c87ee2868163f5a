-- ===== src/Flash.antt =====
-- The redirect to the start page with a message: the three or four calls of `replaceUrlParam` on
-- `flashBase()` that end each way of the delete and the send handler in
-- web/static/js/custom.js.
pub mod Laws
mod Tests
use own_pastebin.Prelude.{Option, none, some, Text, codes}
use own_pastebin.Url.{replace_url_param, flash_base}

unfoldable pub flash_uri : Text → Text → Text → Text → Text
flash_uri prefix level glyph msg =
    let uri = flash_base prefix in
    let uri1 = replace_url_param uri (codes "level") (some level) in
    let uri2 = replace_url_param uri1 (codes "glyph") (some glyph) in
    replace_url_param uri2 (codes "msg") (some msg)

abbrev pub danger : Text
danger = codes "danger"

abbrev pub glyph_failed : Text
glyph_failed = codes "fas fa-circle-xmark"
