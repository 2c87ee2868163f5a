-- ===== src/Server/Log/Tests.antt =====
-- The log at an input.
use own_pastebin.Prelude.{◌≡◌, refl, [], ◌∷◌, ◌++◌, Text, codes}
use own_pastebin.Server.Log.{
  Attr, Record, string, info, warn, text_handle, json_handle, with_attrs, parse_log_level,
}
use own_pastebin.Server.Log.Laws.{handle-with_attrs}

abbrev attr : Text → Text → Attr
attr key s = record { key = key; value = string s }

abbrev started : Record
started = record {
  time = codes "12:00";
  level = info;
  message = codes "up";
  attrs = attr (codes "addr") (codes ":80") ∷ [];
}

handle-with_attrs_test :
    (text_handle
        (with_attrs []
          (attr (codes "component") (codes "main") ∷ attr (codes "k") (codes "v") ∷ []))
        started
      ≡ text_handle [] (record started {
        attrs =
            (attr (codes "component") (codes "main") ∷ attr (codes "k") (codes "v") ∷ [])
            ++ started.attrs;
      }))
    × (json_handle
          (with_attrs []
            (attr (codes "component") (codes "main") ∷ attr (codes "k") (codes "v") ∷ []))
          started
        ≡ json_handle [] (record started {
          attrs =
              (attr (codes "component") (codes "main") ∷ attr (codes "k") (codes "v") ∷ [])
              ++ started.attrs;
        }))
handle-with_attrs_test =
    handle-with_attrs []
      (attr (codes "component") (codes "main") ∷ attr (codes "k") (codes "v") ∷ []) started
      (refl, (refl, tt))

hoisted :
    text_handle (attr (codes "component") (codes "main") ∷ []) started
    ≡ codes "12:00 - INFO - main - up addr=:80\n"
unfolding text_handle
hoisted = refl

lower_case : parse_log_level (codes " Warning ") ≡ warn
unfolding parse_log_level own_pastebin.Server.Strings.is_go_space
lower_case = refl
