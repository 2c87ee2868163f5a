-- ===== src/Server/Log.antt =====
-- The log of the server: the two handlers of internal/logger.go, with `parseLogLevel` and
-- `levelString`.
--
-- An attribute's value is a text or another value with the text that `String` gives for it. The
-- formatted time is an argument. The encoding of an entry as JSON is the library's: the entry is
-- what the handler gives to the encoder.
pub mod Laws
mod Tests
use own_pastebin.Prelude.{
  ℕ, ◌≡◌, Bool, true, false, ◌&&◌, Option, none, some, List, [], ◌∷◌, ◌++◌, map, if◌then◌else◌, leb,
  Text, codes, text_eq,
}
use own_pastebin.Server.Strings.{upper, trim_space}

pub data Level : Type 0 where
  debug info warn error : Level

-- slog's numbers, counted from its lowest level.
abbrev pub rank : Level → ℕ
rank debug = 0
rank info = 4
rank warn = 8
rank error = 12

-- `levelString`
abbrev pub level_string : Level → Text
level_string debug = codes "DEBUG"
level_string info = codes "INFO"
level_string warn = codes "WARN"
level_string error = codes "ERROR"

-- `parseLogLevel`
unfoldable pub parse_log_level : Text → Level
parse_log_level v =
    let s = map upper (trim_space v) in
    if text_eq s (codes "DEBUG")
    then debug
    else if text_eq s (codes "WARN")
    then warn
    else if text_eq s (codes "WARNING")
    then warn
    else if text_eq s (codes "ERROR")
    then error
    else info

-- `Enabled` of a handler with a level.
abbrev pub enabled : Level → Level → Bool
enabled least l = leb (rank least) (rank l)

pub data Value : Type 0 where
  string other : Text → Value

abbrev pub shown : Value → Text
shown (string s) = s
shown (other s) = s

pub record Attr : Type 0 where
  pub key : Text
  pub value : Value

pub record Record : Type 0 where
  pub time : Text
  pub level : Level
  pub message : Text
  pub attrs : List Attr

-- The component that an attribute names, if it is one.
abbrev pub component_in : Bool → Value → Option Text
component_in true (string s) = some s
component_in true (other s) = none
component_in false v = none

abbrev pub component_of : Attr → Option Text
component_of a = component_in (text_eq a.key (codes "component")) a.value

-- `textHandler.Handle`: the loops over the attributes, with the component and the text so far.
abbrev pub Written : Type 0
Written = Text × Text

abbrev pub written : Written → Attr → Option Text → Written
written (component, out) a (some c) = (c, out)
written (component, out) a none = (component, out ++ (b' ' ∷ a.key ++ b'=' ∷ shown a.value))

unfoldable pub write_attrs : Written → List Attr → Written
write_attrs w [] = w
write_attrs w (a ∷ xs) = write_attrs (written w a (component_of a)) xs

abbrev pub line : Record → Written → Text
line r (component, out) =
    r.time
    ++ (codes " - "
        ++ (level_string r.level
            ++ (codes " - " ++ (component ++ (codes " - " ++ (r.message ++ (out ++ 10 ∷ [])))))))

-- The two handlers hold the attributes that were attached.
unfoldable pub text_handle : List Attr → Record → Text
unfolding write_attrs
text_handle attached r = line r (write_attrs (write_attrs (codes "pastebin", []) attached) r.attrs)

-- `WithAttrs`, of both.
unfoldable pub with_attrs : List Attr → List Attr → List Attr
with_attrs attached attrs = attached ++ attrs

-- `jsonMsgHandler.Handle`: the map under "msg" as a function.
pub record Entry : Type 0 where
  pub component : Text
  pub msg : Text → Option Value

abbrev pub put : Text → Value → (Text → Option Value) → Text → Option Value
put k v m j = if text_eq j k then some v else m j

abbrev pub noted : Entry → Attr → Option Text → Entry
noted e a (some c) = record e { component = c }
noted e a none = record e { msg = put a.key a.value e.msg }

unfoldable pub note_attrs : Entry → List Attr → Entry
note_attrs e [] = e
note_attrs e (a ∷ xs) = note_attrs (noted e a (component_of a)) xs

abbrev pub with_message : Text → Entry → Entry
with_message s e = record e { msg = put (codes "message") (string s) e.msg }

unfoldable pub json_handle : List Attr → Record → Entry
unfolding note_attrs
json_handle attached r =
    note_attrs
      (with_message r.message
        (note_attrs (record { component = codes "pastebin"; msg = λ k. none }) attached))
      r.attrs
