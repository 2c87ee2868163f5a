-- ===== src/Send/Tests.antt =====
-- Histories of the send buttons, and the address of a POST.
use own_pastebin.Prelude.{true, false, none, some, [], ◌∷◌, ◌≡◌, refl, arith, Text, codes, Lacks-of}
use own_pastebin.Url.Params.{IsValue-of, read_query}
use own_pastebin.Url.Printed.{IsPlain}
use own_pastebin.Page.{Env}
use own_pastebin.Send.{
  Settings, Form, encrypting, reading, Sender, handle_send, encrypted, encryption_failed, finish,
  send_uri, post_uri,
}
use own_pastebin.Send.Safety.{
  Ends, here, Reach, none_yet, and_then, clicked, enciphered, IsValid, send_one_wait,
}
use own_pastebin.Send.Secrecy.{
  AreGuarded, BodiesMeet, posts_are_ciphers, encryption_failure_blocks, send_posted_once,
}
use own_pastebin.Send.Values.{posted, post_uri-get_value}
use own_pastebin.Server.Query.{get_value}
use own_pastebin.Server.Ttl.{requested_ttl}
use own_pastebin.Send.Query.{ArePlain, post_uri-read_query}

abbrev env : Env
env = record { prefix = []; catalogue = []; encode = λ t. t }

abbrev settings : Settings
settings = record { expiry = codes "3600"; burn = codes "false"; protected = codes "false" }

abbrev form : Form
form = record {
  language = some (codes "go");
  password = some (codes "pw");
  content = some (codes "hello");
}

abbrev fresh : Sender
fresh = record {
  in_flight = false;
  sidebar = some false;
  top = none;
  pending = [];
  location = none;
  posts = [];
}

abbrev uri : Text
uri = send_uri [] (some (codes "go")) settings

abbrev clicked_once : Sender
clicked_once = handle_send env form settings fresh

click_waits : Ends (encrypting uri (codes "hello") (codes "pw")) clicked_once.pending []
unfolding handle_send
click_waits = here

abbrev sent : Sender
sent = encrypted env uri (codes "v2:AAAA") (record clicked_once { pending = [] })

sending : Reach env fresh sent
sending =
    and_then (and_then none_yet (clicked form settings fresh))
      (enciphered uri (codes "hello") (codes "pw") (codes "v2:AAAA") clicked_once [] click_waits)

send_one_wait_example : IsValid env sent
send_one_wait_example = send_one_wait env fresh sent refl refl refl refl sending

abbrev IsCipher : Text → Type 0
IsCipher t = t ≡ codes "v2:AAAA"

sending-AreGuarded : AreGuarded env IsCipher sending
unfolding sending
sending-AreGuarded = ((tt, omega arith), refl)

posts_are_ciphers_example : BodiesMeet env IsCipher sent
posts_are_ciphers_example = posts_are_ciphers env IsCipher fresh sent sending sending-AreGuarded tt

clicked_once-IsValid : IsValid env clicked_once
clicked_once-IsValid =
    send_one_wait env fresh clicked_once refl refl refl refl
      (and_then none_yet (clicked form settings fresh))

abbrev lost : Sender
lost = encryption_failed env (record clicked_once { pending = [] })

abbrev retried : Sender
retried = handle_send env form settings lost

encryption_failure_blocks_test :
    (retried.in_flight ≡ true)
    × (retried.posts ≡ clicked_once.posts)
    × (retried.location ≡ clicked_once.location)
encryption_failure_blocks_test =
    encryption_failure_blocks env clicked_once uri (codes "hello") (codes "pw") [] retried
      clicked_once-IsValid click_waits (and_then none_yet (clicked form settings lost))

abbrev read_state : Sender
read_state = record {
  in_flight = true;
  sidebar = some true;
  top = none;
  pending = reading ∷ [];
  location = none;
  posts = [];
}

read_state-IsValid : IsValid env read_state
read_state-IsValid = ground arith

abbrev done : Sender
done = finish env (some (some (codes "/id"))) (record read_state { pending = [] })

send_posted_once_test : handle_send env form settings done ≡ done
send_posted_once_test =
    send_posted_once env read_state [] (some (some (codes "/id")))
      (handle_send env form settings done) read_state-IsValid here
      (and_then none_yet (clicked form settings done))

settings-ArePlain : ArePlain settings
settings-ArePlain = record {
  expiry = (IsValue-of (codes "3600") refl, Lacks-of b'$' (codes "3600") refl);
  burn = (IsValue-of (codes "false") refl, Lacks-of b'$' (codes "false") refl);
  protected = (IsValue-of (codes "false") refl, Lacks-of b'$' (codes "false") refl);
}

go-IsPlain : IsPlain (codes "go")
go-IsPlain = (IsValue-of (codes "go") refl, Lacks-of b'$' (codes "go") refl)

post_uri-read_query_test :
    (read_query (codes "lang") (post_uri uri true) ≡ some (codes "go"))
    × (read_query (codes "ttl") (post_uri uri true) ≡ some (codes "3600"))
    × (read_query (codes "burn") (post_uri uri true) ≡ some (codes "false"))
    × (read_query (codes "protected") (post_uri uri true) ≡ some (codes "false"))
    × (read_query (codes "encrypted") (post_uri uri true) ≡ some (codes "true"))
post_uri-read_query_test =
    post_uri-read_query [] (some (codes "go")) settings true tt settings-ArePlain go-IsPlain

post_uri-get_value_example :
    (posted [] (some (codes "go")) settings true (codes "lang") ≡ codes "go")
    × (posted [] (some (codes "go")) settings true (codes "ttl") ≡ codes "3600")
    × (posted [] (some (codes "go")) settings true (codes "burn") ≡ codes "false")
    × (posted [] (some (codes "go")) settings true (codes "protected") ≡ codes "false")
    × (posted [] (some (codes "go")) settings true (codes "encrypted") ≡ codes "true")
post_uri-get_value_example =
    post_uri-get_value [] (some (codes "go")) settings true tt
      (record { expiry = refl; burn = refl; protected = refl }) refl

-- An option of the menu that the server offers but does not take: the plus sign is decoded as a space.
plus_refused : requested_ttl (get_value (codes "ttl") (codes "/?ttl=+300")) ≡ none
unfolding requested_ttl own_pastebin.Server.Ttl.parse_int own_pastebin.Server.Ttl.parse_digits
    get_value own_pastebin.Server.Query.unescape
plus_refused = refl
