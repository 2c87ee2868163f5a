-- ===== src/Server/Routes/Toy.antt =====
-- A small server for tests, with a cipher that only marks what it seals and an upload that is accepted.
use own_pastebin.Prelude.{
  ◌*◌, true, false, Option, none, some, [], ◌∷◌, refl, if◌then◌else◌, Text, codes, text_eq,
}
use own_pastebin.Server.Ttl.{pos, nanoseconds}
use own_pastebin.Server.Cipher.{Gcm}
use own_pastebin.Server.Routes.{App, Upload}

abbrev pub marked : Text → Option Text
marked [] = none
marked (c ∷ s) = some s

abbrev pub gcm : Gcm
gcm = record {
  seal = λ nonce plain. 1 ∷ plain;
  unseal = λ nonce sealed. marked sealed;
  unseals = λ nonce plain. refl;
}

abbrev pub server : App
server = record {
  max_paste_size = 1000;
  max_ttl = pos (3600 * nanoseconds);
  default_burn = false;
  protected_enabled = true;
  encryption_enabled = true;
  cipher = some gcm;
  base_url = codes "http://localhost";
}

abbrev pub query : Text → Text
query name =
    if text_eq name (codes "ttl")
    then codes "60"
    else if text_eq name (codes "burn")
    then codes "true"
    else if text_eq name (codes "encrypted")
    then codes "true"
    else []

abbrev pub server_nonce : Text
server_nonce = codes "abcdefghijkl"

abbrev pub upload : Text → Upload
upload body = record {
  content_length = some 5;
  body = some body;
  query = query;
  slot_free = true;
  nonce = some server_nonce;
  attempts = λ i. record { id = some (codes "x1"); answers = true };
}
