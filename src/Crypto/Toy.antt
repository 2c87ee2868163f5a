-- ===== src/Crypto/Toy.antt =====
-- A small browser in which the encryption of web/static/js/custom.js runs, for tests.
use Prim.Native.Nat.{◌<◌}
use mathlib.Core.Option
use own_pastebin.Prelude.{
  ℕ, ◌+◌, ◌-◌, ◌*◌, ◌/◌, ◌%◌, false, true, Option, none, some, [], ◌∷◌, ◌++◌, ◌==◌, ◌≡◌, refl, sym,
  ◌∙◌, ap, arith, inl, inr, ltb, if◌then◌else◌, Bool-cases, Text, codes, is_space, All,
}
use own_pastebin.Crypto.Platform.{Browser, mark, StartsUnmarked}

-- Two letters for each byte.
abbrev pub toy_btoa : Text → Option Text
toy_btoa [] = some []
toy_btoa (c ∷ s) =
    if ltb c 256 then Option.map (λ t. (97 + c / 16) ∷ (97 + c % 16) ∷ t) (toy_btoa s) else none

abbrev pub toy_atob : Text → Option Text
toy_atob [] = some []
toy_atob (a ∷ []) = none
toy_atob (a ∷ c ∷ s) = Option.map (λ t. ((a - 97) * 16 + (c - 97)) ∷ t) (toy_atob s)

toy_btoa-cons :
    (c : ℕ) (s t : Text)
    → toy_btoa (c ∷ s) ≡ some t
    → (r : Text) × (toy_btoa s ≡ some r)
      × (t ≡ (97 + c / 16) ∷ (97 + c % 16) ∷ r)
      × (ltb c 256 ≡ true)
toy_btoa-cons c s t e = elim (Bool-cases (ltb c 256)) [
  | inl small ↦
      let e' = rw small at e in
      let (r, e1, e2) = (Option.map-eq-some_iff _ _).0 e' in (r, e1, sym e2, small)
  | inr large ↦ cc (rw large at e)
]

byte_back : (c : ℕ) → (97 + c / 16 - 97) * 16 + (97 + c % 16 - 97) ≡ c
byte_back c = omega arith

pub toy_decodes : (s t : Text) → toy_btoa s ≡ some t → toy_atob t ≡ some s
toy_decodes [] t e = rw (← Option.some-injective _ _ e)
toy_decodes (c ∷ s) t e =
    let (r, e1, e2, small) = toy_btoa-cons c s t e in rw (e2, toy_decodes s r e1, byte_back c)

letter_ok : (n : ℕ) → n < 16 → is_space (97 + n) ≡ false
letter_ok n h = ground arith

pub toy_no_space : (s t : Text) → toy_btoa s ≡ some t → All (λ c. is_space c ≡ false) t
toy_no_space [] t e = rw (← Option.some-injective _ _ e) tt
toy_no_space (c ∷ s) t e =
    let (r, e1, e2, small) = toy_btoa-cons c s t e in
    rw e2
      (letter_ok (c / 16) (ground arith), (letter_ok (c % 16) (omega arith), toy_no_space s r e1))

abbrev pub toy_encode : Text → Text
toy_encode [] = []
toy_encode (c ∷ s) = (c / 256) ∷ (c % 256) ∷ toy_encode s

abbrev pub pairs : Text → Text
pairs [] = []
pairs (a ∷ []) = []
pairs (a ∷ c ∷ s) = (a * 256 + c) ∷ pairs s

abbrev pub unmark : Text → Text
unmark [] = []
unmark (c ∷ s) = if c == mark then s else c ∷ s

pairs-toy_encode : (s : Text) → pairs (toy_encode s) ≡ s
pairs-toy_encode [] = refl
pairs-toy_encode (c ∷ s) =
    let e : c / 256 * 256 + c % 256 ≡ c = omega arith in rw (e, pairs-toy_encode s)

pub toy_unmarked : (s : Text) → StartsUnmarked s → unmark (pairs (toy_encode s)) ≡ s
toy_unmarked [] h = refl
toy_unmarked (c ∷ s) h = ap unmark (pairs-toy_encode (c ∷ s)) ∙ (ground arith)

pub toy_marked : (s : Text) → unmark (pairs (toy_encode (mark ∷ s))) ≡ s
toy_marked s = ap unmark (pairs-toy_encode (mark ∷ s))

abbrev pub open_tagged : Text → Option Text
open_tagged [] = none
open_tagged (c ∷ s) = if c == 1 then some s else none

pub toy_opens : (p c : Text) → some (1 ∷ p) ≡ some c → open_tagged c ≡ some p
toy_opens p c e = rw (← Option.some-injective _ _ e)

abbrev pub toy : Browser
toy = record {
  Material = Text;
  Key = Text;
  import_key = λ bytes. some bytes;
  derive = λ n salt material. some (salt ++ material);
  encrypt = λ iv key plain. some (1 ∷ plain);
  decrypt = λ iv key cipher. open_tagged cipher;
  utf8_encode = toy_encode;
  utf8_decode = λ bytes. unmark (pairs bytes);
  btoa = toy_btoa;
  atob = toy_atob;
  limit = 65536;
  IsWellFormed = λ s. Unit {0};
  opens = λ iv key plain cipher e. toy_opens plain cipher e;
  decodes = λ s h um. toy_unmarked s um;
  decodes_marked = λ s h. toy_marked s;
  decodes_base64 = toy_decodes;
  no_space = toy_no_space;
  enough = omega arith;
}

abbrev pub salt : Text
salt = codes "0123456789abcdef"

abbrev pub nonce : Text
nonce = codes "0123456789ab"

abbrev pub secret : Text
secret = codes "hi"

abbrev pub password : Text
password = codes "pw"
