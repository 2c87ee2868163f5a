-- ===== src/Server/Query/Laws.antt =====
-- An address that is spelled of unreserved characters is read as the list of its parameters.
use own_pastebin.Prelude.{
  append_assoc, append-nil, ℕ, ◌≡◌, ◌≢◌, ◌∙◌, refl, sym, ap, arith, Bool, true, false, ◌||◌, Option,
  none, some, [], ◌∷◌, ◌++◌, ◌==◌, if◌then◌else◌, or_else, Text, text_eq, is_word, contains, All,
  all, Lacks-of,
}
use own_pastebin.Url.Params.{Params, print_from, print_rest, get_param, IsValue-of, is_value_char}
use own_pastebin.Url.Printed.{IsPlain, IsPrinted}
use own_pastebin.Server.Strings.{split_at}
use own_pastebin.Server.Query.{
  between, unescape, until_hash, raw_query_of, segments, cut, unescaped, pair_of, value_or,
  first_value, get_value,
}

-- The characters that neither a browser nor the server takes for anything else.
abbrev pub is_unreserved : ℕ → Bool
is_unreserved c = is_word c || c == b'-' || c == b'.' || c == b'~'

abbrev pub IsUnreserved : Text → Type 0
IsUnreserved s = all is_unreserved s ≡ true

-- The characters of a pair.
abbrev is_pair_char : ℕ → Bool
is_pair_char c = is_unreserved c || c == b'='

all-cons :
    (p : ℕ → Bool) (c : ℕ) (s : Text) → all p (c ∷ s) ≡ true → (p c ≡ true) × (all p s ≡ true)
all-cons p c s h = (ground (arith, h), ground (arith, h))

unreserved_plain :
    (c : ℕ)
    → is_unreserved c ≡ true
    → ((c == b'%') ≡ false) × ((c == b'+') ≡ false) × ((c == b'=') ≡ false)
unreserved_plain c h = (ground (arith, h), ground (arith, h), ground (arith, h))

pair_plain :
    (c : ℕ)
    → is_pair_char c ≡ true
    → ((b';' == c) ≡ false) × ((c == b'&') ≡ false) × ((c == b'#') ≡ false)
pair_plain c h = (ground (arith, h), ground (arith, h), ground (arith, h))

unescape-same : (s : Text) → IsUnreserved s → unescape between s ≡ some s
unfolding unescape
unescape-same [] h = refl
unescape-same (c ∷ s) h =
    let (here, later) = all-cons is_unreserved c s h in
    let (percent, plus, _) = unreserved_plain c here in
    rw (percent, plus, unescape-same s later) refl

split_at-name : (n v : Text) → IsUnreserved n → split_at b'=' (n ++ b'=' ∷ v) ≡ some (n, v)
split_at-name [] v h = refl
split_at-name (c ∷ n) v h =
    let (here, later) = all-cons is_unreserved c n h in
    let (_, _, equals) = unreserved_plain c here in rw (equals, split_at-name n v later) refl

all-both : (p : ℕ → Bool) (s t : Text) → all p s ≡ true → all p t ≡ true → all p (s ++ t) ≡ true
all-both p [] t h k = k
all-both p (c ∷ s) t h k =
    let (here, later) = all-cons p c s h in rw (here, all-both p s t later k) refl

unreserved-pair : (s : Text) → IsUnreserved s → all is_pair_char s ≡ true
unreserved-pair [] h = refl
unreserved-pair (c ∷ s) h =
    let (here, later) = all-cons is_unreserved c s h in rw (here, unreserved-pair s later) refl

seg-pair : (n v : Text) → IsUnreserved n → IsUnreserved v → all is_pair_char (n ++ b'=' ∷ v) ≡ true
seg-pair n v h k = all-both is_pair_char n (b'=' ∷ v) (unreserved-pair n h) (unreserved-pair v k)

no_semicolon : (s : Text) → all is_pair_char s ≡ true → contains b';' s ≡ false
no_semicolon [] h = refl
no_semicolon (c ∷ s) h =
    let (here, later) = all-cons is_pair_char c s h in
    let (semicolon, _, _) = pair_plain c here in rw (semicolon, no_semicolon s later) refl

pair_of-seg :
    (n v : Text) → n ≢ [] → IsUnreserved n → IsUnreserved v → pair_of (n ++ b'=' ∷ v) ≡ some (n, v)
unfolding pair_of
pair_of-seg [] v e h k = absurd (e refl)
pair_of-seg (c ∷ n) v e h k = rw (no_semicolon (c ∷ n ++ b'=' ∷ v) (seg-pair (c ∷ n) v h k)) (
    ap (λ o. unescaped (cut (c ∷ n ++ b'=' ∷ v) o)) (split_at-name (c ∷ n) v h)
    ∙ (rw (unescape-same (c ∷ n) h, unescape-same v k) refl))

-- The pairs of a text, one after the other.
segments-last : (s : Text) → all is_pair_char s ≡ true → segments s ≡ s ∷ []
segments-last [] h = refl
segments-last (c ∷ s) h =
    let (here, later) = all-cons is_pair_char c s h in
    let (_, amp, _) = pair_plain c here in rw (amp, segments-last s later) refl

segments-more : (s t : Text) → all is_pair_char s ≡ true → segments (s ++ b'&' ∷ t) ≡ s ∷ segments t
segments-more [] t h = refl
segments-more (c ∷ s) t h =
    let (here, later) = all-cons is_pair_char c s h in
    let (_, amp, _) = pair_plain c here in rw (amp, segments-more s t later) refl

until_hash-pair : (s t : Text) → all is_pair_char s ≡ true → until_hash (s ++ t) ≡ s ++ until_hash t
until_hash-pair [] t h = refl
until_hash-pair (c ∷ s) t h =
    let (here, later) = all-cons is_pair_char c s h in
    let (_, _, hash) = pair_plain c here in rw (hash) (ap (λ r. c ∷ r) (until_hash-pair s t later))

abbrev pub AreUnreserved : Params → Type 0
AreUnreserved = All (λ p. (p.0 ≢ []) × IsUnreserved p.0 × IsUnreserved p.1)

until_hash-body :
    (n v rest : Text)
    → IsUnreserved n
    → IsUnreserved v
    → until_hash rest ≡ rest
    → until_hash (n ++ b'=' ∷ (v ++ rest)) ≡ n ++ b'=' ∷ (v ++ rest)
until_hash-body n v rest hn hv h =
    ap until_hash (sym (append_assoc n (b'=' ∷ v) rest))
    ∙ until_hash-pair (n ++ b'=' ∷ v) rest (seg-pair n v hn hv)
    ∙ ap (λ r. (n ++ b'=' ∷ v) ++ r) h
    ∙ append_assoc n (b'=' ∷ v) rest

until_hash-rest : (ps : Params) → AreUnreserved ps → until_hash (print_rest ps) ≡ print_rest ps
until_hash-rest [] h = refl
until_hash-rest ((n, v) ∷ ps) ((e, hn, hv), h) =
    ap (λ r. b'&' ∷ r) (until_hash-body n v (print_rest ps) hn hv (until_hash-rest ps h))

chosen :
    (b : Bool) (v r : Text) (o : Option Text)
    → r ≡ or_else o []
    → (if b then v else r) ≡ or_else (if b then some v else o) []
chosen true v r o e = refl
chosen false v r o e = e

first_value-segments :
    (name n v : Text) (ps : Params)
    → AreUnreserved ((n, v) ∷ ps)
    → first_value name (segments (n ++ b'=' ∷ (v ++ print_rest ps)))
      ≡ or_else (get_param name ((n, v) ∷ ps)) []
first_value-segments name n v [] ((e, hn, hv), h) =
    ap (λ r. first_value name (segments (n ++ b'=' ∷ r))) (append-nil v)
    ∙ ap (first_value name) (segments-last (n ++ b'=' ∷ v) (seg-pair n v hn hv))
    ∙ ap (λ o. value_or name o []) (pair_of-seg n v e hn hv)
    ∙ chosen (text_eq n name) v [] none refl
first_value-segments name n v ((m, w) ∷ ps) ((e, hn, hv), h) =
    let rest : Text = m ++ b'=' ∷ (w ++ print_rest ps) in
    ap (λ r. first_value name (segments r)) (sym (append_assoc n (b'=' ∷ v) (b'&' ∷ rest)))
    ∙ ap (first_value name) (segments-more (n ++ b'=' ∷ v) rest (seg-pair n v hn hv))
    ∙ ap (λ o. value_or name o (first_value name (segments rest))) (pair_of-seg n v e hn hv)
    ∙ chosen (text_eq n name) v (first_value name (segments rest)) (get_param name ((m, w) ∷ ps))
        (first_value-segments name m w ps h)

-- The text behind the path.
raw_query_of-path :
    (stem t : Text)
    → All (λ c. (c ≢ b'?') × (c ≢ b'#') × (c ≢ b'=')) stem
    → raw_query_of (stem ++ t) ≡ raw_query_of t
unfolding raw_query_of
raw_query_of-path [] t h = refl
raw_query_of-path (c ∷ s) t ((question, hash, _), h) =
    ground (arith, question, hash, raw_query_of-path s t h)

first_value-query :
    (name : Text) (ps : Params)
    → AreUnreserved ps
    → first_value name (segments (raw_query_of (print_from b'?' ps)))
      ≡ or_else (get_param name ps) []
unfolding raw_query_of pair_of
first_value-query name [] h = refl
first_value-query name ((n, v) ∷ ps) h =
    ap (λ r. first_value name (segments r))
      (until_hash-body n v (print_rest ps) h.0.1 h.0.2 (until_hash-rest ps h.1))
    ∙ first_value-segments name n v ps h

-- In an address that spells a list of parameters, all of unreserved characters, the server reads the
-- list.
pub get_value-IsPrinted :
    {path uri : Text} {ps : Params} (name : Text)
    → AreUnreserved ps
    → IsPrinted path uri ps
    → get_value name uri ≡ or_else (get_param name ps) []
unfolding get_value raw_query_of
get_value-IsPrinted {path} {uri} {ps} name h p =
    let stem : Text = p.is_path.stem in
    let same : uri ≡ stem ++ b'/' ∷ print_from b'?' ps =
      p.spelled
      ∙ ap (λ t. t ++ print_from b'?' ps) p.is_path.spelled
      ∙ append_assoc stem (b'/' ∷ []) (print_from b'?' ps) in
    ap (λ u. first_value name (segments (raw_query_of u))) same
    ∙ ap (λ r. first_value name (segments r)) (raw_query_of-path stem _ p.is_path.plain)
    ∙ first_value-query name ps h

unreserved_value :
    (c : ℕ) → is_unreserved c ≡ true → (is_value_char c ≡ true) × ((b'$' == c) ≡ false)
unreserved_value c h = (ground (arith, h), ground (arith, h))

unreserved_values :
    (s : Text) → IsUnreserved s → (all is_value_char s ≡ true) × (contains b'$' s ≡ false)
unreserved_values [] h = (refl, refl)
unreserved_values (c ∷ s) h =
    let (here, later) = all-cons is_unreserved c s h in
    let (value, dollar) = unreserved_value c here in
    let (values, dollars) = unreserved_values s later in
    (rw (value, values) refl, rw (dollar, dollars) refl)

-- Unreserved characters stand for themselves in the script's pattern and replacement too.
pub IsPlain-of : (s : Text) → IsUnreserved s → IsPlain s
IsPlain-of s h =
    let (values, dollars) = unreserved_values s h in (IsValue-of s values, Lacks-of b'$' s dollars)
