-- ===== src/Url/Printed.antt =====
-- URLs that are known to be well-formed, closed under `replaceUrlParam`.
use own_pastebin.Prelude.{
  some, [], ◌∷◌, ◌≡◌, sym, ◌∙◌, ap, append-nil, inl, inr, Bool-cases, Text, text_eq, Lacks,
}
use own_pastebin.Url.{replace_url_param}
use own_pastebin.Url.Params.{
  Params, print, set_param, get_param, IsName, IsValue, AreParams, IsPath, read_query,
}
use own_pastebin.Url.Refine.{replace_url_param-print}
use own_pastebin.Url.Read.{read_query-print}

-- A value that can be set and then read again.
abbrev pub IsPlain : Text → Type 0
IsPlain v = IsValue v × Lacks b'$' v

-- A text that spells a path with a list of parameters.
pub record IsPrinted (path uri : Text) (ps : Params) : Type 0 where
  pub is_path : IsPath path
  pub params : AreParams ps
  pub spelled : uri ≡ print path ps

pub path-IsPrinted : (path : Text) → IsPath path → IsPrinted path path []
path-IsPrinted path h = record { is_path = h; params = tt; spelled = sym (append-nil path) }

set_param-AreParams :
    (n v : Text) (ps : Params) → IsName n → IsValue v → AreParams ps → AreParams (set_param n v ps)
set_param-AreParams n v [] hn hv h = ((hn, hv), tt)
set_param-AreParams n v ((m, w) ∷ ps) hn hv ((hm, hw), h) = elim (Bool-cases (text_eq m n)) [
  | inl e ↦ rw e ((hm, hv), h)
  | inr e ↦ rw e ((hm, hw), set_param-AreParams n v ps hn hv h)
]

pub replace_url_param-IsPrinted :
    {path uri : Text} {ps : Params} (n v : Text)
    → IsName n
    → IsPlain v
    → IsPrinted path uri ps
    → IsPrinted path (replace_url_param uri n (some v)) (set_param n v ps)
replace_url_param-IsPrinted {path} {ps} n v hn hv p = record {
  is_path = p.is_path;
  params = set_param-AreParams n v ps hn hv.0 p.params;
  spelled =
      ap (λ u. replace_url_param u n (some v)) p.spelled
      ∙ replace_url_param-print path n v ps p.is_path p.params hn hv.1;
}

pub read_query-IsPrinted :
    {path uri : Text} {ps : Params} (name : Text)
    → IsName name
    → IsPrinted path uri ps
    → read_query name uri ≡ get_param name ps
read_query-IsPrinted {path} {ps} name hn p =
    ap (read_query name) p.spelled ∙ read_query-print path name ps p.is_path hn p.params
