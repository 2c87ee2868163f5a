-- ===== src/Url/Tests.antt =====
-- The edits of a URL at inputs.
use own_pastebin.Prelude.{none, some, [], ◌∷◌, ◌≡◌, refl, codes, Lacks-of}
use own_pastebin.Url.{
  replace_url_param, search, match_here, find_end, append_param, strip_last, has_query,
  replace_match, expand,
}
use own_pastebin.Url.Params.{Params, IsPath, AreParams, IsName-of, IsValue-of}
use own_pastebin.Url.Refine.{replace_url_param-print}

editing : Unit {0}
unfolding replace_url_param search match_here find_end append_param strip_last has_query
    replace_match expand
editing = tt

edits :
    (replace_url_param (codes "/a/?ttl=1&x=2") (codes "ttl") (some (codes "9"))
      ≡ codes "/a/?ttl=9&x=2")
    × (replace_url_param (codes "/a/?attl=1#t") (codes "ttl") (some (codes "9"))
        ≡ codes "/a/?attl=1#t&ttl=9")
    × (replace_url_param (codes "/a?") (codes "msg") none ≡ codes "/a?msg=")
    × (replace_url_param (codes "/?a=1") (codes "a") (some (codes "$&")) ≡ codes "/?a=a=1")
unfolding editing
edits = (refl, refl, refl, refl)

abbrev root : IsPath (codes "/")
root = record { stem = []; spelled = refl; plain = tt }

abbrev two : Params
two = (codes "lang", codes "go") ∷ (codes "ttl", codes "60") ∷ []

two-AreParams : AreParams two
two-AreParams = (
  (IsName-of _ _ refl, IsValue-of (codes "go") refl),
  ((IsName-of _ _ refl, IsValue-of (codes "60") refl), tt),
)

replace_url_param-print_example :
    replace_url_param (codes "/?lang=go&ttl=60") (codes "ttl") (some (codes "3600"))
    ≡ codes "/?lang=go&ttl=3600"
replace_url_param-print_example =
    replace_url_param-print (codes "/") (codes "ttl") (codes "3600") two root two-AreParams
      (IsName-of _ _ refl) (Lacks-of b'$' (codes "3600") refl)
