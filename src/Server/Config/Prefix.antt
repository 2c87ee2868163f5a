-- ===== src/Server/Config/Prefix.antt =====
-- The path under which the server stands, as it is read of its base URL.
use mathlib.Core.List.{reverse, reverse-append, reverse-reverse}
use own_pastebin.Prelude.{
  ℕ, ◌≡◌, refl, sym, ◌∙◌, ap, arith, Bool, true, false, not, some, [], ◌∷◌, ◌++◌, ◌==◌, or_else,
  Text, codes, all,
}
use own_pastebin.Server.Strings.{trim_left, trim_right}
use own_pastebin.Server.Strings.Laws.{all-reverse}
use own_pastebin.Server.Config.{after_scheme, from_slash, extract_path_prefix}

abbrev pub is_slash : ℕ → Bool
is_slash c = c == b'/'

-- Nothing, or a path that ends in another character than a slash.
pub data IsPrefix : Text → Type 0 where
  at_root : IsPrefix []
  below : (q : Text) (c : ℕ) → is_slash c ≡ false → IsPrefix (b'/' ∷ q ++ c ∷ [])

after_scheme-scheme :
    (scheme rest : Text)
    → all (λ c. not (c == b':')) scheme ≡ true
    → after_scheme (scheme ++ (codes "://" ++ rest)) ≡ some rest
after_scheme-scheme [] rest h = refl
after_scheme-scheme (c ∷ s) rest h = ground (arith, after_scheme-scheme s rest, h)

from_slash-host :
    (host rest : Text)
    → all (λ c. not (is_slash c)) host ≡ true
    → from_slash (host ++ rest) ≡ from_slash rest
from_slash-host [] rest h = refl
from_slash-host (c ∷ s) rest h = ground (arith, from_slash-host s rest, h)

from_slash-prefix :
    {path : Text} (slashes : Text)
    → IsPrefix path
    → all is_slash slashes ≡ true
    → from_slash (path ++ slashes) ≡ path ++ slashes
from_slash-prefix [] at_root h = refl
from_slash-prefix (c ∷ s) at_root h = ground (arith, h)
from_slash-prefix slashes (below q c k) h = refl

trim_left-all : (p : ℕ → Bool) (s t : Text) → all p s ≡ true → trim_left p (s ++ t) ≡ trim_left p t
trim_left-all p [] t h = refl
trim_left-all p (c ∷ s) t h = ground (arith, trim_left-all p s t, h)

trim_right-end :
    (p : ℕ → Bool) (s t : Text) → all p t ≡ true → trim_right p (s ++ t) ≡ trim_right p s
trim_right-end p s t h =
    ap (λ r. reverse (trim_left p r)) (reverse-append s t)
    ∙ ap reverse (trim_left-all p (reverse t) (reverse s) (all-reverse p t h))

trim_right-last :
    (p : ℕ → Bool) (s : Text) (c : ℕ) → p c ≡ false → trim_right p (s ++ c ∷ []) ≡ s ++ c ∷ []
trim_right-last p s c h =
    rw (reverse-append s (c ∷ []), h)
      (ap reverse (sym (reverse-append s (c ∷ []))) ∙ reverse-reverse (s ++ c ∷ []))

trim_right-prefix : {path : Text} → IsPrefix path → trim_right is_slash path ≡ path
trim_right-prefix at_root = refl
trim_right-prefix (below q c h) = trim_right-last is_slash (b'/' ∷ q) c h

-- The path is what stands behind scheme and host, without the slashes at its end.
pub extract_path_prefix-print :
    (scheme host path slashes : Text)
    → all (λ c. not (c == b':')) scheme ≡ true
    → all (λ c. not (is_slash c)) host ≡ true
    → IsPrefix path
    → all is_slash slashes ≡ true
    → extract_path_prefix (scheme ++ (codes "://" ++ (host ++ (path ++ slashes)))) ≡ path
unfolding extract_path_prefix
extract_path_prefix-print scheme host path slashes s h p e =
    ap
      (λ o.
        trim_right is_slash
          (from_slash (or_else o (scheme ++ (codes "://" ++ (host ++ (path ++ slashes)))))))
      (after_scheme-scheme scheme (host ++ (path ++ slashes)) s)
    ∙ ap (trim_right is_slash)
        (from_slash-host host (path ++ slashes) h ∙ from_slash-prefix slashes p e)
    ∙ trim_right-end is_slash path slashes e
    ∙ trim_right-prefix p
