-- ===== src/Server/Http/Toy.antt =====
-- A router that keeps the laws, and a site.
use own_pastebin.Prelude.{
  ◌≡◌, ◌⊎◌, inl, inr, refl, Bool-cases, Option-cases, Option, none, some, List, [], ◌∷◌, Text,
  codes, text_eq,
}
use own_pastebin.Server.Ttl.{pos}
use own_pastebin.Server.Routes.Read.{all_answered}
use own_pastebin.Server.Routes.Toy.{server, upload}
use own_pastebin.Server.Http.{Method, Request, Site}
use own_pastebin.Server.Http.Mux.{Pattern, exact, with_id, fits, fitting, fitting_exactly, Mux}

module _ {A : Type 0} where
  abbrev pub head : List (A × Text) → Option (A × Text)
  head [] = none
  head (x ∷ xs) = some x

  abbrev pub first : List (A × Text) → List (A × Text) → Option (A × Text)
  first [] fit = head fit
  first (x ∷ xs) fit = some x

  abbrev pub route : List (Pattern × A) → Text → Option (A × Text)
  route rs path = first (fitting_exactly path rs) (fitting path rs)

  none_fits :
      (rs : List (Pattern × A)) (path : Text) → fitting path rs ≡ [] → fitting_exactly path rs ≡ []
  none_fits [] path h = refl
  none_fits ((exact p, a) ∷ rs) path h = elim (Bool-cases (text_eq p path)) [
    | inl e ↦ absurd (cc (rw e at h))
    | inr e ↦ rw e (none_fits rs path (rw e at h))
  ]
  none_fits ((with_id p, a) ∷ rs) path h = elim (Option-cases (fits (with_id p) path)) [
    | inl e ↦ none_fits rs path (rw e at h)
    | inr (id, e) ↦ absurd (cc (rw e at h))
  ]

  only_fits :
      (rs : List (Pattern × A)) (path : Text) (x : A × Text)
      → fitting path rs ≡ x ∷ []
      → (fitting_exactly path rs ≡ []) ⊎ (fitting_exactly path rs ≡ x ∷ [])
  only_fits [] path x h = inl refl
  only_fits ((exact p, a) ∷ rs) path x h = elim (Bool-cases (text_eq p path)) [
    | inl e ↦
        let q : (a, []) ∷ fitting path rs ≡ x ∷ [] = rw e at h in
        inr (rw (e, none_fits rs path (cc q)) (cc q))
    | inr e ↦ rw e (only_fits rs path x (rw e at h))
  ]
  only_fits ((with_id p, a) ∷ rs) path x h = elim (Option-cases (fits (with_id p) path)) [
    | inl e ↦ only_fits rs path x (rw e at h)
    | inr (id, e) ↦
        let q : (a, id) ∷ fitting path rs ≡ x ∷ [] = rw e at h in inl (none_fits rs path (cc q))
  ]

  pub route-exact :
      (rs : List (Pattern × A)) (path : Text) (a : A)
      → fitting_exactly path rs ≡ (a, []) ∷ []
      → route rs path ≡ some (a, [])
  route-exact rs path a e = rw e refl

  pub route-only :
      (rs : List (Pattern × A)) (path id : Text) (a : A)
      → fitting path rs ≡ (a, id) ∷ []
      → route rs path ≡ some (a, id)
  route-only rs path id a e = elim (only_fits rs path (a, id) e) [
    | inl q ↦ rw (q, e) refl
    | inr q ↦ rw q refl
  ]

  pub route-none :
      (rs : List (Pattern × A)) (path : Text) → fitting path rs ≡ [] → route rs path ≡ none
  route-none rs path e = rw (none_fits rs path e, e) refl

abbrev pub mux : Mux
mux = record {
  route = λ {A}. route {A = A};
  routes_exact = λ rs path a e. route-exact rs path a e;
  routes_only = λ rs path id a e. route-only rs path id a e;
  routes_none = λ rs path e. route-none rs path e;
}

abbrev pub site : Site
site = record {
  app = record server { base_url = codes "http://localhost/p" };
  path_prefix = codes "/p";
  origin = codes "http://localhost";
  default_ttl = pos 0;
  expiry_options = [];
  trusted_proxy = none;
}

-- The same with a slash at the end of the base URL.
abbrev pub slashed : Site
slashed = record site { app = record server { base_url = codes "http://localhost/p/" } }

abbrev pub request : Method → Text → Request
request method path = record {
  method = method;
  path = path;
  raw_path = [];
  raw_query = [];
  upload = upload (codes "hi");
  answers = all_answered;
  sender = record { remote = codes "1.2.3.4:1"; forwarded = [] };
}
