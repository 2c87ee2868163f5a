-- ===== src/Loading/Laws.antt =====
-- The language that the page shows, in every history of clicks and of responses.
use own_pastebin.Prelude.{
  Option, none, some, List, ◌∷◌, ◌≡◌, ◌∙◌, ap, ◌⊎◌, Bool-cases, text_eq, inl, inr, refl, All, Text,
  codes,
}
use own_pastebin.I18n.Translate.{Catalogue}
use own_pastebin.I18n.Language.{default_lang}
use own_pastebin.Expiry.{Seconds, format_expiry}
use own_pastebin.Page.{Env, say}
use own_pastebin.Menu.{Menu, set_text, labelled, yes_or_no, update_dropdown_labels}
use own_pastebin.Elements.Named.{AreDistinct, AreNamed, apply_translations-AreNamed}
use own_pastebin.Elements.Laws.{IsTranslated, apply_translations-IsTranslated}
use own_pastebin.Loading.{Client, flag_of, load_language, loaded, load_failed, init_i18n}

-- One wait for a file is over.
pub data Ends (lang : Text) : List Text → List Text → Type 0 where
  here : {ls : List Text} → Ends lang (lang ∷ ls) ls
  later : {l : Text} {ls rest : List Text} → Ends lang ls rest → Ends lang (l ∷ ls) (l ∷ rest)

-- `files` gives the catalogue that the server sends for a language.
module _ (number : Text → Seconds) (files : Text → Catalogue) where
  pub data Step : Client → Client → Type 0 where
    started :
        (languages : List Text) (language : Option Text) (c : Client)
        → Step c (init_i18n languages language c)
    clicked : (lang : Text) (c : Client) → Step c (load_language lang c)
    arrived :
        (lang : Text) (rest : List Text) (c : Client)
        → Ends lang c.loading rest
        → Step c (loaded number lang (files lang) (record c { loading = rest }))
    failed :
        (lang : Text) (rest : List Text) (c : Client)
        → Ends lang c.loading rest
        → Step c (load_failed lang (record c { loading = rest }))

  pub data Reach (c : Client) : Client → Type 0 where
    at_start : Reach c c
    and_then : {d e : Client} → Reach c d → Step d e → Reach c e

  -- The buttons of the menus, as far as they are there, name the choices in the words of the catalogue.
  pub record AreLabelled (env : Env) (m : Menu) : Type 0 where
    pub expiry :
        m.expiry_btn
        ≡ set_text
            (labelled
              (say env (codes "label-expires"))
              (format_expiry env (number m.settings.expiry)))
            m.expiry_btn
    pub burn :
        m.burn_btn
        ≡ set_text
            (labelled (say env (codes "label-burn")) (yes_or_no env m.settings.burn))
            m.burn_btn
    pub protected :
        m.protected_btn
        ≡ set_text
            (labelled (say env (codes "label-protected")) (yes_or_no env m.settings.protected))
            m.protected_btn

  -- Everything that depends on the language belongs to this language.
  pub record Speaks (lang : Text) (c : Client) : Type 0 where
    pub catalogue_shown : c.env.catalogue ≡ files lang
    pub elements_shown : All (IsTranslated (files lang)) c.elements
    pub ids_shown : AreNamed (files lang) c.elements
    pub labels_shown : AreLabelled c.env c.menu
    pub lang_stored : c.stored ≡ some lang
    pub flag_shown : c.flag ≡ set_text (flag_of lang) c.flag
    pub html_shown : c.html_lang ≡ lang

  -- Nothing but the queue has changed.
  abbrev pub IsUnchanged : Client → Client → Type 0
  IsUnchanged c d = d ≡ record c { loading = d.loading }

  abbrev pub with_queue : List Text → Client → Client
  with_queue ls c = record c { loading = ls }

  set_text_twice :
      (text : Text) (b : Option Text) → set_text text b ≡ set_text text (set_text text b)
  set_text_twice text none = refl
  set_text_twice text (some _) = refl

  update-AreLabelled :
      (env : Env) (m : Menu) → AreLabelled env (update_dropdown_labels env number m)
  unfolding update_dropdown_labels
  update-AreLabelled env m = record {
    expiry = set_text_twice _ m.expiry_btn;
    burn = set_text_twice _ m.burn_btn;
    protected = set_text_twice _ m.protected_btn;
  }

  loaded-Speaks :
      (lang : Text) (c : Client)
      → AreDistinct (files lang)
      → Speaks lang (loaded number lang (files lang) c)
  unfolding loaded
  loaded-Speaks lang c d = record {
    catalogue_shown = refl;
    elements_shown = apply_translations-IsTranslated (files lang) c.elements;
    ids_shown = apply_translations-AreNamed (files lang) c.elements d;
    labels_shown = update-AreLabelled (record (c.env) { catalogue = files lang }) c.menu;
    lang_stored = refl;
    flag_shown = set_text_twice (flag_of lang) c.flag;
    html_shown = refl;
  }

  failed-IsUnchanged :
      (lang : Text) (rest : List Text) (c : Client)
      → IsUnchanged c (load_failed lang (record c { loading = rest }))
  unfolding load_failed load_language
  failed-IsUnchanged lang rest c = elim (Bool-cases (text_eq lang default_lang)) [
    | inl e ↦ rw e refl
    | inr e ↦ rw e refl
  ]

  Speaks-queue :
      {lang : Text} (c : Client) (ls : List Text)
      → Speaks lang c
      → Speaks lang (record c { loading = ls })
  Speaks-queue c ls v = record {
    catalogue_shown = v.catalogue_shown;
    elements_shown = v.elements_shown;
    ids_shown = v.ids_shown;
    labels_shown = v.labels_shown;
    lang_stored = v.lang_stored;
    flag_shown = v.flag_shown;
    html_shown = v.html_shown;
  }

  module _ (distinct : (lang : Text) → AreDistinct (files lang)) where
    one_more : {c d : Client} → Step c d → IsUnchanged c d ⊎ ((lang : Text) × Speaks lang d)
    unfolding init_i18n load_language
    one_more (started languages language c) = inl refl
    one_more (clicked lang c) = inl refl
    one_more (arrived lang rest c _) =
        inr (lang, loaded-Speaks lang (record c { loading = rest }) (distinct lang))
    one_more (failed lang rest c _) = inl (failed-IsUnchanged lang rest c)

    -- After any history of starts, clicks on a language, arrivals and failures, in any order: either no
    -- file has arrived and nothing but the queue of the requests has changed, or there is one language to
    -- which all of this belongs: the catalogue; the texts that the attributes of the elements name; the
    -- text of the first element with a key of the catalogue as its id, if its attribute names none; the
    -- labels of the three menus' buttons, with their choices; the stored language; the
    -- text of the language button, if there is one; and the language of the document. (In no
    -- catalogue a key stands twice.)
    pub one_language :
        (start c : Client) → Reach start c → IsUnchanged start c ⊎ ((lang : Text) × Speaks lang c)
    one_language start _ at_start = inl refl
    one_language start c (and_then {d} r s) = elim (one_more s) [
      | inr v ↦ inr v
      | inl e ↦ elim (one_language start d r) [
        | inl u ↦ inl (e ∙ ap (with_queue c.loading) u)
        | inr (lang, v) ↦ inr (lang, rw e (Speaks-queue d c.loading v))
      ]
    ]
