-- ===== src/Elements/Named.antt =====
-- The texts that `applyTranslations` sets by id.
use mathlib.Core.Option
use own_pastebin.Prelude.{
  ◌≡◌, ◌∙◌, refl, sym, ap, subst, true, false, Bool-cases, inl, inr, Option, none, some, List, [],
  ◌∷◌, if◌then◌else◌, map, Text, text_eq, text_eq_sound,
}
use own_pastebin.I18n.Translate.{Catalogue, find_text}
use own_pastebin.Elements.{
  Element, has_id, set_by_id, set_ids, translated, set_placeholder, set_title, set_aria_label,
  set_content, apply_translations,
}

-- `getElementById`: the first element with the id.
abbrev pub find_id : Text → List Element → Option Element
find_id key [] = none
find_id key (e ∷ es) = if has_id key e.id then some e else find_id key es

-- No key stands twice, as in a JSON object.
abbrev pub AreDistinct : Catalogue → Type 0
AreDistinct [] = Unit
AreDistinct ((key, text) ∷ entries) = (find_text key entries ≡ none) × AreDistinct entries

-- An element under a key of the catalogue shows its text, if the attribute `data-i18n` gives no other.
abbrev pub ShowsNamed : Catalogue → Option Text → Option Element → Type 0
ShowsNamed translations none found = Unit
ShowsNamed translations (some text) none = Unit
ShowsNamed translations (some text) (some e) = e.content ≡ translated translations e.i18n text

abbrev pub AreNamed : Catalogue → List Element → Type 0
AreNamed translations es =
    (key : Text) → ShowsNamed translations (find_text key translations) (find_id key es)

abbrev with_content : Text → Element → Element
with_content text e = record e { content = text }

has_id-other :
    (j k : Text) (o : Option Text) → text_eq j k ≡ false → has_id j o ≡ true → has_id k o ≡ false
has_id-other j k none h e = refl
has_id-other j k (some i) h e = ap (λ t. text_eq t k) (text_eq_sound i j e) ∙ h

find_id-same :
    (key text : Text) (es : List Element)
    → find_id key (set_by_id key text es) ≡ Option.map (with_content text) (find_id key es)
unfolding set_by_id
find_id-same key text [] = refl
find_id-same key text (e ∷ es) = elim (Bool-cases (has_id key e.id)) [
  | inl h ↦ rw (h, h) refl
  | inr h ↦ rw (h, h) (find_id-same key text es)
]

find_id-other :
    (j key text : Text) (es : List Element)
    → text_eq j key ≡ false
    → find_id key (set_by_id j text es) ≡ find_id key es
unfolding set_by_id
find_id-other j key text [] d = refl
find_id-other j key text (e ∷ es) d = elim (Bool-cases (has_id j e.id)) [
  | inl h ↦ let other = has_id-other j key e.id d h in rw (h, other) refl
  | inr h ↦ rw h (ap (λ o. if has_id key e.id then some e else o) (find_id-other j key text es d))
]

-- What the loop over the keys leaves under one of them.
abbrev named : Option Text → Option Element → Option Element
named none found = found
named (some text) found = Option.map (with_content text) found

find_id-set_ids :
    (key : Text) (entries : Catalogue) (es : List Element)
    → AreDistinct entries
    → find_id key (set_ids entries es) ≡ named (find_text key entries) (find_id key es)
unfolding set_ids find_text
find_id-set_ids key [] es d = refl
find_id-set_ids key ((k, text) ∷ entries) es (once, d) =
    find_id-set_ids key entries (set_by_id k text es) d ∙ elim (Bool-cases (text_eq k key)) [
      | inl same ↦
          let k_is : k ≡ key = text_eq_sound k key same in
          let last : find_text key entries ≡ none =
            ap (λ t. find_text t entries) (sym k_is) ∙ once in
          rw (last, same)
            (ap (λ t. find_id key (set_by_id t text es)) k_is ∙ find_id-same key text es)
      | inr other ↦
          rw other (ap (named (find_text key entries)) (find_id-other k key text es other))
    ]

find_id-map :
    (f : Element → Element) (key : Text) (es : List Element)
    → ((e : Element) → (f e).id ≡ e.id)
    → find_id key (map f es) ≡ Option.map f (find_id key es)
find_id-map f key [] h = refl
find_id-map f key (e ∷ es) h = elim (Bool-cases (has_id key e.id)) [
  | inl q ↦ let same = ap (has_id key) (h e) ∙ q in rw (same, q) refl
  | inr q ↦ let same = ap (has_id key) (h e) ∙ q in rw (same, q) (find_id-map f key es h)
]

module _ (translations : Catalogue) where
  -- The four loops over the attributes.
  abbrev by_attributes : Element → Element
  by_attributes e =
      set_content translations
        (set_aria_label translations (set_title translations (set_placeholder translations e)))

  loops_as_one :
      (es : List Element)
      → map (set_content translations) (
          map
            (set_aria_label translations)
            (map (set_title translations) (map (set_placeholder translations) es)))
        ≡ map by_attributes es
  loops_as_one [] = refl
  loops_as_one (e ∷ es) = ap (λ r. by_attributes e ∷ r) (loops_as_one es)

  by_attributes-id : (e : Element) → (by_attributes e).id ≡ e.id
  unfolding set_content set_aria_label set_title set_placeholder
  by_attributes-id e = refl

  shown :
      (text : Option Text) (found : Option Element)
      → ShowsNamed translations text (Option.map by_attributes (named text found))
  unfolding set_content set_aria_label set_title set_placeholder
  shown none found = tt
  shown (some text) none = tt
  shown (some text) (some e) = refl

  -- After `applyTranslations` with a catalogue in which no key stands twice, on any elements: the first
  -- element that has a key of the catalogue as its id shows the text of the key, or the one that its
  -- attribute `data-i18n` asks for.
  pub apply_translations-AreNamed :
      (es : List Element)
      → AreDistinct translations
      → AreNamed translations (apply_translations translations es)
  unfolding apply_translations
  apply_translations-AreNamed es d = λ key.
      let found : find_id key (apply_translations translations es)
          ≡ Option.map by_attributes (named (find_text key translations) (find_id key es)) =
        ap (find_id key) (loops_as_one (set_ids translations es))
        ∙ find_id-map by_attributes key (set_ids translations es) by_attributes-id
        ∙ ap (Option.map by_attributes) (find_id-set_ids key translations es d) in
      subst (ShowsNamed translations (find_text key translations)) (sym found)
        (shown (find_text key translations) (find_id key es))
