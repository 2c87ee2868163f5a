-- ===== src/Server/Log/Laws.antt =====
-- What attaching attributes means, and what a value with a line end does to the log.
use own_pastebin.Prelude.{
  ◌≡◌, refl, sym, subst, ◌∙◌, ap, false, Bool-cases, inl, inr, Option, none, some, List, [], ◌∷◌,
  ◌++◌, append_assoc, append-nil, Text, codes, text_eq, text_eq_sound, All,
}
use mathlib.Core.Path.{fun_ext}
use own_pastebin.Server.Log.{
  Value, string, Attr, Record, Written, Entry, component_of, written, write_attrs, shown,
  text_handle, with_attrs, put, noted, note_attrs, with_message, json_handle, line, level_string,
}

write_attrs-append :
    (w : Written) (xs ys : List Attr) → write_attrs w (xs ++ ys) ≡ write_attrs (write_attrs w xs) ys
unfolding write_attrs
write_attrs-append w [] ys = refl
write_attrs-append w (a ∷ xs) ys = write_attrs-append (written w a (component_of a)) xs ys

note_attrs-append :
    (e : Entry) (xs ys : List Attr) → note_attrs e (xs ++ ys) ≡ note_attrs (note_attrs e xs) ys
unfolding note_attrs
note_attrs-append e [] ys = refl
note_attrs-append e (a ∷ xs) ys = note_attrs-append (noted e a (component_of a)) xs ys

-- An attribute's key is not the one under which the message stands.
abbrev pub IsNoMessage : Attr → Type 0
IsNoMessage a = text_eq a.key (codes "message") ≡ false

put_comm :
    (k : Text) (v : Value) (s : Text) (m : Text → Option Value)
    → text_eq k (codes "message") ≡ false
    → put k v (put (codes "message") (string s) m) ≡ put (codes "message") (string s) (put k v m)
put_comm k v s m h = fun_ext λ j. elim (Bool-cases (text_eq j k)) [
  | inl e ↦
      let q : text_eq j (codes "message") ≡ false =
        ap (λ t. text_eq t (codes "message")) (text_eq_sound j k e) ∙ h in
      simp (e, q)
  | inr e ↦ simp e
]

noted-with_message :
    (s : Text) (e : Entry) (a : Attr) (c : Option Text)
    → IsNoMessage a
    → noted (with_message s e) a c ≡ with_message s (noted e a c)
noted-with_message s e a none h =
    ap (λ m. record { component = e.component; msg = m }) (put_comm a.key a.value s e.msg h)
noted-with_message s e a (some c) h = refl

note_attrs-with_message :
    (s : Text) (e : Entry) (xs : List Attr)
    → All IsNoMessage xs
    → note_attrs (with_message s e) xs ≡ with_message s (note_attrs e xs)
unfolding note_attrs
note_attrs-with_message s e [] h = refl
note_attrs-with_message s e (a ∷ xs) (h, hs) =
    ap (λ d. note_attrs d xs) (noted-with_message s e a (component_of a) h)
    ∙ note_attrs-with_message s (noted e a (component_of a)) xs hs

-- A handler with attributes attached writes each record as the handler without them writes the
-- record that begins with these attributes: the text handler always, and the JSON handler if none
-- of them has the key "message".
pub handle-with_attrs :
    (attached xs : List Attr) (r : Record)
    → All IsNoMessage xs
    → (text_handle (with_attrs attached xs) r
        ≡ text_handle attached (record r { attrs = xs ++ r.attrs }))
      × (json_handle (with_attrs attached xs) r
          ≡ json_handle attached (record r { attrs = xs ++ r.attrs }))
unfolding text_handle json_handle with_attrs
handle-with_attrs attached xs r h =
    let start : Written = (codes "pastebin", []) in
    let empty : Entry = record { component = codes "pastebin"; msg = λ k. none } in
    (
      ap (λ w. line r (write_attrs w r.attrs)) (write_attrs-append start attached xs)
          ∙ ap (line r) (sym (write_attrs-append (write_attrs start attached) xs r.attrs)),
      ap (λ e. note_attrs (with_message r.message e) r.attrs) (note_attrs-append empty attached xs)
          ∙ ap (λ e. note_attrs e r.attrs)
              (sym (note_attrs-with_message r.message (note_attrs empty attached) xs h))
          ∙ sym (note_attrs-append (with_message r.message (note_attrs empty attached)) xs r.attrs),
    )

-- The text grows at its end.
abbrev Extends : Text → Written → Type 0
Extends out w = (more : Text) × (w.1 ≡ out ++ more)

written-Extends : (w : Written) (a : Attr) (c : Option Text) → Extends w.1 (written w a c)
written-Extends (component, out) a none = (b' ' ∷ a.key ++ b'=' ∷ shown a.value, refl)
written-Extends (component, out) a (some c) = ([], sym (append-nil out))

write_attrs-Extends : (w : Written) (xs : List Attr) → Extends w.1 (write_attrs w xs)
unfolding write_attrs
write_attrs-Extends w [] = ([], sym (append-nil w.1))
write_attrs-Extends w (a ∷ xs) =
    let (more, e) = written-Extends w a (component_of a) in
    let (rest, q) = write_attrs-Extends (written w a (component_of a)) xs in
    (more ++ rest, q ∙ ap (λ t. t ++ rest) e ∙ append_assoc w.1 more rest)

-- A line stands in a text between two line ends.
abbrev pub HasLine : Text → Text → Type 0
HasLine s text = (before : Text) × (after : Text) × (text ≡ before ++ (10 ∷ s ++ 10 ∷ after))

HasLine-behind : (s u t : Text) → HasLine s t → HasLine s (u ++ t)
HasLine-behind s u t (before, after, e) =
    (u ++ before, after, ap (λ x. u ++ x) e ∙ sym (append_assoc u before (10 ∷ s ++ 10 ∷ after)))

HasLine-before : (s t u : Text) → HasLine s t → HasLine s (t ++ u)
HasLine-before s t u (before, after, e) = (
  before,
  after ++ u,
  ap (λ x. x ++ u) e
      ∙ append_assoc before (10 ∷ s ++ 10 ∷ after) u
      ∙ ap (λ x. before ++ (10 ∷ x)) (append_assoc s (10 ∷ after) u),
)

HasLine-value : (s p q : Text) → HasLine s (p ++ (10 ∷ s ++ 10 ∷ q))
HasLine-value s p q = (p, q, refl)

HasLine-Extends : (s out : Text) (w : Written) → Extends out w → HasLine s out → HasLine s w.1
HasLine-Extends s out w (more, e) h = subst (HasLine s) (sym e) (HasLine-before s out more h)

HasLine-line : (s : Text) (r : Record) (w : Written) → HasLine s w.1 → HasLine s (line r w)
HasLine-line s r (component, out) h = HasLine-behind s r.time _ (
    HasLine-behind s (codes " - ") _ (
      HasLine-behind s (level_string r.level) _ (
        HasLine-behind s (codes " - ") _ (
          HasLine-behind s component _ (
            HasLine-behind s (codes " - ") _
              (HasLine-behind s r.message _ (HasLine-before s out (10 ∷ []) h)))))))

written-HasLine :
    (w : Written) (a : Attr) (s p q : Text)
    → shown a.value ≡ p ++ (10 ∷ s ++ 10 ∷ q)
    → HasLine s (written w a none).1
written-HasLine (component, out) a s p q e = HasLine-behind s out _ (
    HasLine-behind s (b' ' ∷ a.key) _
      (HasLine-behind s (b'=' ∷ []) _ (subst (HasLine s) (sym e) (HasLine-value s p q))))

-- The text handler writes a value as it is: a value that holds a text between two line ends puts
-- this text into the log as a line of its own.
pub text_handle-HasLine :
    (attached : List Attr) (r : Record) (xs : List Attr) (a : Attr) (ys : List Attr) (s p q : Text)
    → r.attrs ≡ xs ++ a ∷ ys
    → component_of a ≡ none
    → shown a.value ≡ p ++ (10 ∷ s ++ 10 ∷ q)
    → HasLine s (text_handle attached r)
unfolding text_handle write_attrs
text_handle-HasLine attached r xs a ys s p q e plain v =
    let start : Written = write_attrs (codes "pastebin", []) attached in
    let reached : Written = write_attrs start xs in
    let rest = written reached a none in
    let whole : write_attrs start r.attrs ≡ write_attrs rest ys =
      ap (write_attrs start) e
      ∙ write_attrs-append start xs (a ∷ ys)
      ∙ ap (λ c. write_attrs (written reached a c) ys) plain in
    HasLine-line s r (write_attrs start r.attrs) (
      subst (λ w. HasLine s w.1) (sym whole)
        (HasLine-Extends s rest.1 (write_attrs rest ys) (write_attrs-Extends rest ys)
          (written-HasLine reached a s p q v)))
