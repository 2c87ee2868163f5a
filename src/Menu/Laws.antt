-- ===== src/Menu/Laws.antt =====
-- What the menus choose is what the page posts, and relabelling changes no choice.
use own_pastebin.Prelude.{Bool, Option, some, ◌≡◌, refl, Text, codes}
use own_pastebin.Url.Params.{read_query}
use own_pastebin.Url.Printed.{IsPlain}
use own_pastebin.Page.{Env}
use own_pastebin.Expiry.{Seconds}
use own_pastebin.Flash.Laws.{IsPrefix}
use own_pastebin.Send.{Settings, send_uri, post_uri}
use own_pastebin.Send.Query.{ArePlain, IsPlainOption, post_uri-read_query}
use own_pastebin.Menu.{
  Link, Menu, choose_expiry, choose_protected, choose_burn, update_dropdown_labels,
}

-- The three choices, one after the other, and then a change of the language.
abbrev pub choose_all : Env → Env → (Text → Seconds) → Link → Link → Link → Menu → Menu
choose_all env env' number expiry burn protected m = update_dropdown_labels env' number (
    choose_protected env (some protected)
      (choose_burn env (some burn) (choose_expiry env (some expiry) m)))

module _ (env env' : Env) (number : Text → Seconds) (expiry burn protected : Link) (m : Menu) where
  chosen_settings :
      (choose_all env env' number expiry burn protected m).settings
      ≡ record { expiry = expiry.value; burn = burn.value; protected = protected.value }
  unfolding choose_expiry choose_protected choose_burn update_dropdown_labels
  chosen_settings = refl

  -- After a choice in each of the three menus, and a relabelling in another language, in the
  -- address of the POST stand, as they are, the values of the three links that were chosen; for a prefix
  -- without `?`, `#`, `=`, and values and a language without `&`, `#`, `?`, `=`, `$`, line ends.
  pub choose_all-read_query :
      (prefix : Text) (lang : Option Text) (mark : Bool)
      → IsPrefix prefix
      → IsPlain expiry.value
      → IsPlain burn.value
      → IsPlain protected.value
      → IsPlainOption lang
      → (read_query (codes "ttl") (
            post_uri
              (send_uri prefix lang (choose_all env env' number expiry burn protected m).settings)
              mark)
          ≡ some expiry.value)
        × (read_query (codes "burn") (
              post_uri
                (send_uri prefix lang (choose_all env env' number expiry burn protected m).settings)
                mark)
            ≡ some burn.value)
        × (read_query (codes "protected") (
              post_uri
                (send_uri prefix lang (choose_all env env' number expiry burn protected m).settings)
                mark)
            ≡ some protected.value)
  choose_all-read_query prefix lang mark hp he hb hr hl =
      let settings : Settings = record {
        expiry = expiry.value;
        burn = burn.value;
        protected = protected.value;
      } in
      let plain : ArePlain settings = record { expiry = he; burn = hb; protected = hr } in
      let (l, t, b, p, e) = post_uri-read_query prefix lang settings mark hp plain hl in
      rw chosen_settings (t, b, p)
