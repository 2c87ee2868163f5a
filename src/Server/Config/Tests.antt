-- ===== src/Server/Config/Tests.antt =====
-- Settings at an input.
use own_pastebin.Prelude.{◌*◌, ◌≡◌, refl, arith, true, false, some, [], ◌∷◌, ◌++◌, All, codes}
use own_pastebin.Page.{decimal}
use own_pastebin.Server.Ttl.{pos, negsuc, nanoseconds, requested_ttl, resolve_ttl}
use own_pastebin.Server.Config.{
  hour, parse_time, parse_size, extract_path_prefix, parse_expiry_times, expiry_times, get_env_bool,
}
use own_pastebin.Server.Config.Options.{IsOffered, menu-IsOffered}
use own_pastebin.Server.Config.Prefix.{below, extract_path_prefix-print}
use own_pastebin.Server.Config.Time.{days, parse_time-print, unknown_unit-resolve_ttl}
use own_pastebin.Server.Config.Page.{default_expiry, default_expiry-requested}
use own_pastebin.Server.Routes.{App, handle_create}
use own_pastebin.Server.Routes.Limit.{IsTurnedAway, unknown_size-refused}
use own_pastebin.Server.Routes.Toy.{server, upload}
use own_pastebin.Server.Config.Size.{mega, IsUnknown, parse_size-print}

extract_path_prefix-print_test : extract_path_prefix (codes "http://h:80/a/b//") ≡ codes "/a/b"
extract_path_prefix-print_test =
    extract_path_prefix-print (codes "http") (codes "h:80") (codes "/a/b") (codes "//") refl refl
      (below (codes "a/") b'b' refl) refl

parse_time-print_test : parse_time (decimal 7 ++ codes "d") ≡ pos (7 * (24 * hour))
parse_time-print_test = parse_time-print 7 days (omega arith) (omega arith)

unknown_unit-resolve_ttl_test :
    resolve_ttl (parse_time (decimal 2 ++ codes "w")) (pos nanoseconds) ≡ pos nanoseconds
unknown_unit-resolve_ttl_test = unknown_unit-resolve_ttl 2 b'w' (pos nanoseconds) (omega arith) refl

parse_size-print_test : parse_size (decimal 5 ++ codes "MB") ≡ pos 5242880
parse_size-print_test = parse_size-print 5 mega (omega arith) (omega arith)

default_expiry-requested_example :
    requested_ttl (default_expiry (parse_time (decimal 2 ++ codes "d")))
    ≡ some (pos (2 * (24 * hour)))
default_expiry-requested_example = default_expiry-requested 2 days (omega arith)

menu-IsOffered_test :
    All IsOffered (expiry_times (parse_expiry_times (codes "\"Never:0, 5 min: 300,bad,x:-1\"")))
menu-IsOffered_test = menu-IsOffered (codes "\"Never:0, 5 min: 300,bad,x:-1\"")

two_options :
    parse_expiry_times (codes "\"Never:0, 5 min: 300,bad,x:-1\"")
    ≡ record { label = codes "Never"; value = codes "0" }
      ∷ record { label = codes "5 min"; value = codes "300" }
      ∷ []
unfolding parse_expiry_times own_pastebin.Server.Strings.is_go_space
    own_pastebin.Server.Ttl.parse_int
two_options = refl

spaces_and_capitals : parse_time (codes " 1MO ") ≡ pos (720 * hour)
unfolding parse_time own_pastebin.Server.Strings.is_go_space
    own_pastebin.Server.Strings.strip_suffix own_pastebin.Server.Ttl.to_int64
    own_pastebin.Server.Config.magnitude
spaces_and_capitals = refl

off : get_env_bool (codes "No") true ≡ false
unfolding get_env_bool
off = refl

abbrev closed : App
closed = record server { max_paste_size = 0 }

five_mib : IsUnknown 5 b'm' (codes "ib")
unfolding own_pastebin.Server.Strings.is_go_space own_pastebin.Server.Strings.strip_suffix decimal
    own_pastebin.Page.digits_from
five_mib = record {
  no_digit = refl;
  solid = refl;
  not_giga = refl;
  not_mega = refl;
  not_kilo = refl;
}

unknown_size-refused_example :
    IsTurnedAway (handle_create closed 0 (upload (codes "hi")) []).0
    × ((handle_create closed 0 (upload (codes "hi")) []).1 ≡ [])
unfolding parse_size own_pastebin.Server.Strings.is_go_space
    own_pastebin.Server.Strings.strip_suffix own_pastebin.Server.Ttl.to_int64
    own_pastebin.Server.Config.magnitude decimal own_pastebin.Page.digits_from
unknown_size-refused_example =
    unknown_size-refused closed 0 5 b'm' (codes "ib") (upload (codes "hi")) [] (omega arith)
      five_mib refl
