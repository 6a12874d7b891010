-- ===== src/Response/Cookies/Tests.antt =====
-- Cookies at concrete inputs.
use rustlette.Prelude.{
  ◌≡◌, refl, Bool, true, false, Option, none, some, [], ◌∷◌, ◌++◌, Text, codes, ℕ, text_eq_instance,
}
use rustlette.Prelude.Exec.{ok, err}
use rustlette.Prelude.Int.{ℤ, pos}
use rustlette.MultiDict.Dict
use rustlette.Headers.{RawHeaders}
use rustlette.Request.Cookies.{cookie_parser}
use rustlette.Request.Cookies.RoundTrip.{cookie_header, decoded}
use rustlette.Response.Cookies.{Attributes, set_cookie, delete_cookie, value_error}
use rustlette.Response.Cookies.RoundTrip.{stored, cookie_parser-set_cookie}

abbrev lax : Attributes
lax = record {
  max_age = some (pos 60);
  expires = none;
  path = some (codes "/");
  domain = none;
  secure = true;
  httponly = false;
  samesite = some (codes "lax");
  partitioned = false;
}

abbrev date : ℤ → Text
date n = codes "now"

abbrev format : ℕ → Text
format d = codes "then"

abbrev set_header : Text
set_header = codes "a=\"b\\073 c\"; Max-Age=60; Path=/; SameSite=lax; Secure"

abbrev sent_headers : RawHeaders
sent_headers = (codes "set-cookie", set_header) ∷ []

was_set :
    set_cookie date format false (codes "a") (codes "b; c") lax []
    ≡ ok ((codes "set-cookie", set_header) ∷ [])
unfolding set_cookie
was_set = refl

refused :
    set_cookie date format false (codes "a") [] (record lax { partitioned = true }) []
    ≡ err value_error
unfolding set_cookie
refused = refl

deleted :
    delete_cookie date format false (codes "a") lax []
    ≡ ok (
        (codes "set-cookie", codes "a=\"\"; expires=now; Max-Age=0; Path=/; SameSite=lax; Secure")
        ∷ [])
unfolding delete_cookie
deleted = refl

cookie_parser-set_cookie_example :
    (header : Text) × (sent_headers ≡ (codes "set-cookie", header) ∷ [])
    × (sent : Text × Text) × (stored header ≡ some sent)
    × (cookie_parser (cookie_header ((codes "x", codes "y") ∷ sent ∷ []))
        ≡ Dict.set
            (codes "a")
            (codes "b; c")
            (Dict.update [] (decoded ((codes "x", codes "y") ∷ []))))
unfolding rustlette.Prelude.is_space rustlette.Prelude.strip
cookie_parser-set_cookie_example =
    cookie_parser-set_cookie date format false (codes "a") (codes "b; c") lax [] sent_headers
      was_set ((codes "x", codes "y") ∷ []) refl ((refl, refl, refl, refl), tt)
