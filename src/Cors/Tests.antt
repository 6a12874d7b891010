-- ===== src/Cors/Tests.antt =====
-- Runs of the middleware, and its theorems at concrete inputs.
use rustlette.Prelude.{
  ◌≡◌, refl, true, false, none, some, [], ◌∷◌, codes, text_eq, text_eq_instance, text_in,
  starts_with, contains_text, join, ◌&&◌, if◌then◌else◌,
}
use rustlette.Prelude.Decimal.{str}
use rustlette.Prelude.Exec.{ok}
use rustlette.Headers.{RawHeaders, get_raw}
use rustlette.Headers.Encoding.{header_name, lower_char, encode}
use rustlette.Response.{Response}
use rustlette.Cors.{Settings, init, preflight, start_headers, is_allowed_origin}
use rustlette.Cors.Simple.{get_raw-start_headers}
use rustlette.Cors.Preflight.{status_code-preflight, are_allowed}

abbrev settings : Settings
settings = record {
  allow_origins = codes "https://a.b" ∷ [];
  allow_methods = codes "GET" ∷ [];
  allow_headers = codes "X-Id" ∷ [];
  allow_credentials = false;
  allow_origin_regex = none;
  expose_headers = [];
  max_age = 600;
}

abbrev answered_headers : RawHeaders
answered_headers =
    (codes "access-control-allow-origin", codes "https://a.b") ∷ (codes "vary", codes "Origin") ∷ []

started : start_headers (init settings) (codes "https://a.b") true [] ≡ ok answered_headers
unfolding start_headers init text_eq text_in header_name lower_char encode
started = refl

get_raw-start_headers_example : get_raw (codes "access-control-allow-origin") answered_headers ≡ (
    if text_in (codes "*") settings.allow_origins
    then some (if true then codes "https://a.b" else codes "*")
    else if is_allowed_origin (init settings) (codes "https://a.b")
    then some (codes "https://a.b")
    else get_raw (codes "access-control-allow-origin") [])
get_raw-start_headers_example = get_raw-start_headers settings (codes "https://a.b") true [] started

abbrev rejected : Response
rejected = record {
  status_code = 400;
  body = codes "Disallowed CORS origin";
  raw_headers =
      (codes "vary", codes "Origin")
      ∷ (codes "access-control-allow-methods", codes "GET")
      ∷ (codes "access-control-max-age", codes "600")
      ∷ (
        codes "access-control-allow-headers",
        codes "Accept, Accept-Language, Content-Language, Content-Type, X-Id",
      )
      ∷ (codes "content-length", codes "22")
      ∷ (codes "content-type", codes "text/plain; charset=utf-8")
      ∷ [];
}

refused : preflight (init settings) (codes "https://c.d") (codes "GET") none ≡ ok rejected
unfolding preflight init text_eq text_in header_name lower_char encode join str starts_with
    contains_text
refused = refl

status_code-preflight_example : rejected.status_code ≡ (
    if is_allowed_origin (init settings) (codes "https://c.d")
      && text_in (codes "GET") (init settings).allow_methods
      && are_allowed (init settings) none
    then 200
    else 400)
status_code-preflight_example =
    status_code-preflight (init settings) (codes "https://c.d") (codes "GET") none rejected refused
