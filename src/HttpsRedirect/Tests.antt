-- ===== src/HttpsRedirect/Tests.antt =====
-- The middleware at concrete inputs.
use rustlette.Prelude.{◌≡◌, refl, true, false, Bool, none, some, [], ◌∷◌, Text, codes, inl, inr}
use rustlette.Prelude.Exec.{ok}
use rustlette.Routing.Scope.{Scope, http}
use rustlette.HttpsRedirect.{redirect_url, handling, answered, is_connection}
use rustlette.Response.{redirect_response}
use rustlette.HttpsRedirect.Location.{handling_secure}

abbrev scope_for : (host : Text) → Scope
scope_for host = record {
  kind = http;
  method = codes "GET";
  scheme = codes "http";
  server = none;
  path = codes "/a";
  root_path = [];
  app_root_path = none;
  query_string = codes "b=c";
  headers = (codes "host", host) ∷ [];
  path_params = [];
  endpoint = none;
  in_app = false;
}

abbrev any_netloc : Text → Bool
any_netloc netloc = true

handling_secure_example :
    handling any_netloc (λ url. url) (scope_for (codes "x.org:80"))
    ≡ answered any_netloc (λ url. url) (redirect_response (codes "https://x.org/a?b=c") 307)
unfolding rustlette.Headers.get_raw rustlette.Prelude.text_eq rustlette.Url.Authority.port_suffix
    rustlette.Prelude.is_nil rustlette.Url.Authority.is_name_char rustlette.Url.RoundTrip.is_plain
    rustlette.Url.Address.address rustlette.Url.RoundTrip.plain_text
    rustlette.HttpsRedirect.Location.secure rustlette.HttpsRedirect.Location.shown_port
    is_connection
handling_secure_example =
    handling_secure any_netloc (scope_for (codes "x.org:80")) (codes "x.org") (some 80) refl refl
      refl refl (inl refl) refl refl refl (λ url. url) refl

-- The brackets of an address are lost with a default port.
without_brackets :
    redirect_url any_netloc (scope_for (codes "[::1]:80")) ≡ ok (codes "https://::1/a?b=c")
unfolding redirect_url
without_brackets = refl

other_port :
    redirect_url any_netloc (scope_for (codes "x.org:8000")) ≡ ok (codes "https://x.org:8000/a?b=c")
unfolding redirect_url
other_port = refl
