-- ===== src/Url/Tests.antt =====
-- URLs at concrete inputs.
use rustlette.Prelude.{◌≡◌, refl, true, false, Bool, Option, none, some, List, [], ◌∷◌, Text, codes}
use rustlette.Prelude.Exec.{ok}
use rustlette.Routing.Scope.{Scope, http}
use rustlette.Routing.Pattern.{Compiled, literal}
use rustlette.Routing.UrlPath.Named.{UrlPath, NamedRoutes, named_route, no_routes, then_routes}
use rustlette.Url.Absolute.{url_for}
use rustlette.Url.Absolute.Found.{url_for_lem}
use rustlette.Url.Query.{remove_query_params}
use rustlette.Url.Query.Removed.{remove_query_params_lem}
use rustlette.Url.{Components, urlsplit, geturl, username, password, hostname, get_port}
use rustlette.Url.Replace.{no_changes, replace}
use rustlette.Url.RoundTrip.{urlsplit-geturl, is_plain}

abbrev any_netloc : Text → Bool
any_netloc netloc = true

abbrev address : Components
address = record {
  scheme = codes "https";
  netloc = codes "u:p@A.b:80";
  path = codes "/c";
  query = codes "d=e?";
  fragment = codes "f#";
}

split_address : urlsplit any_netloc (codes "https://u:p@A.b:80/c?d=e?#f#") ≡ ok address
unfolding is_plain geturl
split_address = urlsplit-geturl any_netloc address refl refl

parts :
    (username address ≡ some (codes "u"))
    × (password address ≡ some (codes "p"))
    × (hostname address ≡ some (codes "a.b"))
    × (get_port address ≡ ok (some 80))
unfolding username password hostname get_port
parts = (refl, refl, refl, refl)

replaced_port :
    replace any_netloc
      (record no_changes { port = some (some 443); password = some none })
      (codes "https://u:p@A.b:80/c")
    ≡ ok (codes "https://u@A.b:443/c")
unfolding replace
replaced_port = refl

unchanged : replace any_netloc no_changes (codes " http:/x\n") ≡ ok (codes "http:///x")
unfolding replace
unchanged = refl

abbrev scope : Scope
scope = record {
  kind = http;
  method = codes "GET";
  scheme = codes "https";
  server = none;
  path = codes "/a";
  root_path = codes "/app";
  app_root_path = none;
  query_string = codes "b=c";
  headers = (codes "host", codes "x.org:8000") ∷ [];
  path_params = [];
  endpoint = none;
  in_app = false;
}

abbrev index : Compiled
index = record {
  regex = literal (codes "/i") ∷ [];
  path_format = codes "/i";
  param_convertors = [];
}

abbrev tree : NamedRoutes
tree = then_routes (named_route index (codes "index") (codes "websocket")) no_routes

abbrev no_floats : Text → Option Text
no_floats t = none

url_for_lem_example :
    url_for any_netloc no_floats (some tree) scope (codes "index") []
    ≡ ok (codes "wss://x.org:8000/app/i")
unfolding rustlette.Headers.get_raw rustlette.Prelude.text_eq
    rustlette.Routing.UrlPath.Named.routes_url_path_for rustlette.Url.Absolute.scheme_for
    rustlette.Url.Address.address rustlette.Url.Absolute.base_scope is_plain
    rustlette.Url.Absolute.Found.bare rustlette.Url.RoundTrip.plain_text
url_for_lem_example =
    url_for_lem any_netloc no_floats tree scope (codes "index") [] (codes "x.org:8000")
      (codes "wss") (record { path = codes "/i"; protocol = codes "websocket"; host = [] }) refl
      refl refl refl refl refl refl refl

-- pairs of one character each, which is all that the example has
abbrev parse : Text → List (Text × Text)
parse (k ∷ v ∷ s) = (k ∷ [], v ∷ []) ∷ parse s
parse _ = []

abbrev encode : List (Text × Text) → Text
encode [] = []
encode ((k ∷ [], v ∷ []) ∷ items) = k ∷ v ∷ encode items
encode (_ ∷ items) = encode items

abbrev searched : Components
searched = record {
  scheme = codes "http";
  netloc = codes "x.org";
  path = codes "/";
  query = codes "a1b2a3";
  fragment = codes "f";
}

remove_query_params_lem_example :
    (url' : Text) × (remove_query_params any_netloc parse encode
        (codes "a" ∷ [])
        (codes "http://x.org/?a1b2a3#f")
      ≡ ok url')
    × (urlsplit any_netloc url' ≡ ok (record searched { query = codes "b2" }))
unfolding urlsplit is_plain rustlette.Url.Query.Removed.others
remove_query_params_lem_example =
    remove_query_params_lem any_netloc parse encode (codes "a" ∷ [])
      (codes "http://x.org/?a1b2a3#f") searched refl refl refl
