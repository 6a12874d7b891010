-- ===== src/Url/Absolute.antt =====
-- rustlette/datastructures.py: `URLPath.make_absolute_url`; rustlette/requests.py: `base_url` and `url_for` of
-- `HTTPConnection`, whose router or app is a tree of named routes.
pub mod Found
use rustlette.Prelude.{
  is_nil, ◌≡◌, Bool, true, false, Option, none, some, List, [], ◌∷◌, ◌++◌, Text, codes, text_eq,
  ends_with, rstrip, if◌then◌else◌,
}
use rustlette.Prelude.Exec.{Result, ok, err}
use rustlette.Routing.Convertors.{Value}
use rustlette.Routing.Scope.{Scope, url_of_scope}
use rustlette.Routing.UrlPath
use rustlette.Routing.UrlPath.Named.{UrlPath, NamedRoutes, routes_url_path_for}
use rustlette.Url.{Components, UrlError, key_error, scope_error, urlsplit, is_secure}
use rustlette.Url.Replace.{Changes, no_changes, from_components, and_then}

-- `{True: secure, False: plain}[base_url.is_secure]`
secured : Bool → (secure plain : Text) → Text
secured true secure plain = secure
secured false secure plain = plain

-- the scheme of the URL; a protocol other than the two is a `KeyError`
unfoldable pub scheme_for : (protocol : Text) → Components → Result UrlError Text
unfolding is_nil text_eq is_secure secured
scheme_for protocol base =
    if is_nil protocol
    then ok base.scheme
    else if text_eq protocol (codes "http")
    then ok (secured (is_secure base) (codes "https") (codes "http"))
    else if text_eq protocol (codes "websocket")
    then ok (secured (is_secure base) (codes "wss") (codes "ws"))
    else err key_error

-- `self.host or base_url.netloc`
host_or : Text → Text → Text
host_or [] netloc = netloc
host_or (c ∷ host) netloc = c ∷ host

-- `scope.get("app_root_path", scope.get("root_path", ""))`
app_root : Option Text → (root_path : Text) → Text
app_root none root_path = root_path
app_root (some app_root_path) root_path = app_root_path

-- the path of the base URL ends in a slash
slashed : Text → Text
unfolding ends_with
slashed path = if ends_with path (codes "/") then path else path ++ codes "/"

-- the scope of `base_url`
unfoldable pub base_scope : Scope → Scope
unfolding slashed app_root
base_scope s = record s {
  path = slashed (app_root s.app_root_path s.root_path);
  query_string = [];
  root_path = app_root s.app_root_path s.root_path;
}

-- What `url_for` raises: there is no router, the router does not find the name, or the URL.
pub data ForError : Type 0 where
  no_provider : ForError
  not_found : UrlPath.UrlError → ForError
  url_error : UrlError → ForError

or_url_error : {A : Type 0} → Result UrlError A → Result ForError A
or_url_error (ok a) = ok a
or_url_error (err e) = err (url_error e)

module _ (is_netloc : Text → Bool) where
  -- the URL of components that are known
  joined : UrlPath → Components → (scheme : Text) → Result UrlError Text
  unfolding host_or rstrip from_components
  joined u base scheme = from_components is_netloc (record no_changes {
    scheme = some scheme;
    netloc = some (host_or u.host base.netloc);
    path = some (rstrip b'/' base.path ++ u.path);
  })

  -- `make_absolute_url(base_url)`
  unfoldable pub make_absolute_url : UrlPath → (base_url : Text) → Result UrlError Text
  unfolding urlsplit scheme_for joined
  make_absolute_url u base_url =
      and_then (urlsplit is_netloc base_url)
        (λ base. and_then (scheme_for u.protocol base) (joined u base))

  -- `base_url`
  unfoldable pub base_url : Scope → Result UrlError Text
  unfolding url_of_scope base_scope
  base_url s = elim (url_of_scope (base_scope s)) [ none ↦ err scope_error | some url ↦ ok url ]

  module _ (float_text : Text → Option Text) where
    found : Scope → Result UrlPath.UrlError UrlPath → Result ForError Text
    unfolding make_absolute_url base_url or_url_error
    found s (err e) = err (not_found e)
    found s (ok u) = or_url_error (and_then (base_url s) (make_absolute_url u))

    -- `url_for(name, **path_params)`
    unfoldable pub url_for :
        Option NamedRoutes → Scope → Text → List (Text × Value) → Result ForError Text
    unfolding found routes_url_path_for
    url_for none s name params = err no_provider
    url_for (some tree) s name params = found s (routes_url_path_for float_text tree name params)
