-- ===== src/HttpsRedirect.antt =====
-- rustlette/middleware/httpsredirect.py: `HTTPSRedirectMiddleware`. `is_netloc` is the test of `urlsplit`,
-- as for URLs, and `quote` that of Python's urllib with its safe characters.
pub mod Location
mod Tests
use rustlette.Prelude.{
  ℕ, Bool, true, false, ◌&&◌, ◌||◌, Option, none, some, List, [], ◌∷◌, Text, codes, text_eq,
  text_in, text_eq_instance, ◌==◌, if◌then◌else◌,
}
use rustlette.Prelude.Exec.{Result, ok, err}
use rustlette.MultiDict.Dict
use rustlette.Headers.{HeaderError}
use rustlette.Response.{Response, redirect_response}
use rustlette.Routing.Scope.{ScopeType, http, websocket, Scope, url_of_scope}
use rustlette.Url.{Components, UrlError, key_error, scope_error, urlsplit, hostname, get_port}
use rustlette.Url.Replace.{Changes, no_changes, replace, and_then}

-- `{"http": "https", "ws": "wss"}[scheme]`
redirect_scheme : Text → Result UrlError Text
unfolding Dict.get
redirect_scheme scheme =
    elim (Dict.get scheme ((codes "http", codes "https") ∷ (codes "ws", codes "wss") ∷ [])) [
      | none ↦ err key_error
      | some secure ↦ ok secure
    ]

-- `url.port in (80, 443)`
is_default : Option ℕ → Bool
is_default none = false
is_default (some port) = port == 80 || port == 443

-- a network location that is `None` is written as an empty one
or_empty : Option Text → Text
or_empty none = []
or_empty (some s) = s

-- `url.hostname if url.port in (80, 443) else url.netloc`
chosen : (port : Option ℕ) → (hostname : Option Text) → (netloc : Text) → Text
unfolding is_default or_empty
chosen port hostname netloc = if is_default port then or_empty hostname else netloc

pub data Handling : Type 0 where
  passed_on : Handling
  redirected : Response → Handling
  url_failed : UrlError → Handling
  header_failed : HeaderError → Handling

unfoldable pub is_connection : ScopeType → Bool
is_connection http = true
is_connection websocket = true
is_connection _ = false

module _ (is_netloc : Text → Bool) where
  -- `url.replace(scheme=redirect_scheme, netloc=netloc)`
  replaced_by : Text → Components → (scheme : Text) → (port : Option ℕ) → Result UrlError Text
  unfolding chosen hostname replace
  replaced_by url c scheme port =
      replace is_netloc
        (record no_changes {
          scheme = some scheme;
          netloc = some (chosen port (hostname c) c.netloc);
        })
        url

  -- the address of the redirect, from the text of the URL and its components
  replaced_from : Text → Components → Result UrlError Text
  unfolding redirect_scheme get_port replaced_by
  replaced_from url c =
      and_then (redirect_scheme c.scheme)
        (λ scheme. and_then (get_port c) (replaced_by url c scheme))

  unfoldable pub redirect_url : Scope → Result UrlError Text
  unfolding url_of_scope urlsplit replaced_from
  redirect_url s = elim (url_of_scope s) [
    | none ↦ err scope_error
    | some url ↦ and_then (urlsplit is_netloc url) (replaced_from url)
  ]

  module _ (quote : Text → Text) where
    unfoldable pub answered : Result HeaderError Response → Handling
    answered (ok response) = redirected response
    answered (err e) = header_failed e

    redirect : Result UrlError Text → Handling
    unfolding answered redirect_response
    redirect (ok url) = answered (redirect_response (quote url) 307)
    redirect (err e) = url_failed e

    -- `__call__`: the response that is sent, or the call of the app
    unfoldable pub handling : Scope → Handling
    unfolding is_connection redirect redirect_url text_in
    handling s =
        if is_connection s.kind && text_in s.scheme (codes "http" ∷ codes "ws" ∷ [])
        then redirect (redirect_url s)
        else passed_on
