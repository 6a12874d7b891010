-- ===== src/TrustedHost.antt =====
-- rustlette/middleware/trustedhost.py: `TrustedHostMiddleware`. `is_netloc` is the test of `urlsplit`, as
-- for URLs.
pub mod Accepted
pub mod Location
mod Tests
use rustlette.Prelude.{
  ℕ, Bool, true, false, not, ◌&&◌, ◌||◌, Option, none, some, List, [], ◌∷◌, ◌++◌, Text, codes,
  text_eq, text_in, starts_with, ends_with, contains_char, split, drop, if◌then◌else◌, all,
}
use rustlette.Prelude.Exec.{Result, ok, err}
use rustlette.Headers.{RawHeaders, get_raw}
use rustlette.Routing.Scope.{Scope, url_of_scope}
use rustlette.Url.{UrlError, scope_error, urlsplit}
use rustlette.Url.Replace.{Changes, no_changes, replace, and_then}

pub record TrustedHost : Type 0 where
  pub allowed_hosts : List Text
  pub allow_any : Bool
  pub www_redirect : Bool

-- the assertions on one pattern
unfoldable pub is_pattern : Text → Bool
unfolding contains_char starts_with text_eq
is_pattern pattern =
    not (contains_char b'*' (drop 1 pattern))
    && (if starts_with pattern (codes "*") && not (text_eq pattern (codes "*"))
        then starts_with pattern (codes "*.")
        else true)

-- `TrustedHostMiddleware.__init__`; `none` is the `AssertionError`
unfoldable pub init : Option (List Text) → (www_redirect : Bool) → Option TrustedHost
unfolding is_pattern text_in
init none www_redirect =
    some (record { allowed_hosts = codes "*" ∷ []; allow_any = true; www_redirect = www_redirect })
init (some hosts) www_redirect =
    if all is_pattern hosts
    then some (record {
      allowed_hosts = hosts;
      allow_any = text_in (codes "*") hosts;
      www_redirect = www_redirect;
    })
    else none

first_part : List Text → Text
first_part [] = []
first_part (part ∷ parts) = part

-- `headers.get("host", "").split(":")[0]`
unfoldable pub host_of : RawHeaders → Text
unfolding get_raw split first_part
host_of request = elim (get_raw (codes "host") request) [
  | none ↦ []
  | some v ↦ first_part (split b':' v)
]

-- `host == pattern or (pattern.startswith("*") and host.endswith(pattern[1:]))`
unfoldable pub fits : Text → Text → Bool
unfolding text_eq starts_with ends_with
fits host pattern =
    text_eq host pattern || (starts_with pattern (codes "*") && ends_with host (drop 1 pattern))

-- The loop over the patterns: `is_valid_host` and `found_www_redirect`.
look_up : Text → List Text → (found_www_redirect : Bool) → Bool × Bool
unfolding fits text_eq
look_up host [] found = (false, found)
look_up host (pattern ∷ patterns) found =
    let next = look_up host patterns (text_eq (codes "www." ++ host) pattern || found) in
    if fits host pattern then (true, found) else next

pub data Handling : Type 0 where
  passed_on redirected_to_www invalid_host : Handling

-- `is_connection` says that the scope is one of a request or a WebSocket
unfoldable pub handling : TrustedHost → (is_connection : Bool) → RawHeaders → Handling
unfolding look_up host_of
handling t is_connection request =
    let (is_valid_host, found_www_redirect) = look_up (host_of request) t.allowed_hosts false in
    if t.allow_any || not is_connection
    then passed_on
    else if is_valid_host
    then passed_on
    else if found_www_redirect && t.www_redirect
    then redirected_to_www
    else invalid_host

-- the address of the redirect: `url.replace(netloc="www." + url.netloc)`
unfoldable pub redirect_url : (is_netloc : Text → Bool) → Scope → Result UrlError Text
unfolding url_of_scope urlsplit replace
redirect_url is_netloc s = elim (url_of_scope s) [
  | none ↦ err scope_error
  | some url ↦
      and_then (urlsplit is_netloc url) (λ c.
        replace is_netloc (record no_changes { netloc = some (codes "www." ++ c.netloc) }) url)
]
