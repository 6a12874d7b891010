-- ===== src/Routing/Router.antt =====
-- rustlette/routing.py: the routes' `matches` and `handle`, and `Router.app`. A route's own ASGI app is
-- a number; what it does with the scope that it is called with is outside the router.
pub mod Dispatch
pub mod Mounting
mod Tests
use rustlette.Prelude.{
  ℕ, ◌-◌, Bool, true, false, not, ◌&&◌, Option, none, some, List, [], ◌∷◌, ◌++◌, Text, codes,
  text_eq, text_in, text_eq_instance, if◌then◌else◌, length, take, split, rstrip, ends_with,
}
use rustlette.Headers.{get_raw}
use rustlette.MultiDict.Dict
use rustlette.Routing.Convertors.{Convertor, Value, text_value, convert}
use rustlette.Routing.Pattern.{Segment, Compiled, match}
use rustlette.Routing.Scope.{
  ScopeType, http, websocket, lifespan, other_type, Scope, get_route_path, url_of_scope,
}

pub record RouteInfo : Type 0 where
  pub compiled : Compiled
  pub endpoint : ℕ
  pub methods : Option (List Text)

pub record MountInfo : Type 0 where
  pub compiled : Compiled
  pub mounted : ℕ

mutual
  -- `Route`, `WebSocketRoute`, `Mount` and `Host`
  pub data BaseRoute : Type 0 where
    route : RouteInfo → BaseRoute
    websocket_route : RouteInfo → BaseRoute
    mount : MountInfo → App → BaseRoute
    host : MountInfo → App → BaseRoute

  -- an app outside the model, or a router with `redirect_slashes` and its `default`
  pub data App : Type 0 where
    asgi : ℕ → App
    router : Routes → Bool → Option ℕ → App

  pub data Routes : Type 0 where
    nil : Routes
    cons : BaseRoute → Routes → Routes

pub data Match : Type 0 where
  no_match partial full : Match

-- what a call of the router comes to; `raised` says that it is an `HTTPException`
pub data Outcome : Type 0 where
  called : ℕ → Scope → Outcome
  method_not_allowed : List Text → (raised : Bool) → Outcome
  not_found : (raised : Bool) → Outcome
  redirected : Option Text → Outcome
  websocket_closed lifespan_run assertion_failed : Outcome

-- `self.methods and scope["method"] not in self.methods`
unfoldable pub refuses : Option (List Text) → Text → Bool
refuses none method = false
refuses (some []) method = false
refuses (some (m ∷ methods)) method = not (text_in method (m ∷ methods))

-- the groups with their values converted by `param_convertors`
converted : List (Text × Convertor) → List (Text × Text) → List (Text × Value)
unfolding convert Dict.get
converted convertors [] = []
converted convertors ((name, v) ∷ found) = elim (Dict.get name convertors) [
  | none ↦ converted convertors found
  | some c ↦ (name, convert c v) ∷ converted convertors found
]

with_params : Scope → List (Text × Value) → List (Text × Value)
unfolding Dict.update
with_params s params = Dict.update s.path_params params

-- the scope as `child_scope` of a route updates it
route_scope : RouteInfo → Scope → List (Text × Text) → Scope
unfolding converted with_params
route_scope r s found = record s {
  endpoint = some r.endpoint;
  path_params = with_params s (converted r.compiled.param_convertors found);
}

-- `Route.matches`
route_matches : RouteInfo → Scope → Match × Scope
unfolding refuses route_scope get_route_path match
route_matches r s = elim (match r.compiled.regex (get_route_path s)) [
  | none ↦ (no_match, s)
  | some found ↦ (if refuses r.methods s.method then partial else full, route_scope r s found)
]

-- A full match with the scope that the groups give, where there is a match.
in_full : Option (List (Text × Text)) → (List (Text × Text) → Scope) → Scope → Match × Scope
in_full none f s = (no_match, s)
in_full (some found) f s = (full, f found)

-- `WebSocketRoute.matches`
websocket_matches : RouteInfo → Scope → Match × Scope
unfolding route_scope get_route_path match in_full
websocket_matches r s = in_full (match r.compiled.regex (get_route_path s)) (route_scope r s) s

-- `matched_params.pop("path")`, a text: the group of the path convertor
path_group : List (Text × Text) → Text
unfolding Dict.get
path_group found = elim (Dict.get (codes "path") found) [ none ↦ [] | some v ↦ v ]

-- the scope of a mounted app: `route_path[: -len(remaining_path)]` goes to the root path
mounted_scope : MountInfo → Scope → List (Text × Text) → Scope
unfolding converted with_params get_route_path path_group Dict.delete
mounted_scope m s found =
    let route_path = get_route_path s in
    let remaining_path = codes "/" ++ path_group found in
    record s {
      path_params =
          with_params s (converted m.compiled.param_convertors (Dict.delete (codes "path") found));
      app_root_path = some (elim s.app_root_path [ none ↦ s.root_path | some p ↦ p ]);
      root_path = s.root_path ++ take (length route_path - length remaining_path) route_path;
      endpoint = some m.mounted;
    }

-- `Mount.matches`
pub mount_matches : MountInfo → Scope → Match × Scope
unfolding mounted_scope match in_full
mount_matches m s = in_full (match m.compiled.regex (get_route_path s)) (mounted_scope m s) s

-- `headers.get("host", "").split(":")[0]`
host_name : Scope → Text
unfolding get_raw
host_name s = elim (get_raw (codes "host") s.headers) [ none ↦ [] | some v ↦ first (split b':' v) ]
  where
    first : List Text → Text
    first [] = []
    first (part ∷ parts) = part

-- the scope as `child_scope` of a host updates it
host_scope : MountInfo → Scope → List (Text × Text) → Scope
unfolding converted with_params
host_scope m s found = record s {
  path_params = with_params s (converted m.compiled.param_convertors found);
  endpoint = some m.mounted;
}

-- `Host.matches`
host_matches : MountInfo → Scope → Match × Scope
unfolding host_name host_scope match in_full
host_matches m s = in_full (match m.compiled.regex (host_name s)) (host_scope m s) s

matches_as : ScopeType → BaseRoute → Scope → Match × Scope
unfolding route_matches websocket_matches mount_matches host_matches
matches_as http (route r) s = route_matches r s
matches_as websocket (websocket_route r) s = websocket_matches r s
matches_as http (mount m app) s = mount_matches m s
matches_as websocket (mount m app) s = mount_matches m s
matches_as http (host h app) s = host_matches h s
matches_as websocket (host h app) s = host_matches h s
matches_as _ _ s = (no_match, s)

-- `route.matches(scope)`
unfoldable pub matches : BaseRoute → Scope → Match × Scope
unfolding matches_as
matches r s = matches_as s.kind r s

-- does any route match a scope, in full or in part
unfoldable pub any_match : Routes → Scope → Bool
unfolding matches
any_match nil s = false
any_match (cons r rs) s = elim (matches r s).0 [ no_match ↦ any_match rs s | _ ↦ true ]

-- `redirect_scope`
unfoldable pub redirect_scope : Scope → Scope
unfolding get_route_path
redirect_scope s =
    if ends_with (get_route_path s) (codes "/")
    then record s { path = rstrip b'/' s.path }
    else record s { path = s.path ++ codes "/" }

not_found_as : ScopeType → Scope → Outcome
not_found_as websocket s = websocket_closed
not_found_as _ s = not_found s.in_app

-- `self.default`: the app that was given, or `Router.not_found`
default_of : Option ℕ → Scope → Outcome
unfolding not_found_as
default_of none s = not_found_as s.kind s
default_of (some app) s = called app s

may_redirect : ScopeType → Scope → Bool
unfolding get_route_path
may_redirect http s = not (text_eq (get_route_path s) (codes "/"))
may_redirect _ s = false

-- `Router.app` behind the loop over the routes: a redirect to the other spelling, or the default
unfoldable pub fallback : Routes → Bool → Option ℕ → Scope → Outcome
unfolding any_match redirect_scope default_of may_redirect url_of_scope
fallback rs redirect_slashes default s =
    if may_redirect s.kind s && redirect_slashes && any_match rs (redirect_scope s)
    then redirected (url_of_scope (redirect_scope s))
    else default_of default s

-- `Route.handle`
route_handle : RouteInfo → Scope → Outcome
unfolding refuses
route_handle r s =
    if refuses r.methods s.method
    then method_not_allowed (elim r.methods [ none ↦ [] | some methods ↦ methods ]) s.in_app
    else called r.endpoint s

-- what the scope's type selects: the routes, the lifespan, or the failure of the `assert`
by_type : ScopeType → Outcome → Outcome
by_type http o = o
by_type websocket o = o
by_type lifespan o = lifespan_run
by_type (other_type t) o = assertion_failed

-- A round of the loop over the routes: the route's match, what its `handle` gives, the partial match so
-- far, and the rounds that follow.
round : Match → Outcome → Option Outcome → (Option Outcome → Outcome) → Outcome
round full o found next = o
round no_match o found next = next found
round partial o none next = next (some o)
round partial o (some found) next = next (some found)

-- behind the loop
after_routes : Option Outcome → Outcome → Outcome
after_routes none last = last
after_routes (some found) last = found

unfoldable mutual
  unfolding matches fallback route_handle by_type round after_routes

  -- `route.handle(scope, receive, send)`
  pub handle : BaseRoute → Scope → Outcome
  handle (route r) s = route_handle r s
  handle (websocket_route r) s = called r.endpoint s
  handle (mount m app) s = run app s
  handle (host h app) s = run app s

  -- a call of an ASGI app; for a router it is `Router.app`
  pub run : App → Scope → Outcome
  run (asgi app) s = called app s
  run (router rs redirect_slashes default) s =
      by_type s.kind (try_routes rs s none (fallback rs redirect_slashes default s))

  -- the loop over the routes; `found` is the partial match so far, `last` what comes behind the loop
  pub try_routes : Routes → Scope → Option Outcome → Outcome → Outcome
  try_routes nil s found last = after_routes found last
  try_routes (cons r rs) s found last =
      round (matches r s).0 (handle r (matches r s).1) found (λ o. try_routes rs s o last)
