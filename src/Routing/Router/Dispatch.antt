-- ===== src/Routing/Router/Dispatch.antt =====
-- Which route answers: the loop of `Router.app` against the order that it is to follow.
use mathlib.Core.Option.{some-injective}
use rustlette.Prelude.{
  ℕ, ◌≡◌, ◌≢◌, refl, subst, ◌∙◌, Bool, true, false, Option, none, some, List, [], ◌∷◌, Text,
  text_in, arith, Option-cases, inl, inr, ◌⊎◌, if◌then◌else◌,
}
use rustlette.Routing.Scope.{
  ScopeType, http, websocket, lifespan, other_type, Scope, get_route_path,
}
use rustlette.Routing.Pattern.{match}
use rustlette.Routing.Router.{
  RouteInfo, BaseRoute, route, websocket_route, mount, host, router, Routes, nil, cons, Match, full,
  partial, no_match, Outcome, method_not_allowed, refuses, matches, matches_as, in_full, host_name,
  host_scope, mounted_scope, route_scope, route_matches, websocket_matches, mount_matches,
  host_matches, route_handle, handle, run, try_routes, fallback, by_type, round, after_routes,
}

-- the first route that matches as `wanted`, with its scope
unfoldable pub first : (wanted : Match → Bool) → Routes → Scope → Option (BaseRoute × Scope)
unfolding matches
first wanted nil s = none
first wanted (cons r rs) s =
    let rest = first wanted rs s in
    if wanted (matches r s).0 then some (r, (matches r s).1) else rest

unfoldable pub is_full : Match → Bool
is_full full = true
is_full _ = false

unfoldable pub is_partial : Match → Bool
is_partial partial = true
is_partial _ = false

-- the outcome of a route that was found, or else another one
unfoldable pub or_else : Option (BaseRoute × Scope) → Outcome → Outcome
unfolding handle
or_else none o = o
or_else (some (r, s)) o = handle r s

-- the first full match, else the first partial match, else what comes behind the loop
unfoldable pub dispatch : Routes → Scope → Outcome → Outcome
unfolding first or_else
dispatch rs s last = or_else (first is_full rs s) (or_else (first is_partial rs s) last)

Match-cases : (m : Match) → (m ≡ full) ⊎ ((m ≡ partial) ⊎ (m ≡ no_match))
Match-cases full = inl refl
Match-cases partial = inr (inl refl)
Match-cases no_match = inr (inr refl)

try_routes-dispatch :
    (rs : Routes) (s : Scope) (found : Option Outcome) (last : Outcome)
    → try_routes rs s found last
      ≡ or_else (first is_full rs s) (after_routes found (or_else (first is_partial rs s) last))
unfolding try_routes round first is_full is_partial or_else after_routes
try_routes-dispatch nil s none last = refl
try_routes-dispatch nil s (some o) last = refl
try_routes-dispatch (cons r rs) s none last = elim (Match-cases (matches r s).0) [
  | inl e ↦ rw e refl
  | inr (inl e) ↦ rw e (try_routes-dispatch rs s (some (handle r (matches r s).1)) last)
  | inr (inr e) ↦ rw e (try_routes-dispatch rs s none last)
]
try_routes-dispatch (cons r rs) s (some o) last = elim (Match-cases (matches r s).0) [
  | inl e ↦ rw e refl
  | inr (inl e) ↦ rw e (try_routes-dispatch rs s (some o) last)
  | inr (inr e) ↦ rw e (try_routes-dispatch rs s (some o) last)
]

-- is it a scope that is routed, one of an HTTP request or a WebSocket
unfoldable pub is_connection : ScopeType → Bool
is_connection http = true
is_connection websocket = true
is_connection _ = false

by_type_connection : (k : ScopeType) (o : Outcome) → is_connection k ≡ true → by_type k o ≡ o
unfolding is_connection by_type
by_type_connection http o h = refl
by_type_connection websocket o h = refl
by_type_connection lifespan o h = absurd (ground arith)
by_type_connection (other_type t) o h = absurd (ground arith)

-- A router hands a request or a WebSocket to its first route that matches in full with the scope of
-- that match, where there is none to the first that matches in part, and where there is none either
-- to what comes behind its routes: the redirect for a slash at the end, or the default.
pub run-dispatch :
    (rs : Routes) (redirect_slashes : Bool) (default : Option ℕ) (s : Scope)
    → is_connection s.kind ≡ true
    → run (router rs redirect_slashes default) s
      ≡ dispatch rs s (fallback rs redirect_slashes default s)
unfolding run dispatch after_routes
run-dispatch rs redirect_slashes default s h =
    by_type_connection s.kind (try_routes rs s none (fallback rs redirect_slashes default s)) h
    ∙ try_routes-dispatch rs s none (fallback rs redirect_slashes default s)

-- a refused method is none of the methods of the route, of which there is one
refuses_methods :
    (methods : Option (List Text)) (method : Text)
    → refuses methods method ≡ true
    → (allowed : List Text) × (methods ≡ some allowed) × (text_in method allowed ≡ false)
unfolding refuses
refuses_methods none method h = absurd (ground arith)
refuses_methods (some []) method h = absurd (ground arith)
refuses_methods (some (m ∷ methods)) method h = (m ∷ methods, refl, ground arith)

-- The answer 405 of a route, with all its methods, none of which is the request's.
abbrev pub IsRefused : BaseRoute → Scope → Outcome → Type 0
IsRefused b s o =
    (r : RouteInfo) × (allowed : List Text) × (b ≡ route r)
    × (r.methods ≡ some allowed)
    × (text_in s.method allowed ≡ false)
    × (o ≡ method_not_allowed allowed s.in_app)

route_handle-IsRefused :
    (r : RouteInfo) (s : Scope)
    → refuses r.methods s.method ≡ true
    → IsRefused (route r) s (route_handle r s)
unfolding route_handle
route_handle-IsRefused r s h =
    let (allowed, e, absent) = refuses_methods r.methods s.method h in
    (r, allowed, refl, e, absent, rw (h, e) refl)

route_partial :
    (r : RouteInfo) (s : Scope)
    → (route_matches r s).0 ≡ partial
    → IsRefused (route r) s (route_handle r (route_matches r s).1)
unfolding route_matches
route_partial r s h = elim (Option-cases (match r.compiled.regex (get_route_path s))) [
  | inl e ↦ absurd (ground arith)
  | inr (found, e) ↦
      let refused : refuses r.methods s.method ≡ true = ground arith in
      rw (route_matches, e) (route_handle-IsRefused r (route_scope r s found) refused)
]

-- What matches in full or not at all does not match in part.
in_full_partial :
    (o : Option (List (Text × Text))) (f : List (Text × Text) → Scope) (s : Scope)
    → (in_full o f s).0 ≢ partial
unfolding in_full
in_full_partial none f s h = absurd (ground arith)
in_full_partial (some found) f s h = absurd (ground arith)

handle_partial :
    (r : BaseRoute) (k : ScopeType) (s : Scope)
    → (matches_as k r s).0 ≡ partial
    → IsRefused r s (handle r (matches_as k r s).1)
unfolding matches_as handle in_full websocket_matches mount_matches host_matches
handle_partial (route r) http s h = route_partial r s h
handle_partial (route r) websocket s h = absurd (ground arith)
handle_partial (route r) lifespan s h = absurd (ground arith)
handle_partial (route r) (other_type t) s h = absurd (ground arith)
handle_partial (websocket_route r) http s h = absurd (ground arith)
handle_partial (websocket_route r) websocket s h =
    absurd (in_full_partial (match r.compiled.regex (get_route_path s)) (route_scope r s) s h)
handle_partial (websocket_route r) lifespan s h = absurd (ground arith)
handle_partial (websocket_route r) (other_type t) s h = absurd (ground arith)
handle_partial (mount m app) http s h =
    absurd (in_full_partial (match m.compiled.regex (get_route_path s)) (mounted_scope m s) s h)
handle_partial (mount m app) websocket s h =
    absurd (in_full_partial (match m.compiled.regex (get_route_path s)) (mounted_scope m s) s h)
handle_partial (mount m app) lifespan s h = absurd (ground arith)
handle_partial (mount m app) (other_type t) s h = absurd (ground arith)
handle_partial (host m app) http s h =
    absurd (in_full_partial (match m.compiled.regex (host_name s)) (host_scope m s) s h)
handle_partial (host m app) websocket s h =
    absurd (in_full_partial (match m.compiled.regex (host_name s)) (host_scope m s) s h)
handle_partial (host m app) lifespan s h = absurd (ground arith)
handle_partial (host m app) (other_type t) s h = absurd (ground arith)

first_partial-IsRefused :
    (rs : Routes) (s : Scope) (r : BaseRoute) (c : Scope)
    → first is_partial rs s ≡ some (r, c)
    → IsRefused r s (handle r c)
unfolding first is_partial
first_partial-IsRefused nil s r c h = absurd (ground arith)
first_partial-IsRefused (cons r' rs) s r c h = elim (Match-cases (matches r' s).0) [
  | inl e ↦ first_partial-IsRefused rs s r c (rw e at h)
  | inr (inl e) ↦
      let same : (r', (matches r' s).1) ≡ (r, c) = some-injective _ _ (rw e at h) in
      subst (λ i. IsRefused i.0 s (handle i.0 i.1)) same (handle_partial r' s.kind s e)
  | inr (inr e) ↦ first_partial-IsRefused rs s r c (rw e at h)
]

-- A request that a router has no full match for, and for which a route is the first that matches in
-- part, is refused by that route: it is one of HTTP methods, the answer is a 405 with all of these, and
-- the request's is none of them. The answer is raised inside an application and sent outside of one.
pub run-IsRefused :
    (rs : Routes) (redirect_slashes : Bool) (default : Option ℕ) (s c : Scope) (r : BaseRoute)
    → is_connection s.kind ≡ true
    → first is_full rs s ≡ none
    → first is_partial rs s ≡ some (r, c)
    → IsRefused r s (run (router rs redirect_slashes default) s)
unfolding dispatch or_else
run-IsRefused rs redirect_slashes default s c r h no_full e =
    let (info, allowed, is_route, has, absent, same) = first_partial-IsRefused rs s r c e in
    let by : dispatch rs s (fallback rs redirect_slashes default s) ≡ handle r c =
      rw (no_full, e) refl in
    (info, allowed, is_route, has, absent, run-dispatch rs redirect_slashes default s h ∙ by ∙ same)
