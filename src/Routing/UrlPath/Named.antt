-- ===== src/Routing/UrlPath/Named.antt =====
-- rustlette/routing.py: `url_path_for` of the four kinds of routes and of a router, whose routes have names.
use rustlette.Prelude.{
  ◌+◌, Option, none, some, List, [], ◌∷◌, ◌++◌, Text, codes, text_eq, text_eq_instance, starts_with,
  lstrip, rstrip, drop, length, if◌then◌else◌,
}
use rustlette.Prelude.Exec.{Result, ok, err}
use rustlette.MultiDict.Dict
use rustlette.Routing.Convertors.{Value, text_value}
use rustlette.Routing.Pattern.{Compiled}
use rustlette.Routing.UrlPath.{UrlError, no_match_found, replace_params, route_url_path_for}

-- `URLPath`, with the empty text for a protocol or a host that is not given
pub record UrlPath : Type 0 where
  pub path : Text
  pub protocol : Text
  pub host : Text

mutual
  -- `Route` or `WebSocketRoute` with its protocol, `Mount` and `Host`, by what their `url_path_for` reads
  pub data NamedRoute : Type 0 where
    named_route : Compiled → (name : Text) → (protocol : Text) → NamedRoute
    named_mount : Compiled → (name : Option Text) → NamedRoutes → NamedRoute
    named_host : Compiled → (name : Option Text) → NamedRoutes → NamedRoute

  pub data NamedRoutes : Type 0 where
    no_routes : NamedRoutes
    then_routes : NamedRoute → NamedRoutes → NamedRoutes

-- `self.name is not None and name == self.name and "path" in path_params`, with that parameter
own_path : Option Text → Text → List (Text × Value) → Option Value
unfolding text_eq Dict.get
own_path none name params = none
own_path (some own) name params = if text_eq name own then Dict.get (codes "path") params else none

-- the name below a mount or a host, if the name is one of theirs
remaining_name : Option Text → Text → Option Text
unfolding starts_with
remaining_name none name = some name
remaining_name (some own) name =
    if starts_with name (own ++ codes ":") then some (drop (length own + 1) name) else none

-- `str.lstrip("/")` of a path, which other values do not have
stripped : Value → Value
unfolding lstrip
stripped (text_value path) = text_value (lstrip b'/' path)
stripped v = v

-- the text of a path that was given to a host
given_text : Value → Text
given_text (text_value path) = path
given_text v = []

-- the end of the first branch: nothing may remain
nothing_left :
    (Text → UrlPath) → Result UrlError (Text × List (Text × Value)) → Result UrlError UrlPath
nothing_left found (ok (path, [])) = ok (found path)
nothing_left found (ok (path, p ∷ ps)) = err no_match_found
nothing_left found (err e) = err e

-- `remaining_params["path"] = path_kwarg`
with_kwarg : Option Value → List (Text × Value) → List (Text × Value)
unfolding Dict.set
with_kwarg none params = params
with_kwarg (some path) params = Dict.set (codes "path") path params

below_mount : Text → Result UrlError UrlPath → Result UrlError UrlPath
unfolding rstrip
below_mount prefix (err e) = err e
below_mount prefix (ok url) =
    ok (record { path = rstrip b'/' prefix ++ url.path; protocol = url.protocol; host = [] })

below_host : Text → Result UrlError UrlPath → Result UrlError UrlPath
below_host host (err e) = err e
below_host host (ok url) = ok (record { path = url.path; protocol = url.protocol; host = host })

of_route : Text → Result UrlError Text → Result UrlError UrlPath
of_route protocol (ok path) = ok (record { path = path; protocol = protocol; host = [] })
of_route protocol (err e) = err e

-- a route's answer, or that of the routes behind it where the route raises `NoMatchFound`
or_next : Result UrlError UrlPath → Result UrlError UrlPath → Result UrlError UrlPath
or_next (err no_match_found) next = next
or_next r next = r

module _ (float_text : Text → Option Text) where
  -- "<mount_name>" with its path, and "<host_name>" with its path
  mount_itself : Compiled → Value → List (Text × Value) → Result UrlError UrlPath
  unfolding nothing_left stripped replace_params Dict.set
  mount_itself c path params =
      nothing_left (λ p. record { path = p; protocol = []; host = [] })
        (replace_params float_text c.path_format c.param_convertors
          (Dict.set (codes "path") (stripped path) params))

  host_itself : Compiled → Value → List (Text × Value) → Result UrlError UrlPath
  unfolding nothing_left given_text replace_params Dict.delete
  host_itself c path params =
      nothing_left (λ h. record { path = given_text path; protocol = []; host = h })
        (replace_params float_text c.path_format c.param_convertors
          (Dict.delete (codes "path") params))

  -- the prefix of a mount, and the parameters that are left for its routes
  mount_prefix : Compiled → List (Text × Value) → Result UrlError (Text × List (Text × Value))
  unfolding with_kwarg replace_params Dict.set Dict.get
  mount_prefix c params =
      elim (replace_params float_text c.path_format c.param_convertors
        (Dict.set (codes "path") (text_value []) params)) [
          | err e ↦ err e
          | ok (prefix, left) ↦ ok (prefix, with_kwarg (Dict.get (codes "path") params) left)
        ]

  unfoldable mutual
    unfolding own_path remaining_name mount_itself host_itself mount_prefix below_mount below_host
        of_route or_next route_url_path_for replace_params

    -- `route.url_path_for(name, **path_params)`
    pub url_path_for : NamedRoute → Text → List (Text × Value) → Result UrlError UrlPath
    url_path_for (named_route c own protocol) name params =
        of_route protocol (route_url_path_for float_text c own name params)
    url_path_for (named_mount c own routes) name params = elim (own_path own name params) [
      | some path ↦ mount_itself c path params
      | none ↦ elim (remaining_name own name) [
        | none ↦ err no_match_found
        | some rest ↦ elim (mount_prefix c params) [
          | err e ↦ err e
          | ok (prefix, left) ↦ below_mount prefix (routes_url_path_for routes rest left)
        ]
      ]
    ]
    url_path_for (named_host c own routes) name params = elim (own_path own name params) [
      | some path ↦ host_itself c path params
      | none ↦ elim (remaining_name own name) [
        | none ↦ err no_match_found
        | some rest ↦ elim (replace_params float_text c.path_format c.param_convertors params) [
          | err e ↦ err e
          | ok (host, left) ↦ below_host host (routes_url_path_for routes rest left)
        ]
      ]
    ]

    -- `Router.url_path_for`, and the loops over the routes of a mount or a host
    pub routes_url_path_for : NamedRoutes → Text → List (Text × Value) → Result UrlError UrlPath
    routes_url_path_for no_routes name params = err no_match_found
    routes_url_path_for (then_routes route routes) name params =
        or_next (url_path_for route name params) (routes_url_path_for routes name params)
