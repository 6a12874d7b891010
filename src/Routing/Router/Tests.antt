-- ===== src/Routing/Router/Tests.antt =====
-- Runs of a router, and its theorems at concrete inputs.
use rustlette.Prelude.{
  ◌≡◌, refl, true, none, some, [], ◌∷◌, ◌++◌, Text, codes, text_eq, text_in, starts_with, ends_with,
  rstrip,
}
use rustlette.Routing.Convertors.{path_convertor, accepts}
use rustlette.Routing.Scope.{Scope, http, get_route_path, begins_with_slash}
use rustlette.Routing.Pattern.{Compiled, literal}
use rustlette.Routing.Pattern.Mounted.{mount_pattern}
use rustlette.Routing.Router.{
  RouteInfo, MountInfo, route, mount, router, asgi, Routes, nil, cons, full, called, redirected,
  matches, mount_matches, route_matches, run, fallback,
}
use rustlette.Routing.Router.Dispatch.{
  run-dispatch, run-IsRefused, IsRefused, dispatch, first, is_full, is_partial, is_connection,
}
use rustlette.Routing.Router.Mounting.{mounted_below}

abbrev request : Text → Text → Scope
request method path = record {
  kind = http;
  method = method;
  scheme = codes "http";
  server = some (codes "localhost", 80);
  path = path;
  root_path = [];
  app_root_path = none;
  query_string = [];
  headers = [];
  path_params = [];
  endpoint = none;
  in_app = true;
}

abbrev fixed : Text → Compiled
fixed path = record { regex = literal path ∷ []; path_format = path; param_convertors = [] }

abbrev home : RouteInfo
home = record {
  compiled = fixed (codes "/home");
  endpoint = 1;
  methods = some (codes "GET" ∷ codes "HEAD" ∷ []);
}

abbrev files : MountInfo
files = record {
  compiled = record {
    regex = mount_pattern (codes "/static");
    path_format = codes "/static/{path}";
    param_convertors = (codes "path", path_convertor) ∷ [];
  };
  mounted = 2;
}

abbrev table : Routes
table = cons (route home) (cons (mount files (asgi 7)) nil)

found_home :
    run (router table true none) (request (codes "GET") (codes "/home"))
    ≡ called 1 (record (request (codes "GET") (codes "/home")) { endpoint = some 1 })
unfolding run matches text_eq text_in starts_with
found_home = refl

slash_added :
    run (router table true none) (request (codes "GET") (codes "/home/"))
    ≡ redirected (some (codes "http://localhost/home"))
unfolding run matches text_eq text_in starts_with mount_pattern ends_with rstrip
slash_added = refl

run-dispatch_example :
    run (router table true none) (request (codes "GET") (codes "/nowhere"))
    ≡ dispatch table
        (request (codes "GET") (codes "/nowhere"))
        (fallback table true none (request (codes "GET") (codes "/nowhere")))
unfolding is_connection
run-dispatch_example = run-dispatch table true none (request (codes "GET") (codes "/nowhere")) refl

run-IsRefused_example :
    IsRefused
      (route home)
      (request (codes "POST") (codes "/home"))
      (run (router table true none) (request (codes "POST") (codes "/home")))
unfolding first is_full is_partial matches text_eq text_in starts_with is_connection mount_pattern
run-IsRefused_example =
    run-IsRefused table true none (request (codes "POST") (codes "/home"))
      (route_matches home (request (codes "POST") (codes "/home"))).1 (route home) refl refl refl

abbrev file_request : Scope
file_request = record (request (codes "GET") (codes "/v1/static/a.css")) { root_path = codes "/v1" }

mounted_below_example :
    ((mount_matches files file_request).0 ≡ full)
    × ((mount_matches files file_request).1.path ≡ file_request.path)
    × ((mount_matches files file_request).1.root_path ≡ codes "/v1" ++ codes "/static")
    × (get_route_path (mount_matches files file_request).1 ≡ codes "/a.css")
unfolding accepts begins_with_slash
mounted_below_example =
    mounted_below files file_request (codes "/static") (codes "a.css") refl refl refl refl
