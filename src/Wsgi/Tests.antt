-- ===== src/Wsgi/Tests.antt =====
-- The bridge to WSGI at concrete inputs.
use rustlette.Prelude.{
  ◌≡◌, refl, true, false, Option, none, some, List, [], ◌∷◌, ◌++◌, Text, Bytes, codes,
  text_eq_instance, ◌≤◌, if◌then◌else◌, arith,
}
use rustlette.Prelude.Exec.{ok}
use rustlette.Prelude.Int.{pos}
use rustlette.MultiDict.Dict
use rustlette.Request.{request_event}
use rustlette.Wsgi.{
  Scope, Entry, text_entry, Environ, build_environ, environ_of, corrected_name, path_info,
  script_name,
}
use rustlette.Wsgi.Merged.{get-build_environ, is_header_key, values_of, joined}
use rustlette.Wsgi.Responder.{
  StartError, WsgiApp, starts, yields, fails, returns, Message, start_message, body_message, init,
  wsgi, call, completed, exc_info_error, app_error, status_code, raw_headers, raised_at_end,
}
use rustlette.Wsgi.Responder.Sent.{
  call_lem, starts_in-wsgi, starts_in, first_start, assembled, yielded, last_exc_info,
}

abbrev scope : Scope
scope = record {
  method = codes "POST";
  scheme = none;
  path = codes "/app/x";
  root_path = some (codes "/app");
  query_string = codes "q=1";
  http_version = codes "1.1";
  server = none;
  client = some (codes "127.0.0.1", 5000);
  headers =
      (codes "x-id", codes "1")
      ∷ (codes "content-type", codes "a/b")
      ∷ (codes "x-id", codes "2")
      ∷ [];
}

abbrev encode : Text → Bytes
encode s = s

-- An app that echoes a header and the body, and calls `start_response` again behind a chunk.
abbrev again : Option StartError → WsgiApp
again e =
    yields (codes "ab") (starts (codes "500 No") [] (some 7) (λ e'. yields (codes "c") returns))

abbrev app : Environ → WsgiApp
app environ = starts (codes "200 OK") ((codes " X-A ", codes "v") ∷ []) none again

get-build_environ_example :
    (environ : Environ) × (build_environ encode scope (codes "b") ≡ ok environ)
    × ((key : Text)
        → is_header_key key ≡ true
        → Dict.get key environ ≡ joined (values_of key scope.headers))
    × ((key : Text)
        → is_header_key key ≡ false
        → Dict.get key environ ≡ Dict.get key (environ_of encode scope (codes "b")))
get-build_environ_example = get-build_environ encode scope (codes "b") refl

twice : joined (values_of (codes "HTTP_X_ID") scope.headers) ≡ some (text_entry (codes "1,2"))
unfolding joined values_of
twice = refl

below : path_info encode scope ≡ codes "/x"
unfolding path_info
below = refl

call_lem_example :
    (sent : List Message) × (call encode app 0 scope
        (request_event (some (codes "b")) (some true) ∷ request_event none none ∷ [])
      ≡ (exc_info_error 7, start_message (pos 200) ((codes "x-a", codes "v") ∷ []) ∷ sent))
    × (assembled sent ≡ some (codes "abc"))
unfolding build_environ status_code rustlette.Prelude.strip raw_headers
    rustlette.Wsgi.Responder.Sent.failure raised_at_end yielded last_exc_info
call_lem_example =
    call_lem encode app 0 scope (some (codes "b") ∷ []) none none [] (codes "200 OK")
      ((codes " X-A ", codes "v") ∷ []) none again refl refl refl refl refl refl

-- A call of `start_response` that raises counts as the first one: another one sends nothing.
retried :
    wsgi
      (starts
        (codes "bad")
        []
        none
        (λ e. starts (codes "200 OK") [] none (λ e'. yields (codes "a") returns)))
      init
    ≡ (
      none,
      record {
        response_started = true;
        exc_info = none;
        stream = body_message (codes "a") (some true) ∷ body_message [] none ∷ [];
      },
    )
unfolding wsgi init
retried = refl

starts_in-wsgi_example :
    starts_in (wsgi (yields (codes "x") (starts (codes "200 OK") [] none again)) init).1.stream
    ≡ first_start (yields (codes "x") (starts (codes "200 OK") [] none again))
starts_in-wsgi_example = starts_in-wsgi (yields (codes "x") (starts (codes "200 OK") [] none again))
