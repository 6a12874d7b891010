-- ===== src/Response/Tests.antt =====
-- Runs of responses, and their theorems at concrete inputs.
use rustlette.Prelude.{◌≡◌, refl, Bool, some, List, [], ◌∷◌, codes, text_eq, length, ◌==◌}
use rustlette.Prelude.Exec.{ok, err}
use rustlette.Asgi.{HttpMessage, response_start}
use rustlette.Headers.{RawHeaders}
use rustlette.Response.Streaming.{StreamingResponse, call, client_disconnect}
use rustlette.Response.{init_raw}

abbrev built : RawHeaders
built =
    (codes "x-a", codes "1")
    ∷ (codes "content-length", codes "12")
    ∷ (codes "content-type", codes "text/plain; charset=utf-8")
    ∷ []

init_test :
    init_raw 200
      (some (codes "hello, world"))
      (some (codes "text/plain"))
      ((codes "x-a", codes "1") ∷ [])
    ≡ ok built
unfolding init_raw text_eq
init_test = refl

-- The third message does not go through.
abbrev two_go : List HttpMessage → Bool
two_go attempted = length attempted == 2

abbrev streamed : StreamingResponse
streamed = record { status_code = 200; raw_headers = []; chunks = codes "ab" ∷ codes "c" ∷ [] }

abbrev leaves : List HttpMessage → Bool
leaves attempted = length attempted == 1

-- With a newer server the third send fails; with an older one the client has left before the second.
newer : (call two_go leaves (2 ∷ 4 ∷ []) streamed).0 ≡ err client_disconnect
unfolding call
newer = refl

older :
    call two_go leaves (2 ∷ 3 ∷ []) streamed
    ≡ (ok tt, record { attempted = response_start 200 [] ∷ []; sent = response_start 200 [] ∷ [] })
unfolding call
older = refl
