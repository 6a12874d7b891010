-- ===== src/Request/Tests.antt =====
-- Runs of requests, and their theorems at concrete inputs.
use rustlette.Prelude.{
  ◌≡◌, refl, Option, none, some, true, false, List, [], ◌∷◌, ◌++◌, Text, Bytes, codes, text_eq,
  text_eq_instance, ends_with,
}
use rustlette.Prelude.Exec.{ok, err}
use rustlette.Request.{
  Event, other_event, request_event, disconnect_event, Request, init, get_body, check_disconnected,
  client_disconnect, next,
}
use rustlette.Request.Cached
use rustlette.Request.Cached.{receiving, reading_body, run}
use rustlette.Request.Cached.Delivery.{Phase, begun, advances, run_lem}
use rustlette.Request.Cookies.{cookie_parser}
use rustlette.Request.Body.{frames, get_body_lem, gathered, get_body-eq-gathered}

abbrev sent : List (Option Bytes)
sent = some (codes "ab") ∷ none ∷ some (codes "c") ∷ []

abbrev consumed : Request
consumed = record {
  inbox = disconnect_event ∷ [];
  stream_consumed = true;
  is_disconnected = false;
  body = some (codes "abcd");
}

get_body_lem_example :
    (get_body (init (frames sent ++ request_event (some (codes "d")) none ∷ disconnect_event ∷ []))
      ≡ (ok (codes "abcd"), consumed))
    × (get_body consumed ≡ (ok (codes "abcd"), consumed))
get_body_lem_example = get_body_lem sent (some (codes "d")) none (disconnect_event ∷ []) refl

-- The client is gone before the body is whole.
cut_short :
    (get_body (init (request_event (some (codes "ab")) (some true) ∷ disconnect_event ∷ []))).0
    ≡ err client_disconnect
unfolding get_body init next
cut_short = refl

-- A poll for the disconnect takes a message of the body, which is then missing.
polled :
    (get_body
      (check_disconnected (
        init (
          request_event (some (codes "ab")) (some true)
          ∷ request_event (some (codes "c")) none
          ∷ []))).1).0
    ≡ ok (codes "c")
unfolding get_body check_disconnected init next
polled = refl

abbrev leaving : List Event
leaving =
    request_event (some (codes "ab")) (some true)
    ∷ other_event (codes "x")
    ∷ disconnect_event
    ∷ disconnect_event
    ∷ []

get_body-eq-gathered_example : get_body (init leaving) ≡ gathered [] leaving
get_body-eq-gathered_example = get_body-eq-gathered leaving

-- The middleware reads the body between two receives of the app below it.
run_lem_example :
    (p : Phase) × (advances begun (
        run (receiving ∷ reading_body ∷ receiving ∷ receiving ∷ []) (
          Cached.init (
            request_event (some (codes "a")) (some true)
            ∷ request_event (some (codes "b")) none
            ∷ disconnect_event
            ∷ [])))
      ≡ some p)
run_lem_example = run_lem (receiving ∷ reading_body ∷ receiving ∷ receiving ∷ []) (
    request_event (some (codes "a")) (some true)
    ∷ request_event (some (codes "b")) none
    ∷ disconnect_event
    ∷ [])

abbrev three_cookies : List (Text × Text)
three_cookies = (codes "a", codes "1") ∷ (codes "b", []) ∷ (codes "a", codes "x=y") ∷ []

-- A quoted value, an escaped octal character, and a chunk with no "=".
quoted : cookie_parser (codes "a=\"x\\054y\"; b") ≡ (codes "a", codes "x,y") ∷ ([], codes "b") ∷ []
unfolding cookie_parser text_eq ends_with
quoted = refl
