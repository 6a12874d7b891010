-- ===== src/WebSocket/Tests.antt =====
-- Runs of `WebSocket`, and its theorems at concrete inputs.
use rustlette.Prelude.{
  Option, none, some, Bool, true, false, List, [], ◌∷◌, ◌++◌, ◌≡◌, refl, codes, Text, Bytes,
}
use rustlette.WebSocket.{
  WebSocketState, connected, disconnected, Message, connect, receive, disconnect, accept, send_text,
  close, WebSocket, init, receive_message, send_message,
}
use rustlette.WebSocket.Protocol.{
  Session, Call, receiving, sending, run, run-Session, run_delivered,
}

-- A connection that takes one message and is broken then.
abbrev breaks : List Message → Bool
breaks (_ ∷ _) = true
breaks _ = false

breaks_lasting : (l : List Message) (m : Message) → breaks l ≡ true → breaks (l ++ m ∷ []) ≡ true
breaks_lasting (x ∷ l) m h = refl
breaks_lasting [] m h = cc

abbrev never : List Message → Bool
never _ = false

abbrev calls : List Call
calls =
    receiving
    ∷ sending (send_text [])
    ∷ sending (accept none [])
    ∷ sending (send_text (codes "a"))
    ∷ sending (close 1000 [])
    ∷ sending (send_text (codes "late"))
    ∷ []

run_test :
    (run never calls (init (connect ∷ []))).sent
    ≡ accept none [] ∷ send_text (codes "a") ∷ close 1000 [] ∷ []
unfolding run send_message init receive_message
run_test = refl

run-Session_example :
    (s : WebSocketState) × Session s (run breaks calls (init (connect ∷ []))).attempted
run-Session_example = run-Session breaks calls (connect ∷ [])

run_delivered_example :
    (s : WebSocketState) × Session s (run breaks calls (init (connect ∷ []))).sent
run_delivered_example = run_delivered breaks breaks_lasting calls (connect ∷ [])

-- A send that fails, with a good one behind it: the frame reaches the server, the "accept" does not.
abbrev fails_first : List Message → Bool
fails_first [] = true
fails_first _ = false

passing_failure :
    (run fails_first
      (sending (accept none []) ∷ sending (send_text (codes "a")) ∷ [])
      (init [])).sent
    ≡ send_text (codes "a") ∷ []
unfolding run send_message init
passing_failure = refl

abbrev gone : WebSocket
gone = record {
  client_state = disconnected;
  application_state = connected;
  inbox = connect ∷ [];
  attempted = [];
  sent = [];
}

abbrev two : List (Option Text × Option (Option Bytes))
two = (some (codes "a"), none) ∷ (none, some none) ∷ []

abbrev talking : WebSocket
talking = record {
  client_state = connected;
  application_state = connected;
  inbox =
      receive (some (some (codes "a"))) none
      ∷ receive (some none) (some none)
      ∷ disconnect 1001 none
      ∷ connect
      ∷ [];
  attempted = [];
  sent = [];
}
