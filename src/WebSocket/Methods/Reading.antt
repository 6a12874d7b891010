-- ===== src/WebSocket/Methods/Reading.antt =====
-- What an application reads from a `WebSocket`.
use rustlette.Prelude.{
  Option, some, Bool, true, false, List, [], ◌∷◌, ◌≡◌, refl, ◌∙◌, Text, Bytes, arith,
}
use rustlette.Prelude.Exec.{Result, ok, err}
use rustlette.WebSocket.{
  connected, disconnected, Message, connect, receive, disconnect, accept, Error, key_error,
  runtime_error, WebSocket, init, receive_message, send_message,
}
use rustlette.WebSocket.Methods.{accept_connection}
use rustlette.WebSocket.Protocol.{Call, receiving, sending, run}

receive_gone :
    (w : WebSocket)
    → w.client_state ≡ disconnected
    → ((receive_message w).1.inbox ≡ w.inbox) × ((receive_message w).1.client_state ≡ disconnected)
unfolding receive_message
receive_gone w e = ground arith

send_keeps :
    (broken : List Message → Bool) (m : Message) (w : WebSocket)
    → ((send_message broken m w).1.inbox ≡ w.inbox)
      × ((send_message broken m w).1.client_state ≡ w.client_state)
unfolding send_message
send_keeps broken m w = ground arith

-- Once the client has disconnected, no call takes another message from the server, and the client
-- stays disconnected.
pub run_after_disconnect :
    (broken : List Message → Bool) (calls : List Call) (w : WebSocket)
    → w.client_state ≡ disconnected
    → ((run broken calls w).inbox ≡ w.inbox) × ((run broken calls w).client_state ≡ disconnected)
unfolding run
run_after_disconnect broken [] w e = (refl, e)
run_after_disconnect broken (receiving ∷ calls) w e =
    let (inbox, state) = receive_gone w e in
    let (inbox', state') = run_after_disconnect broken calls (receive_message w).1 state in
    (inbox' ∙ inbox, state')
run_after_disconnect broken (sending m ∷ calls) w e =
    let (inbox, state) = send_keeps broken m w in
    let (inbox', state') =
      run_after_disconnect broken calls (send_message broken m w).1 (state ∙ e) in
    (inbox' ∙ inbox, state')

-- The messages that carry texts, each with whatever bytes it has beside.
abbrev pub texts : List (Option Text × Option (Option Bytes)) → List Message
texts [] = []
texts ((text, bytes) ∷ more) = receive (some text) bytes ∷ texts more

abbrev pub has_text : Message → Bool
has_text (receive (some text) bytes) = true
has_text _ = false

-- what an iteration over texts comes to at a message that has none, with what it has yielded
abbrev pub ended :
    List (Option Text)
    → (last : Message) → (rest : List Message) → WebSocket
    → Result Error (List (Option Text)) × WebSocket
ended out (disconnect code reason) rest w =
    (ok out, record w { inbox = rest; client_state = disconnected })
ended out (receive text bytes) rest w = (err key_error, record w { inbox = rest })
ended out _ rest w = (err runtime_error, record w { inbox = rest })

-- `accept` on a fresh connection takes the "connect" message first and then sends "accept": both
-- sides are connected, and the message is the first that the server sees.
pub accept_lem :
    (broken : List Message → Bool) (subprotocol : Option Text) (headers : List (Bytes × Bytes))
    (rest : List Message)
    → broken [] ≡ false
    → accept_connection broken subprotocol headers (init (connect ∷ rest)) ≡ (
      ok tt,
      record {
        client_state = connected;
        application_state = connected;
        inbox = rest;
        attempted = accept subprotocol headers ∷ [];
        sent = accept subprotocol headers ∷ [];
      },
    )
unfolding accept_connection init receive_message send_message
accept_lem broken subprotocol headers rest e = rw e
