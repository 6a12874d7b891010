-- ===== src/WebSocket/Methods.antt =====
-- rustlette/websockets.py: the methods of `WebSocket` that are built from `receive` and `send`.
pub mod Reading
use rustlette.Prelude.{
  ℕ, zero, suc, ◌+◌, Option, none, some, Bool, true, false, List, [], ◌∷◌, ◌++◌, Text, Bytes,
  if◌then◌else◌, length,
}
use rustlette.Prelude.Exec.{Result, ok, err, Exec, ◌>>=◌, ◌>>◌, raise, pure, require}
use rustlette.WebSocket.{
  WebSocketState, connecting, connected, disconnected, response, Message, receive, disconnect,
  accept, send_text, send_bytes, close, response_start, response_body, Error, runtime_error,
  key_error, pending, websocket_disconnect, WebSocket, Action, receive_message, send_message,
}

-- The object itself, to read its fields.
abbrev self : Action WebSocket
self w = (ok w, w)

-- `reason or ""`
abbrev pub or_empty : Option Text → Text
or_empty none = []
or_empty (some reason) = reason

raise_on_disconnect : Message → Action (Unit {0})
raise_on_disconnect (disconnect code reason) = raise (websocket_disconnect code (or_empty reason))
raise_on_disconnect _ = pure tt

-- the guard of the `receive_*` methods
check_connected : WebSocketState → Action (Unit {0})
check_connected connected = pure tt
check_connected _ = raise runtime_error

-- `message["text"]` and `message["bytes"]`
text_of : Message → Option (Option Text)
text_of (receive text bytes) = text
text_of _ = none

bytes_of : Message → Option (Option Bytes)
bytes_of (receive text bytes) = bytes
bytes_of _ = none

unfoldable pub receive_text : Action (Option Text)
unfolding receive_message check_connected raise_on_disconnect text_of
receive_text = do
  w ← self
  check_connected w.application_state
  message ← receive_message
  raise_on_disconnect message
  require key_error (text_of message)

unfoldable pub receive_bytes : Action (Option Bytes)
unfolding receive_message check_connected raise_on_disconnect bytes_of
receive_bytes = do
  w ← self
  check_connected w.application_state
  message ← receive_message
  raise_on_disconnect message
  require key_error (bytes_of message)

-- the `except WebSocketDisconnect: pass` of the iterators; any other error goes through
end_of : {A : Type 0} → Error → List A → Action (List A)
end_of (websocket_disconnect code reason) out = pure out
end_of e out = raise e

-- one round of the iterators behind the call of `receive_text` or `receive_bytes`
after :
    {A : Type 0}
    → (List A → Action (List A))
    → List A
    → Result Error A × WebSocket
    → Result Error (List A) × WebSocket
unfolding end_of
after again out (ok item, w) = again (out ++ item ∷ []) w
after again out (err e, w) = end_of e out w

-- The loop of `iter_text` and `iter_bytes`: what the caller collects from `receive_one`. A round
-- takes a message from the inbox, so the fuel of the callers is never used up.
iterate : {A : Type 0} → Action A → ℕ → List A → Action (List A)
unfolding after
iterate receive_one zero out w = (err pending, w)
iterate receive_one (suc fuel) out w = after (iterate receive_one fuel) out (receive_one w)

unfoldable pub iter_text : Action (List (Option Text))
unfolding receive_text iterate
iter_text w = iterate receive_text (length w.inbox + 1) [] w

unfoldable pub iter_bytes : Action (List (Option Bytes))
unfolding receive_bytes iterate
iter_bytes w = iterate receive_bytes (length w.inbox + 1) [] w

module _ (broken : List Message → Bool) where
  await_connect : WebSocketState → Action (Unit {0})
  await_connect connecting = do message ← receive_message; pure tt
  await_connect _ = pure tt

  unfoldable pub accept_connection : Option Text → List (Bytes × Bytes) → Action (Unit {0})
  unfolding await_connect
  accept_connection subprotocol headers = do
    w ← self
    await_connect w.client_state
    send_message broken (accept subprotocol headers)

  unfoldable pub close_connection : ℕ → Option Text → Action (Unit {0})
  close_connection code reason = send_message broken (close code (or_empty reason))

  -- `send_denial_response`; the response is its status, its headers and its body, and `extension`
  -- says whether "websocket.http.response" is among the scope's extensions
  unfoldable pub send_denial_response :
      (extension : Bool) → ℕ → List (Bytes × Bytes) → Bytes → Action (Unit {0})
  send_denial_response true status headers body = do
    send_message broken (response_start status headers)
    send_message broken (response_body body none)
  send_denial_response false status headers body = raise runtime_error
