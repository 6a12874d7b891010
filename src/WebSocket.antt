-- ===== src/WebSocket.antt =====
-- rustlette/websockets.py: `WebSocket`, a state machine between the application and the server.
-- `_receive` takes the next message of `inbox`; with an empty inbox the call waits, which is the
-- error `pending`. `_send` is the server's: `broken attempted` says whether it raises `OSError` behind
-- the calls `attempted` of it, so every pattern of failures occurs, one that passes among them.
pub mod Protocol
pub mod Methods
mod Tests
use rustlette.Prelude.{
  ℕ, Option, none, some, Bool, true, false, not, ◌||◌, List, [], ◌∷◌, ◌++◌, Text, Bytes, codes,
  text_eq, text_in, if◌then◌else◌,
}
use rustlette.Prelude.Exec.{Result, ok, err, Exec, ◌>>=◌, ◌>>◌, raise, pure, require}

pub data WebSocketState : Type 0 where
  connecting connected disconnected response : WebSocketState

-- A message of the ASGI protocol by its "type"; a key that may be missing is an `Option`, and a
-- text or bytes that may be `None` is an `Option` in it.
pub data Message : Type 0 where
  connect : Message
  receive : Option (Option Text) → Option (Option Bytes) → Message
  disconnect : ℕ → Option Text → Message
  accept : Option Text → List (Bytes × Bytes) → Message
  send_text : Text → Message
  send_bytes : Bytes → Message
  close : ℕ → Text → Message
  response_start : ℕ → List (Bytes × Bytes) → Message
  response_body : Bytes → Option Bool → Message
  other : Text → Message

pub data Error : Type 0 where
  runtime_error key_error os_error pending : Error
  websocket_disconnect : ℕ → Text → Error

pub record WebSocket : Type 0 where
  pub client_state : WebSocketState
  pub application_state : WebSocketState
  pub inbox : List Message
  pub attempted : List Message
  pub sent : List Message

-- `WebSocket.__init__`, with the messages that the server is going to deliver
unfoldable pub init : List Message → WebSocket
init inbox = record {
  client_state = connecting;
  application_state = connecting;
  inbox = inbox;
  attempted = [];
  sent = [];
}

abbrev pub Action : Type 0 → Type 0
Action = Exec WebSocket Error

-- `_receive()` followed by the check of the message's type in the state `connecting`
receive_connect : List Message → Action Message
receive_connect [] w = (err pending, w)
receive_connect (connect ∷ rest) w =
    (ok connect, record w { inbox = rest; client_state = connected })
receive_connect (_ ∷ rest) w = (err runtime_error, record w { inbox = rest })

-- the same in the state `connected`
receive_data : List Message → Action Message
receive_data [] w = (err pending, w)
receive_data (receive text bytes ∷ rest) w = (ok (receive text bytes), record w { inbox = rest })
receive_data (disconnect code reason ∷ rest) w =
    (ok (disconnect code reason), record w { inbox = rest; client_state = disconnected })
receive_data (_ ∷ rest) w = (err runtime_error, record w { inbox = rest })

receive_in : WebSocketState → Action Message
receive_in connecting w = receive_connect w.inbox w
receive_in connected w = receive_data w.inbox w
receive_in _ w = (err runtime_error, w)

unfoldable pub receive_message : Action Message
unfolding receive_in receive_connect receive_data
receive_message w = receive_in w.client_state w

-- `message.get("more_body", False)`
pub more_body : Option Bool → Bool
more_body none = false
more_body (some more) = more

module _ (broken : List Message → Bool) where
  -- `_send(message)`: with `attempted` every message that it is called with, with `sent` those that reach
  -- the server
  deliver : Message → Action (Unit {0})
  deliver m w =
      if broken w.attempted
      then (err os_error, record w { attempted = w.attempted ++ m ∷ [] })
      else (ok tt, record w { attempted = w.attempted ++ m ∷ []; sent = w.sent ++ m ∷ [] })

  -- `except OSError` in the state `connected`
  lost : Result Error (Unit {0}) × WebSocket → Result Error (Unit {0}) × WebSocket
  lost (err os_error, w) =
      (err (websocket_disconnect 1006 []), record w { application_state = disconnected })
  lost r = r

  send_connecting : Message → Action (Unit {0})
  send_connecting (close c r) w =
      deliver (close c r) (record w { application_state = disconnected })
  send_connecting (response_start s h) w =
      deliver (response_start s h) (record w { application_state = response })
  send_connecting (accept p h) w = deliver (accept p h) (record w { application_state = connected })
  send_connecting _ w = (err runtime_error, w)

  send_connected : Message → Action (Unit {0})
  send_connected (close c r) w =
      lost (deliver (close c r) (record w { application_state = disconnected }))
  send_connected (send_text t) w = lost (deliver (send_text t) w)
  send_connected (send_bytes b) w = lost (deliver (send_bytes b) w)
  send_connected _ w = (err runtime_error, w)

  send_response : Message → Action (Unit {0})
  send_response (response_body b more) w =
      deliver (response_body b more)
        (if more_body more then w else record w { application_state = disconnected })
  send_response _ w = (err runtime_error, w)

  send_in : WebSocketState → Message → Action (Unit {0})
  send_in connecting m w = send_connecting m w
  send_in connected m w = send_connected m w
  send_in response m w = send_response m w
  send_in disconnected m w = (err runtime_error, w)

  unfoldable pub send_message : Message → Action (Unit {0})
  unfolding send_in send_connecting send_connected send_response deliver lost more_body
  send_message m w = send_in w.application_state m w
