-- ===== src/Endpoints.antt =====
-- rustlette/endpoints.py: `WebSocketEndpoint` over the connection of WebSocket. The methods that an
-- endpoint overrides are the parameter `hook`; the encoding "json" is left out.
pub mod Calls
pub mod Fuel
pub mod Http
mod Tests
use mathlib.Core.List.{map}
use rustlette.Prelude.{
  ℕ, zero, suc, ◌+◌, Option, none, some, Bool, true, false, not, ◌&&◌, List, [], ◌∷◌, ◌++◌, Text,
  Bytes, codes, text_eq, text_in, length, keep, join, if◌then◌else◌,
}
use rustlette.Prelude.Exec.{Result, ok, err, Exec, ◌>>=◌, ◌>>◌, raise, pure, require}
use rustlette.WebSocket.{
  Message, connect, receive, disconnect, Error, runtime_error, key_error, pending, WebSocket,
  Action, receive_message,
}
use rustlette.WebSocket.Methods.{accept_connection, close_connection}

pub data Encoding : Type 0 where
  text_encoding bytes_encoding no_encoding : Encoding

-- What `decode` returns.
pub data Data : Type 0 where
  text_data : Option Text → Data
  bytes_data : Option Bytes → Data

-- The calls of `on_connect`, `on_receive` and `on_disconnect`.
pub data Hook : Type 0 where
  on_connect : Hook
  on_receive : Data → Hook
  on_disconnect : ℕ → Hook

-- The connection, and the calls that have been made of the endpoint.
pub record State : Type 0 where
  pub websocket : WebSocket
  pub calls : List Hook

-- `message.get("code") or status.WS_1000_NORMAL_CLOSURE`
or_normal : ℕ → ℕ
or_normal zero = 1000
or_normal (suc code) = suc code

module _ (broken : List Message → Bool) (hook : Hook → Action (Unit {0}))
    (encoding : Encoding) where
  -- `close` and `raise` of a message that does not fit
  unsupported : Action Data
  unfolding close_connection
  unsupported = close_connection broken 1003 none >> raise runtime_error

  -- without an encoding: the text if there is one that is not empty, or the bytes
  plain_data : Option (Option Text) → Option (Option Bytes) → Action Data
  plain_data (some (some (c ∷ s))) bytes = pure (text_data (some (c ∷ s)))
  plain_data text (some bytes) = pure (bytes_data bytes)
  plain_data text none = raise key_error

  decode : Encoding → Option (Option Text) → Option (Option Bytes) → Action Data
  unfolding unsupported plain_data
  decode text_encoding none bytes = unsupported
  decode text_encoding (some text) bytes = pure (text_data text)
  decode bytes_encoding text none = unsupported
  decode bytes_encoding text (some bytes) = pure (bytes_data bytes)
  decode no_encoding text bytes = plain_data text bytes

  -- a method of the connection, in the endpoint
  lifted : {A : Type 0} → Result Error A × WebSocket → List Hook → Result Error A × State
  lifted (r, w) calls = (r, record { websocket = w; calls = calls })

  called : Hook → Exec State Error (Unit {0})
  unfolding lifted
  called h s = lifted (hook h s.websocket) (s.calls ++ h ∷ [])

  -- what the loop does with a message, given the rounds that are left
  on_message : (rest : Exec State Error ℕ) → Message → Exec State Error ℕ
  unfolding called decode lifted or_normal
  on_message rest (receive text bytes) s =
      ((λ t. lifted (decode encoding text bytes t.websocket) t.calls)
          >>= (λ d. called (on_receive d) >> rest))
        s
  on_message rest (disconnect code reason) s = (ok (or_normal code), s)
  on_message rest m s = rest s

  -- The loop of `dispatch`, up to its close code. Each round takes a message or ends.
  pub loop : ℕ → Exec State Error ℕ
  unfolding on_message receive_message lifted
  loop zero s = (err pending, s)
  loop (suc fuel) s =
      ((λ t. lifted (receive_message t.websocket) t.calls) >>= on_message (loop fuel)) s

  -- `raise exc` behind `on_disconnect`, which may raise an exception of its own
  reraised : Error → Result Error (Unit {0}) × State → Result Error (Unit {0}) × State
  reraised e (ok tt, s) = (err e, s)
  reraised e (err f, s) = (err f, s)

  -- `except` and `finally`; a loop that waits for a message is in neither
  closed : Result Error ℕ × State → Result Error (Unit {0}) × State
  unfolding called reraised
  closed (ok code, s) = called (on_disconnect code) s
  closed (err pending, s) = (err pending, s)
  closed (err e, s) = reraised e (called (on_disconnect 1011) s)

  after_connect : Result Error (Unit {0}) × State → Result Error (Unit {0}) × State
  unfolding closed loop
  after_connect (ok tt, s) = closed (loop (suc (suc (length s.websocket.inbox))) s)
  after_connect (err e, s) = (err e, s)

  -- `dispatch()`
  unfoldable pub dispatch : WebSocket → Result Error (Unit {0}) × State
  unfolding after_connect called
  dispatch w = after_connect (called on_connect (record { websocket = w; calls = [] }))

-- The methods of an endpoint that is not overridden.
unfoldable pub default_hook : (List Message → Bool) → Hook → Action (Unit {0})
unfolding accept_connection
default_hook broken on_connect = accept_connection broken none []
default_hook broken (on_receive d) = pure tt
default_hook broken (on_disconnect code) = pure tt
