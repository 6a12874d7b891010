-- ===== src/Wsgi/Responder.antt =====
-- rustlette/middleware/wsgi.py: `WSGIResponder`. The thread of the WSGI app puts messages into an
-- unbounded stream and `sender` takes them out in order, so what is sent is a beginning of the stream.
pub mod Sent
use mathlib.Core.List.{map}
use rustlette.Prelude.{
  lower_ascii, ℕ, ◌+◌, Bool, true, false, ◌&&◌, Option, none, some, List, [], ◌∷◌, ◌++◌, Text,
  Bytes, leb, ltb, all, split_once, strip, take, if◌then◌else◌,
}
use rustlette.Prelude.Exec.{Result, ok, err, Exec, raise}
use rustlette.Prelude.Int.{ℤ}
use rustlette.Ranges.{int}
use rustlette.Headers.{RawHeaders}
use rustlette.Request.{Event, request_event}
use rustlette.Asgi.{body_of, more_of}
use rustlette.Wsgi.{Scope, Environ, EnvironError, build_environ}

pub data StartError : Type 0 where
  value_error unicode_encode_error : StartError

-- A WSGI app as what it does: it calls `start_response` and goes on by the error that this raises, if
-- any, it yields a chunk, or it ends, by an exception or by a return. Exceptions are numbered.
pub data WsgiApp : Type 0 where
  starts :
      Text → List (Text × Text) → (exc_info : Option ℕ) → (Option StartError → WsgiApp) → WsgiApp
  yields : Bytes → WsgiApp → WsgiApp
  fails : ℕ → WsgiApp
  returns : WsgiApp

pub data Message : Type 0 where
  start_message : ℤ → RawHeaders → Message
  body_message : Bytes → (more_body : Option Bool) → Message

pub record Responder : Type 0 where
  pub response_started : Bool
  pub exc_info : Option ℕ
  pub stream : List Message

unfoldable pub init : Responder
init = record { response_started = false; exc_info = none; stream = [] }

-- `self.stream_send.send(message)`
put : Message → Responder → Responder
put m r = record r { stream = r.stream ++ m ∷ [] }

-- `text.strip().encode("ascii")`
stripped_ascii : Text → Option Bytes
unfolding strip
stripped_ascii s = if all (λ c. ltb c 128) (strip s) then some (strip s) else none

-- the headers of the start message; `none` is the `UnicodeEncodeError`
unfoldable pub raw_headers : List (Text × Text) → Option RawHeaders
unfolding stripped_ascii lower_ascii
raw_headers [] = some []
raw_headers ((name, value) ∷ headers) =
    let rest = raw_headers headers in
    elim (stripped_ascii name) [
      | none ↦ none
      | some n ↦ elim (stripped_ascii value) [
        | none ↦ none
        | some v ↦ elim rest [ none ↦ none | some l ↦ some ((map lower_ascii n, v) ∷ l) ]
      ]
    ]

-- `int(status_code_string)`; `none` is a `ValueError`, also that of a status with no space
unfoldable pub status_code : Text → Option ℤ
unfolding split_once int
status_code status = elim (split_once b' ' status) [
  | none ↦ none
  | some (status_code_string, reason) ↦ int status_code_string
]

-- What the first call sends.
send_start : Option ℤ → Option RawHeaders → Responder → Option StartError × Responder
unfolding put
send_start none headers r = (some value_error, r)
send_start (some code) none r = (some unicode_encode_error, r)
send_start (some code) (some headers) r = (none, put (start_message code headers) r)

start_if :
    (response_started : Bool)
    → Text
    → List (Text × Text)
    → Responder
    → Option StartError × Responder
unfolding send_start status_code raw_headers
start_if true status headers r = (none, r)
start_if false status headers r =
    send_start (status_code status) (raw_headers headers) (record r { response_started = true })

-- `start_response(status, response_headers, exc_info)`: what it raises, if anything
unfoldable pub start_response :
    Text → List (Text × Text) → Option ℕ → Responder → Option StartError × Responder
unfolding start_if
start_response status headers exc_info r =
    start_if r.response_started status headers (record r { exc_info = exc_info })

-- `wsgi(environ, start_response)` for what the app does: the exception that it raises, if any
unfoldable pub wsgi : WsgiApp → Responder → Option ℕ × Responder
unfolding put start_response
wsgi (starts status headers exc_info rest) r =
    let (error, r') = start_response status headers exc_info r in wsgi (rest error) r'
wsgi (yields chunk rest) r = wsgi rest (put (body_message chunk (some true)) r)
wsgi (fails e) r = (some e, r)
wsgi returns r = (none, put (body_message [] none) r)

-- A message of the server, which is read with defaults whatever its type is.
event_body : Event → Option Bytes
event_body (request_event body more) = body
event_body _ = none

event_more : Event → Option Bool
event_more (request_event body more) = more
event_more _ = none

-- The loop over the body of the request, and what is left unread; `none` is the wait for a message.
unfoldable pub read_body : Bytes → List Event → Option (Bytes × List Event)
unfolding event_body event_more
read_body body [] = none
read_body body (m ∷ inbox) =
    let rest = read_body (body ++ body_of (event_body m)) inbox in
    if more_of (event_more m) then rest else some (body ++ body_of (event_body m), inbox)

pub data Outcome : Type 0 where
  waiting completed : Outcome
  environ_error : EnvironError → Outcome
  app_error exc_info_error : ℕ → Outcome

-- `if self.exc_info is not None`
unfoldable pub raised_at_end : Option ℕ → Outcome
raised_at_end none = completed
raised_at_end (some e) = exc_info_error e

-- An exception of the app cancels `sender`, which has sent `progress` messages by then.
finished : (progress : ℕ) → Option ℕ × Responder → Outcome × List Message
unfolding raised_at_end
finished progress (none, r) = (raised_at_end r.exc_info, r.stream)
finished progress (some e, r) = (app_error e, take progress r.stream)

module _ (encode_utf8 : Text → Bytes) (app : Environ → WsgiApp) (progress : ℕ) where
  run_app : Result EnvironError Environ → Outcome × List Message
  unfolding finished wsgi init
  run_app (err e) = (environ_error e, [])
  run_app (ok environ) = finished progress (wsgi (app environ) init)

  call_with : Scope → Option (Bytes × List Event) → Outcome × List Message
  unfolding run_app build_environ
  call_with s none = (waiting, [])
  call_with s (some (body, inbox)) = run_app (build_environ encode_utf8 s body)

  -- `__call__`, with the messages that the server has for it
  unfoldable pub call : Scope → List Event → Outcome × List Message
  unfolding call_with read_body
  call s inbox = call_with s (read_body [] inbox)
