-- ===== src/Exceptions.antt =====
-- rustlette/_exception_handler.py and rustlette/middleware/exceptions.py: which handler answers for an
-- exception, and what is sent then. Classes and handlers are numbers; a handler's own code, which
-- gives the messages of its response or raises, is a parameter.
pub mod Sent
pub mod Registered
pub mod Server
mod Tests
use rustlette.Prelude.{
  ℕ, Bool, true, false, Option, none, some, List, [], ◌∷◌, ◌++◌, Text, Bytes, Eq, nat_eq, ◌==◌,
  ◌||◌, if◌then◌else◌, any,
}
use rustlette.Prelude.Exec.{Result, ok, err}
use rustlette.MultiDict.Dict
use rustlette.Asgi.{HttpMessage, response_start}
use rustlette.Headers.{HeaderError}
use rustlette.Response.{Response, make_response, plain_text_response}

-- An exception with the classes of its `__mro__`; an `HTTPException` has a status code.
pub record Exception : Type 0 where
  pub mro : List ℕ
  pub status_code : Option ℕ

-- the dicts of handlers by class and by status code
pub record Handlers : Type 0 where
  pub exception_handlers : List (ℕ × ℕ)
  pub status_handlers : List (ℕ × ℕ)

-- `_lookup_exception_handler`
unfoldable pub lookup_exception_handler : List (ℕ × ℕ) → List ℕ → Option ℕ
lookup_exception_handler handlers [] = none
lookup_exception_handler handlers (cls ∷ mro) = elim (Dict.get cls handlers) [
  | some handler ↦ some handler
  | none ↦ lookup_exception_handler handlers mro
]

by_status : List (ℕ × ℕ) → Option ℕ → Option ℕ
unfolding Dict.get
by_status handlers none = none
by_status handlers (some status) = Dict.get status handlers

-- `handler`: by the status code, else by the class
unfoldable pub handler_of : Handlers → Exception → Option ℕ
unfolding by_status lookup_exception_handler
handler_of h exc = elim (by_status h.status_handlers exc.status_code) [
  | some handler ↦ some handler
  | none ↦ lookup_exception_handler h.exception_handlers exc.mro
]

-- How a call ends: it returns, an exception leaves it, or the `RuntimeError` "Caught handled exception,
-- but response already started" does.
pub data Ending : Type 0 where
  returned : Ending
  raised : Exception → Ending
  already_started : Ending

-- What an app does: the messages that it sends, and the exception that it raises at the end.
pub record Behaviour : Type 0 where
  pub messages : List HttpMessage
  pub exception : Option Exception

is_start : HttpMessage → Bool
is_start (response_start status raw) = true
is_start _ = false

-- `response_started` behind the messages that went through `sender`
unfoldable pub response_started : List HttpMessage → Bool
unfolding is_start
response_started messages = any is_start messages

module _ (run_handler : ℕ → Exception → Behaviour) where
  -- `response = await handler(conn, exc)` and the call of that response
  ending_of : Option Exception → Ending
  ending_of none = returned
  ending_of (some exc) = raised exc

  -- the `except` clause: what else is sent, and how the call ends
  handle_exception : Handlers → (started : Bool) → Exception → List HttpMessage × Ending
  unfolding handler_of ending_of
  handle_exception h started exc = elim (handler_of h exc) [
    | none ↦ ([], raised exc)
    | some handler ↦
        if started
        then ([], already_started)
        else ((run_handler handler exc).messages, ending_of (run_handler handler exc).exception)
  ]

  after_app : Handlers → List HttpMessage → Option Exception → List HttpMessage × Ending
  unfolding handle_exception response_started
  after_app h messages none = (messages, returned)
  after_app h messages (some exc) =
      let (more, ending) = handle_exception h (response_started messages) exc in
      (messages ++ more, ending)

  -- `wrapped_app`: all that is sent, and how the call ends
  unfoldable pub wrapped_app : Handlers → Behaviour → List HttpMessage × Ending
  unfolding after_app
  wrapped_app h app = after_app h app.messages app.exception

-- a key of `add_exception_handler`
pub data Key : Type 0 where
  status_key class_key : ℕ → Key

-- `add_exception_handler`
unfoldable pub add_exception_handler : Key → ℕ → Handlers → Handlers
unfolding Dict.set
add_exception_handler (status_key status) handler h = record h {
  status_handlers = Dict.set status handler h.status_handlers;
}
add_exception_handler (class_key cls) handler h = record h {
  exception_handlers = Dict.set cls handler h.exception_handlers;
}

add_handlers : List (Key × ℕ) → Handlers → Handlers
unfolding add_exception_handler
add_handlers [] h = h
add_handlers ((key, handler) ∷ items) h = add_handlers items (add_exception_handler key handler h)

-- `ExceptionMiddleware.__init__`; `own` has the two classes with the handlers of the middleware itself
unfoldable pub init : (own : List (ℕ × ℕ)) → List (Key × ℕ) → Handlers
unfolding add_handlers
init own handlers =
    add_handlers handlers (record { exception_handlers = own; status_handlers = [] })

-- `http_exception`; `detail` is the encoded text
unfoldable pub http_exception :
    (status : ℕ) → (detail : Bytes) → (headers : List (Text × Text)) → Result HeaderError Response
unfolding make_response plain_text_response
http_exception status detail headers =
    if status == 204 || status == 304
    then make_response [] status headers none
    else plain_text_response detail status headers
