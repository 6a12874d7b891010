-- ===== src/Exceptions/Server.antt =====
-- rustlette/middleware/errors.py: `ServerErrorMiddleware.__call__` around an app on an HTTP connection. The
-- response with a traceback and the installed handler are parameters; a handler returns a response,
-- which is what its call does, or raises.
pub mod Answered
use rustlette.Prelude.{Bool, true, false, Option, none, some, List, [], ◌∷◌, ◌++◌, codes}
use rustlette.Prelude.Exec.{Result, ok, err}
use rustlette.Asgi.{HttpMessage}
use rustlette.Headers.{HeaderError}
use rustlette.Response.{Response, plain_text_response, respond}
use rustlette.Exceptions.{
  Exception, Ending, returned, raised, already_started, Behaviour, response_started,
}

-- the messages of a response that was built
sent_by : Result HeaderError Response → Behaviour
unfolding respond
sent_by (ok r) = record { messages = respond r; exception = none }
sent_by (err e) = record { messages = []; exception = none }

-- `error_response`
unfoldable pub error_response : Behaviour
unfolding sent_by plain_text_response
error_response = sent_by (plain_text_response (codes "Internal Server Error") 500 [])

-- the response for an exception
unfoldable pub response_for :
    (debug_response : Exception → Behaviour)
    → Option (Exception → Result Exception Behaviour)
    → (debug : Bool) → Exception
    → Result Exception Behaviour
unfolding error_response
response_for debug_response handler true exc = ok (debug_response exc)
response_for debug_response none false exc = ok error_response
response_for debug_response (some handler) false exc = handler exc

-- `raise exc` behind the call of the response, which may raise
reraised : Exception → Option Exception → Ending
reraised exc none = raised exc
reraised exc (some other) = raised other

-- the call of the response, unless another one has started
answer : (started : Bool) → Exception → Result Exception Behaviour → List HttpMessage × Ending
unfolding reraised
answer started exc (err other) = ([], raised other)
answer true exc (ok response) = ([], raised exc)
answer false exc (ok response) = (response.messages, reraised exc response.exception)

-- the exception that leaves the app; `runtime_error` is that of a response that had started
unfoldable pub exception_of : (runtime_error : Exception) → Ending → Option Exception
exception_of runtime_error returned = none
exception_of runtime_error (raised exc) = some exc
exception_of runtime_error already_started = some runtime_error

module _ (debug_response : Exception → Behaviour) (runtime_error : Exception)
    (handler : Option (Exception → Result Exception Behaviour)) where
  after_inner : (debug : Bool) → List HttpMessage → Option Exception → List HttpMessage × Ending
  unfolding answer response_for response_started
  after_inner debug messages none = (messages, returned)
  after_inner debug messages (some exc) =
      let (more, ending) =
        answer (response_started messages) exc (response_for debug_response handler debug exc) in
      (messages ++ more, ending)

  -- `__call__`, from what the app below sends and how it ends
  unfoldable pub server_error :
      (debug : Bool) → List HttpMessage × Ending → List HttpMessage × Ending
  unfolding after_inner exception_of
  server_error debug (messages, ending) =
      after_inner debug messages (exception_of runtime_error ending)
