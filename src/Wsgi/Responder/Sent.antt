-- ===== src/Wsgi/Responder/Sent.antt =====
-- What a WSGI app's answer comes to as messages.
use rustlette.Prelude.{
  ℕ, ◌≡◌, refl, ap, sym, ◌∙◌, Bool, true, false, Option, none, some, List, [], ◌∷◌, ◌++◌,
  append_assoc, append-nil, Text, Bytes, if◌then◌else◌, arith,
}
use rustlette.Prelude.Exec.{ok}
use rustlette.Prelude.Int.{ℤ}
use rustlette.Headers.{RawHeaders}
use rustlette.Request.{Event, request_event}
use rustlette.Request.Body.{frames, joined}
use rustlette.Asgi.{body_of, more_of, prepend}
use rustlette.Wsgi.{Scope, Environ, build_environ}
use rustlette.Wsgi.Responder.{
  StartError, WsgiApp, starts, yields, fails, returns, Message, start_message, body_message,
  Responder, init, put, status_code, raw_headers, send_start, start_if, start_response, wsgi,
  read_body, raised_at_end, finished, run_app, call_with, call,
}

-- What an app does once its answer is started, where `start_response` does not raise: the chunks that it
-- yields, the `exc_info` of its last call, and the exception at its end.
unfoldable pub yielded : WsgiApp → Bytes
yielded (starts status headers exc_info rest) = yielded (rest none)
yielded (yields chunk rest) = chunk ++ yielded rest
yielded _ = []

unfoldable pub last_exc_info : Option ℕ → WsgiApp → Option ℕ
last_exc_info e (starts status headers exc_info rest) = last_exc_info exc_info (rest none)
last_exc_info e (yields chunk rest) = last_exc_info e rest
last_exc_info e _ = e

unfoldable pub failure : WsgiApp → Option ℕ
failure (starts status headers exc_info rest) = failure (rest none)
failure (yields chunk rest) = failure rest
failure (fails e) = some e
failure returns = none

at_end : Bytes → List Message → Option Bytes
at_end body [] = some body
at_end body (_ ∷ _) = none

-- What a client assembles from the messages behind the start: the bodies, if each but the last
-- announces another one, the last does not, and nothing follows it.
unfoldable pub assembled : List Message → Option Bytes
unfolding at_end
assembled (body_message body more ∷ messages) =
    let rest = assembled messages in
    if more_of more then prepend body rest else at_end body messages
assembled _ = none

-- the messages of an app whose answer is started
bodies : WsgiApp → List Message
bodies (starts status headers exc_info rest) = bodies (rest none)
bodies (yields chunk rest) = body_message chunk (some true) ∷ bodies rest
bodies (fails e) = []
bodies returns = body_message [] none ∷ []

assembled-bodies :
    (app : WsgiApp) → failure app ≡ none → assembled (bodies app) ≡ some (yielded app)
unfolding assembled bodies yielded failure
assembled-bodies (starts status headers exc_info rest) h = assembled-bodies (rest none) h
assembled-bodies (yields chunk rest) h = rw (assembled-bodies rest h) refl
assembled-bodies (fails e) h = cc
assembled-bodies returns h = refl

wsgi_started :
    (app : WsgiApp) (exc_info : Option ℕ) (stream : List Message)
    → wsgi app (record { response_started = true; exc_info = exc_info; stream = stream }) ≡ (
      failure app,
      record {
        response_started = true;
        exc_info = last_exc_info exc_info app;
        stream = stream ++ bodies app;
      },
    )
unfolding wsgi failure last_exc_info bodies start_response start_if put
wsgi_started (starts status headers exc_info rest) e stream =
    wsgi_started (rest none) exc_info stream
wsgi_started (yields chunk rest) e stream =
    wsgi_started rest e (stream ++ body_message chunk (some true) ∷ []) ∙ simp append_assoc
wsgi_started (fails x) e stream = simp append-nil
wsgi_started returns e stream = refl

-- a request's messages are read whole
read_body-frames :
    (bs : List (Option Bytes)) (last : Option Bytes) (more : Option Bool) (rest : List Event)
    (body : Bytes)
    → more_of more ≡ false
    → read_body body (frames bs ++ request_event last more ∷ rest)
      ≡ some (body ++ (joined bs ++ body_of last), rest)
unfolding read_body
read_body-frames [] last more rest body final = rw final refl
read_body-frames (b ∷ bs) last more rest body final =
    read_body-frames bs last more rest (body ++ body_of b) final ∙ simp append_assoc

wsgi-starts :
    (status : Text) (headers : List (Text × Text)) (exc_info : Option ℕ)
    (next : Option StartError → WsgiApp) {code : ℤ} {raw : RawHeaders}
    → status_code status ≡ some code
    → raw_headers headers ≡ some raw
    → wsgi (starts status headers exc_info next) init ≡ (
      failure (next none),
      record {
        response_started = true;
        exc_info = last_exc_info exc_info (next none);
        stream = start_message code raw ∷ bodies (next none);
      },
    )
unfolding wsgi start_response start_if send_start init put
wsgi-starts status headers exc_info next {code} {raw} h h' =
    rw (h, h', send_start) (wsgi_started (next none) exc_info (start_message code raw ∷ []))

-- A request whose messages have all come is answered as its WSGI app answers: the app is called with
-- the environ of the whole body. If it starts its answer with a status that has a number and headers
-- that are ASCII, and then returns, what is sent is this start, once, whatever other calls of
-- `start_response` follow, and behind it messages from which a client assembles all the chunks in
-- order. The call ends by the `exc_info` of the last call of `start_response`, if it has one.
pub call_lem :
    (encode_utf8 : Text → Bytes) (app : Environ → WsgiApp) (progress : ℕ) (s : Scope)
    (bs : List (Option Bytes)) (last : Option Bytes) (more : Option Bool) (rest : List Event)
    (status : Text) (headers : List (Text × Text)) (exc_info : Option ℕ)
    (next : Option StartError → WsgiApp) {environ : Environ} {code : ℤ} {raw : RawHeaders}
    → more_of more ≡ false
    → build_environ encode_utf8 s (joined bs ++ body_of last) ≡ ok environ
    → app environ ≡ starts status headers exc_info next
    → status_code status ≡ some code
    → raw_headers headers ≡ some raw
    → failure (next none) ≡ none
    → (sent : List Message) × (call encode_utf8 app progress s
          (frames bs ++ request_event last more ∷ rest)
        ≡ (raised_at_end (last_exc_info exc_info (next none)), start_message code raw ∷ sent))
      × (assembled sent ≡ some (yielded (next none)))
unfolding call call_with run_app finished
call_lem encode_utf8 app progress s bs last more rest status headers exc_info next {environ} {code}
      {raw} final built answers numbered ascii returning =
    (
      bodies (next none),
      rw
          (
            read_body-frames bs last more rest [] final,
            call_with,
            built,
            run_app,
            answers,
            wsgi-starts status headers exc_info next numbered ascii,
            returning,
          )
          refl,
      assembled-bodies (next none) returning,
    )

-- the start messages of a stream
abbrev pub starts_in : List Message → List Message
starts_in [] = []
starts_in (start_message code raw ∷ messages) = start_message code raw ∷ starts_in messages
starts_in (body_message body more ∷ messages) = starts_in messages

starts_in-append : (a b : List Message) → starts_in (a ++ b) ≡ starts_in a ++ starts_in b
starts_in-append [] b = refl
starts_in-append (start_message code raw ∷ a) b =
    ap (λ l. start_message code raw ∷ l) (starts_in-append a b)
starts_in-append (body_message body more ∷ a) b = starts_in-append a b

-- the start message for a status and headers, if the one has a number and the others are ASCII
abbrev pub start_of : Option ℤ → Option RawHeaders → List Message
start_of (some code) (some raw) = start_message code raw ∷ []
start_of _ _ = []

-- the start message of the first call of `start_response`, if the app calls it
abbrev pub first_start : WsgiApp → List Message
first_start (starts status headers exc_info rest) =
    start_of (status_code status) (raw_headers headers)
first_start (yields chunk rest) = first_start rest
first_start (fails e) = []
first_start returns = []

starts_in-put :
    (body : Bytes) (more : Option Bool) (r : Responder)
    → starts_in (put (body_message body more) r).stream ≡ starts_in r.stream
unfolding put
starts_in-put body more r =
    starts_in-append r.stream (body_message body more ∷ []) ∙ append-nil (starts_in r.stream)

-- Behind the first call, nothing puts another start into the stream.
starts_in_started :
    (app : WsgiApp) (r : Responder)
    → r.response_started ≡ true
    → starts_in (wsgi app r).1.stream ≡ starts_in r.stream
unfolding wsgi start_response start_if put
starts_in_started (starts status headers exc_info rest) r h =
    let again = record r { exc_info = exc_info } in
    let same : start_if r.response_started status headers again ≡ (none, again) = ground arith in
    ap (λ v. starts_in (wsgi (rest v.0) v.1).1.stream) same ∙ starts_in_started (rest none) again h
starts_in_started (yields chunk rest) r h =
    starts_in_started rest (put (body_message chunk (some true)) r) h
    ∙ starts_in-put chunk (some true) r
starts_in_started (fails e) r h = refl
starts_in_started returns r h = starts_in-put [] none r

send_start_lem :
    (code : Option ℤ) (headers : Option RawHeaders) (r : Responder)
    → ((send_start code headers r).1.response_started ≡ r.response_started)
      × (starts_in (send_start code headers r).1.stream
          ≡ starts_in r.stream ++ start_of code headers)
unfolding send_start put
send_start_lem none headers r = (refl, sym (append-nil (starts_in r.stream)))
send_start_lem (some code) none r = (refl, sym (append-nil (starts_in r.stream)))
send_start_lem (some code) (some raw) r =
    (refl, starts_in-append r.stream (start_message code raw ∷ []))

starts_in_fresh :
    (app : WsgiApp) (r : Responder)
    → r.response_started ≡ false
    → starts_in (wsgi app r).1.stream ≡ starts_in r.stream ++ first_start app
unfolding wsgi start_response start_if put
starts_in_fresh (starts status headers exc_info rest) r h =
    let begun = record r { exc_info = exc_info; response_started = true } in
    let sent = send_start (status_code status) (raw_headers headers) begun in
    let (started, with_start) = send_start_lem (status_code status) (raw_headers headers) begun in
    let opened : start_if r.response_started status headers (record r { exc_info = exc_info })
        ≡ sent =
      ground arith in
    ap (λ v. starts_in (wsgi (rest v.0) v.1).1.stream) opened
    ∙ starts_in_started (rest sent.0) sent.1 started
    ∙ with_start
starts_in_fresh (yields chunk rest) r h =
    starts_in_fresh rest (put (body_message chunk (some true)) r) h
    ∙ ap (λ l. l ++ first_start rest) (starts_in-put chunk (some true) r)
starts_in_fresh (fails e) r h = sym (append-nil (starts_in r.stream))
starts_in_fresh returns r h = starts_in-put [] none r ∙ sym (append-nil (starts_in r.stream))

-- However a WSGI app behaves, the start messages that are put into the stream are the one of its first
-- call of `start_response`, if the status of that call has a number and its headers are ASCII, and none
-- otherwise: neither a later call of it nor a chunk or an end before the first one puts a start there.
pub starts_in-wsgi : (app : WsgiApp) → starts_in (wsgi app init).1.stream ≡ first_start app
unfolding init
starts_in-wsgi app = starts_in_fresh app init refl
