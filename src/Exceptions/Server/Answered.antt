-- ===== src/Exceptions/Server/Answered.antt =====
-- What a client and a server see of an exception.
use rustlette.Prelude.{
  ℕ, ◌≤◌, ◌≡◌, refl, true, false, Bool, Option, none, some, List, [], ◌∷◌, arith, Bool-cases, inl,
  inr,
}
use rustlette.Prelude.Exec.{Result, ok}
use rustlette.Asgi.{HttpMessage}
use rustlette.Exceptions.{Exception, raised, Behaviour, Handlers, response_started, wrapped_app}
use rustlette.Exceptions.Sent.{starts, starts-append, not_started, starts-wrapped_app}
use rustlette.Exceptions.Server.{
  response_for, reraised, answer, after_inner, exception_of, server_error,
}

has_started : (a : List HttpMessage) → response_started a ≡ true → starts a ≤ 1 → starts a ≡ 1
unfolding starts response_started
has_started [] h l = cc
has_started (m ∷ a) h l = ground (arith, has_started a)

answer-raised :
    (started : Bool) (exc : Exception) (b : Behaviour)
    → b.exception ≡ none
    → (answer started exc (ok b)).1 ≡ raised exc
unfolding answer reraised
answer-raised true exc b q = refl
answer-raised false exc b q = rw q refl

module _ (debug_response : Exception → Behaviour) (runtime_error : Exception)
    (handler : Option (Exception → Result Exception Behaviour)) (debug : Bool)
    (answers : (exc : Exception)
      → (b : Behaviour) × (response_for debug_response handler debug exc ≡ ok b)
        × (starts b.messages ≡ 1)
        × (b.exception ≡ none)) where
  starts-after_inner :
      (messages : List HttpMessage) (exc : Exception)
      → starts messages ≤ 1
      → let v = after_inner debug_response runtime_error handler debug messages (some exc) in
        (starts v.0 ≡ 1) × (v.1 ≡ raised exc)
  unfolding after_inner answer starts
  starts-after_inner messages exc one =
      let (b, found, first, quiet) = answers exc in
      (
        elim (Bool-cases (response_started messages)) [
          | inl begun ↦
              rw (begun, found, starts-append messages [])
                (omega (arith, has_started messages begun one))
          | inr silent ↦
              rw (silent, found, starts-append messages b.messages)
                (omega (arith, not_started messages silent, first))
        ],
        rw found (answer-raised (response_started messages) exc b quiet),
      )

  -- Where neither the app nor a handler of an exception begins more than one response, and the response
  -- for a server error begins one and raises nothing: an exception that leaves the handling of exceptions,
  -- which is the `RuntimeError` if a response had started for an exception with a handler, is the one
  -- that leaves the server's middleware, and the client has seen exactly one response begin.
  pub starts-server_error :
      (run_handler : ℕ → Exception → Behaviour) (h : Handlers) (app : Behaviour) (exc : Exception)
      → ((i : ℕ) (exc' : Exception) → starts (run_handler i exc').messages ≤ 1)
      → starts app.messages ≤ 1
      → exception_of runtime_error (wrapped_app run_handler h app).1 ≡ some exc
      → let v =
          server_error debug_response runtime_error handler debug (wrapped_app run_handler h app) in
        (starts v.0 ≡ 1) × (v.1 ≡ raised exc)
  unfolding server_error
  starts-server_error run_handler h app exc handlers one left = rw left (
      starts-after_inner (wrapped_app run_handler h app).0 exc
        (starts-wrapped_app run_handler h app handlers one))
