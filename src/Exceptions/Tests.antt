-- ===== src/Exceptions/Tests.antt =====
-- The theorems on exceptions at concrete inputs.
use rustlette.Prelude.{ℕ, ◌≡◌, refl, false, none, some, [], ◌∷◌, nat_eq, arith}
use rustlette.Asgi.{response_start, response_body}
use rustlette.Exceptions.{Exception, Handlers, Behaviour, wrapped_app, already_started, raised}
use rustlette.Exceptions.Server.{server_error, response_for, error_response, exception_of}
use rustlette.Exceptions.Server.Answered.{starts-server_error}
use rustlette.Exceptions.Sent.{starts}

abbrev not_found : Exception
not_found = record { mro = 1 ∷ 0 ∷ []; status_code = some 404 }

abbrev answer : ℕ → Exception → Behaviour
answer handler exc = record {
  messages = response_start 404 [] ∷ response_body none none ∷ [];
  exception = none;
}

abbrev failing : Behaviour
failing = record { messages = response_start 200 [] ∷ []; exception = some not_found }

abbrev registered : Handlers
registered = record { exception_handlers = (1, 7) ∷ []; status_handlers = [] }

too_late : wrapped_app answer registered failing ≡ (response_start 200 [] ∷ [], already_started)
unfolding wrapped_app
too_late = refl

-- the server's middleware, with no handler of its own
starts-server_error_example :
    let v =
      server_error
        (λ exc. error_response)
        not_found
        none
        false
        (wrapped_app answer registered failing) in
    (starts v.0 ≡ 1) × (v.1 ≡ raised not_found)
unfolding starts response_for error_response wrapped_app exception_of
starts-server_error_example =
    starts-server_error (λ exc. error_response) not_found none false
      (λ exc. (error_response, refl, refl, refl)) answer registered failing not_found
      (λ handler exc. omega arith) (omega arith) refl
