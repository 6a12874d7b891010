-- ===== src/Exceptions/Sent.antt =====
-- A client sees one beginning of a response at most.
use rustlette.Prelude.{
  ℕ, ◌+◌, ◌≤◌, ◌≡◌, refl, true, false, Option, none, some, List, [], ◌∷◌, ◌++◌, arith, Bool-cases,
  Option-cases, inl, inr, if◌then◌else◌,
}
use rustlette.Asgi.{HttpMessage}
use rustlette.Exceptions.{
  Exception, Handlers, Behaviour, is_start, response_started, handler_of, handle_exception,
  wrapped_app, after_app,
}

-- how many responses begin among some messages
unfoldable pub starts : List HttpMessage → ℕ
unfolding is_start
starts [] = 0
starts (m ∷ messages) = if is_start m then starts messages + 1 else starts messages

pub starts-append : (a b : List HttpMessage) → starts (a ++ b) ≡ starts a + starts b
unfolding starts
starts-append [] b = omega arith
starts-append (m ∷ a) b = ground (arith, starts-append a b)

pub not_started : (a : List HttpMessage) → response_started a ≡ false → starts a ≡ 0
unfolding starts response_started
not_started [] h = refl
not_started (m ∷ a) h = ground (arith, not_started a)

module _ (run_handler : ℕ → Exception → Behaviour) (h : Handlers)
    (handlers : (handler : ℕ) (exc : Exception)
      → starts (run_handler handler exc).messages ≤ 1) where
  handle_started : (exc : Exception) → starts (handle_exception run_handler h true exc).0 ≡ 0
  unfolding handle_exception starts
  handle_started exc = elim (Option-cases (handler_of h exc)) [
    | inl e ↦ rw (handle_exception, e) refl
    | inr (handler, e) ↦ rw (handle_exception, e) refl
  ]

  handle_first : (exc : Exception) → starts (handle_exception run_handler h false exc).0 ≤ 1
  unfolding handle_exception starts
  handle_first exc = elim (Option-cases (handler_of h exc)) [
    | inl e ↦ rw (handle_exception, e) (omega arith)
    | inr (handler, e) ↦ rw (handle_exception, e) (handlers handler exc)
  ]

  starts-after_app :
      (messages : List HttpMessage) (exc : Option Exception)
      → starts messages ≤ 1
      → starts (after_app run_handler h messages exc).0 ≤ 1
  unfolding after_app
  starts-after_app messages none one = one
  starts-after_app messages (some exc) one = elim (Bool-cases (response_started messages)) [
    | inl e ↦
        rw (e, starts-append messages (handle_exception run_handler h true exc).0)
          (omega (arith, handle_started exc))
    | inr e ↦
        rw (e, starts-append messages (handle_exception run_handler h false exc).0)
          (omega (arith, handle_first exc, not_started messages e))
  ]

-- If neither the app nor a handler begins more than one response, then the app with its exceptions
-- handled does not either: a handler's response is not sent behind the beginning of another one.
pub starts-wrapped_app :
    (run_handler : ℕ → Exception → Behaviour) (h : Handlers) (app : Behaviour)
    → ((handler : ℕ) (exc : Exception) → starts (run_handler handler exc).messages ≤ 1)
    → starts app.messages ≤ 1
    → starts (wrapped_app run_handler h app).0 ≤ 1
unfolding wrapped_app
starts-wrapped_app run_handler h app handlers one =
    starts-after_app run_handler h handlers app.messages app.exception one
