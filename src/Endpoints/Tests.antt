-- ===== src/Endpoints/Tests.antt =====
-- Endpoints at concrete inputs.
use mathlib.Core.List.{map}
use rustlette.Prelude.{
  ℕ, ◌≡◌, refl, ◌⊎◌, Bool, true, false, none, some, List, [], ◌∷◌, ◌++◌, codes, text_eq, join,
}
use rustlette.Prelude.Exec.{err}
use rustlette.WebSocket.{
  Message, connect, receive, disconnect, Error, key_error, pending, init, send_message,
}
use rustlette.Endpoints.Http
use rustlette.Endpoints.{
  text_encoding, no_encoding, Data, text_data, on_connect, on_receive, on_disconnect, dispatch,
  default_hook,
}
use rustlette.Endpoints.Calls.{calls-dispatch}

abbrev works : List Message → Bool
works sent = false

abbrev inbox : List Message
inbox = connect ∷ receive (some (some (codes "a"))) none ∷ disconnect 1001 none ∷ []

calls-dispatch_example :
    let v = dispatch works (default_hook works) text_encoding (init inbox) in
    ((e : Error) × ((default_hook works on_connect (init inbox)).0 ≡ err e)
      × (v.1.calls ≡ on_connect ∷ []))
    ⊎ ((ds : List Data) × (((v.0 ≡ err pending) × (v.1.calls ≡ on_connect ∷ map on_receive ds))
          ⊎ ((code : ℕ) × (v.1.calls
                ≡ on_connect ∷ (map on_receive ds ++ on_disconnect code ∷ [])))))
calls-dispatch_example = calls-dispatch works (default_hook works) text_encoding (init inbox)

-- The calls of a session with one text.
one_text :
    (dispatch works (default_hook works) text_encoding (init inbox)).1.calls
    ≡ on_connect ∷ on_receive (text_data (some (codes "a"))) ∷ on_disconnect 1001 ∷ []
unfolding dispatch init default_hook send_message
one_text = refl

-- Without an encoding an empty text is looked for among the bytes.
empty_text :
    (dispatch works
      (default_hook works)
      no_encoding
      (init (connect ∷ receive (some (some [])) none ∷ []))).0
    ≡ err key_error
unfolding dispatch init default_hook send_message
empty_text = refl

-- A method that is the name of another attribute is not answered 405.
other_attribute :
    Http.dispatch true (codes "get" ∷ codes "dispatch" ∷ []) (codes "DISPATCH")
    ≡ Http.called (codes "dispatch")
unfolding Http.dispatch text_eq
other_attribute = refl

not_allowed :
    Http.dispatch true (codes "get" ∷ codes "dispatch" ∷ []) (codes "PUT")
    ≡ Http.raised 405 (codes "GET")
unfolding Http.dispatch text_eq join
not_allowed = refl
