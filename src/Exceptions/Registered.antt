-- ===== src/Exceptions/Registered.antt =====
-- Which handlers the middleware has.
use rustlette.Prelude.{ℕ, ◌≡◌, refl, Option, none, some, List, [], ◌∷◌, nat_eq, ◌==◌, if◌then◌else◌}
use rustlette.MultiDict.Dict
use rustlette.MultiDict.Dict.{get-set}
use rustlette.Exceptions.{
  Key, status_key, class_key, Handlers, add_exception_handler, add_handlers, init,
}

-- the handler that is registered last for a class, or else a given one
abbrev pub last_for_class : ℕ → List (Key × ℕ) → Option ℕ → Option ℕ
last_for_class cls [] other = other
last_for_class cls ((class_key c, handler) ∷ items) other =
    last_for_class cls items (if c == cls then some handler else other)
last_for_class cls ((status_key s, handler) ∷ items) other = last_for_class cls items other

abbrev pub last_for_status : ℕ → List (Key × ℕ) → Option ℕ → Option ℕ
last_for_status status [] other = other
last_for_status status ((status_key s, handler) ∷ items) other =
    last_for_status status items (if s == status then some handler else other)
last_for_status status ((class_key c, handler) ∷ items) other = last_for_status status items other

add_handlers_lem :
    (items : List (Key × ℕ)) (h : Handlers) (key : ℕ)
    → (Dict.get key (add_handlers items h).exception_handlers
        ≡ last_for_class key items (Dict.get key h.exception_handlers))
      × (Dict.get key (add_handlers items h).status_handlers
          ≡ last_for_status key items (Dict.get key h.status_handlers))
unfolding add_handlers add_exception_handler
add_handlers_lem [] h key = (refl, refl)
add_handlers_lem ((class_key c, handler) ∷ items) h key =
    let (cls, status) =
      add_handlers_lem items (add_exception_handler (class_key c) handler h) key in
    (rw (← get-set c key handler h.exception_handlers) cls, status)
add_handlers_lem ((status_key s, handler) ∷ items) h key =
    let (cls, status) =
      add_handlers_lem items (add_exception_handler (status_key s) handler h) key in
    (cls, rw (← get-set s key handler h.status_handlers) status)

-- The middleware handles a class with the handler that was registered last for it, or with its own
-- one if there was none, and a status code with the one that was registered last, if there was any.
pub init_lem :
    (own : List (ℕ × ℕ)) (items : List (Key × ℕ)) (key : ℕ)
    → (Dict.get key (init own items).exception_handlers
        ≡ last_for_class key items (Dict.get key own))
      × (Dict.get key (init own items).status_handlers ≡ last_for_status key items none)
unfolding init Dict.get
init_lem own items key =
    add_handlers_lem items (record { exception_handlers = own; status_handlers = [] }) key
