-- ===== src/Authentication.antt =====
-- rustlette/authentication.py and rustlette/middleware/authentication.py. What the backend does with a
-- connection is a parameter: it returns scopes and a user, or None, or raises an AuthenticationError,
-- which is its text.
pub mod Guarded
mod Tests
use rustlette.Prelude.{
  ℕ, zero, suc, Bool, true, false, ◌||◌, Option, none, some, List, [], ◌∷◌, Text, codes, text_eq,
  text_eq_instance, text_in, get_elem?, if◌then◌else◌,
}
use rustlette.Prelude.Exec.{Result, ok, err}
use rustlette.MultiDict.Dict
use rustlette.Headers.{RawHeaders}

-- `has_required_scope`, with `conn.auth.scopes`
unfoldable pub has_required_scope : (granted scopes : List Text) → Bool
unfolding text_in
has_required_scope granted [] = true
has_required_scope granted (scope ∷ scopes) =
    let rest = has_required_scope granted scopes in if text_in scope granted then rest else false

-- The function that `requires` decorates: which of its parameters is the connection, and its place.
pub data Decorated : Type 0 where
  of_request of_websocket : ℕ → Decorated

next_place : Option Decorated → Option Decorated
next_place none = none
next_place (some (of_request idx)) = some (of_request (suc idx))
next_place (some (of_websocket idx)) = some (of_websocket (suc idx))

-- The loop over the names of the parameters; none is the exception that there is no such parameter.
unfoldable pub decorated : List Text → Option Decorated
unfolding next_place text_eq
decorated [] = none
decorated (name ∷ names) =
    let rest = decorated names in
    if text_eq name (codes "request")
    then some (of_request 0)
    else if text_eq name (codes "websocket")
    then some (of_websocket 0)
    else next_place rest

-- `kwargs.get(name, args[idx] if idx < len(args) else None)`
unfoldable pub argument : {A : Type 0} → Text → ℕ → List A → List (Text × A) → Option A
unfolding Dict.get
argument name idx args kwargs = elim (Dict.get name kwargs) [
  | some a ↦ some a
  | none ↦ get_elem? args idx
]

-- What a call of the decorated function comes to. The address of a redirect is a parameter.
pub data Outcome : Type 0 where
  called websocket_closed assertion_failed : Outcome
  redirected : Text → Outcome
  http_exception : ℕ → Outcome

refused : (redirect : Option Text) → (status_code : ℕ) → Outcome
refused (some next_url) status_code = redirected next_url
refused none status_code = http_exception status_code

-- An argument of a call: a `Request` or a `WebSocket`, with its scopes, or something else.
pub data Argument : Type 0 where
  request_argument websocket_argument : (granted : List Text) → Argument
  other_argument : Argument

-- The wrappers, for the argument that is to be the connection.
guard : Decorated → List Text → Option Text → ℕ → Argument → Outcome
unfolding refused has_required_scope
guard (of_websocket idx) scopes redirect status_code (websocket_argument granted) =
    if has_required_scope granted scopes then called else websocket_closed
guard (of_request idx) scopes redirect status_code (request_argument granted) =
    if has_required_scope granted scopes then called else refused redirect status_code
guard _ scopes redirect status_code _ = assertion_failed

place : Decorated → Text × ℕ
place (of_request idx) = (codes "request", idx)
place (of_websocket idx) = (codes "websocket", idx)

-- A call with positional and named arguments.
unfoldable pub wrapper :
    Decorated → List Text → Option Text → ℕ → List Argument → List (Text × Argument) → Outcome
unfolding guard place argument
wrapper d scopes redirect status_code args kwargs =
    let (name, idx) = place d in
    elim (argument name idx args kwargs) [
      | none ↦ assertion_failed
      | some conn ↦ guard d scopes redirect status_code conn
    ]

-- `SimpleUser` and the like, or `UnauthenticatedUser`
pub data User (U : Type 0) : Type 0 where
  user : U → User U
  unauthenticated_user : User U

pub data ScopeType : Type 0 where
  http websocket lifespan : ScopeType

-- The middleware hands the connection on, with scopes and a user in its scope or as it is, or answers it.
pub data Handling (U R : Type 0) : Type 0 where
  handed_on : Option (List Text × User U) → Handling U R
  closes : ℕ → Handling U R
  responds : R → Handling U R

module _ {U R : Type 0} (on_error : Text → R) where
  failed : ScopeType → Text → Handling U R
  failed websocket exc = closes 1000
  failed _ exc = responds (on_error exc)

  authenticated : ScopeType → Result Text (Option (List Text × U)) → Handling U R
  unfolding failed
  authenticated type (err exc) = failed type exc
  authenticated type (ok none) = handed_on (some ([], unauthenticated_user))
  authenticated type (ok (some (scopes, u))) = handed_on (some (scopes, user u))

  -- `AuthenticationMiddleware.__call__`
  unfoldable pub handling : ScopeType → Result Text (Option (List Text × U)) → Handling U R
  unfolding authenticated
  handling lifespan auth_result = handed_on none
  handling http auth_result = authenticated http auth_result
  handling websocket auth_result = authenticated websocket auth_result

-- `default_on_error`: the status and the text of its response
unfoldable pub default_on_error : Text → ℕ × Text
default_on_error exc = (400, exc)
