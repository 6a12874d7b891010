-- ===== src/Authentication/Guarded.antt =====
-- A function that `requires` guards, in an app below the middleware.
use mathlib.Core.Option.{some-injective}
use rustlette.MultiDict.Dict
use rustlette.Prelude.{
  ℕ, ◌≡◌, refl, sym, ap, subst, ◌∙◌, ◌↔◌, ◌⊎◌, inl, inr, arith, Bool, true, false, Option, none,
  some, List, [], ◌∷◌, Text, text_in, All,
}
use rustlette.Prelude.Exec.{Result, ok, err}
use rustlette.Authentication.{
  has_required_scope, Decorated, of_request, of_websocket, Outcome, called, refused, guard, place,
  argument, wrapper, User, user, unauthenticated_user, ScopeType, http, websocket, lifespan,
  Argument, request_argument, websocket_argument, other_argument, Handling, handed_on, failed,
  authenticated, handling,
}

has_required_scope-All :
    (granted scopes : List Text)
    → has_required_scope granted scopes ≡ true
    → All (λ scope. text_in scope granted ≡ true) scopes
unfolding has_required_scope
has_required_scope-All granted [] h = tt
has_required_scope-All granted (scope ∷ scopes) h =
    (ground arith, has_required_scope-All granted scopes (ground arith))

All-has_required_scope :
    (granted scopes : List Text)
    → All (λ scope. text_in scope granted ≡ true) scopes
    → has_required_scope granted scopes ≡ true
unfolding has_required_scope
All-has_required_scope granted [] h = refl
All-has_required_scope granted (scope ∷ scopes) (g, h) =
    rw (g) (All-has_required_scope granted scopes h)

-- The connection that the routing makes of a scope with these scopes: `request_response` a `Request`,
-- `websocket_session` a `WebSocket`.
abbrev pub connection : ScopeType → (granted : List Text) → Argument
connection http granted = request_argument granted
connection websocket granted = websocket_argument granted
connection lifespan granted = other_argument

-- is the function for connections of this type
abbrev pub is_for : Decorated → ScopeType → Bool
is_for (of_request idx) http = true
is_for (of_websocket idx) websocket = true
is_for _ _ = false

guard-called :
    (d : Decorated) (type : ScopeType) (scopes : List Text) (redirect : Option Text)
    (status_code : ℕ) (granted : List Text)
    → (guard d scopes redirect status_code (connection type granted) ≡ called)
      ↔ ((is_for d type ≡ true) × (has_required_scope granted scopes ≡ true))
unfolding guard refused
guard-called (of_websocket idx) http scopes redirect status_code granted = ground arith
guard-called (of_websocket idx) websocket scopes redirect status_code granted = ground arith
guard-called (of_websocket idx) lifespan scopes redirect status_code granted = ground arith
guard-called (of_request idx) http scopes (some url) status_code granted = ground arith
guard-called (of_request idx) http scopes none status_code granted = ground arith
guard-called (of_request idx) websocket scopes redirect status_code granted = ground arith
guard-called (of_request idx) lifespan scopes redirect status_code granted = ground arith

-- what the function comes to if the routing calls it with the connection alone
abbrev pub answered :
    {U R : Type 0}
    → Decorated
    → List Text
    → Option Text
    → ℕ
    → ScopeType
    → Handling U R
    → Option Outcome
answered d scopes redirect status_code type (handed_on (some (granted, u))) =
    some (wrapper d scopes redirect status_code (connection type granted ∷ []) [])
answered d scopes redirect status_code type _ = none

wrapper-guard :
    (d : Decorated) (scopes : List Text) (redirect : Option Text) (status_code : ℕ) (arg : Argument)
    → (d ≡ of_request 0) ⊎ (d ≡ of_websocket 0)
    → wrapper d scopes redirect status_code (arg ∷ []) [] ≡ guard d scopes redirect status_code arg
unfolding wrapper place argument Dict.get
wrapper-guard d scopes redirect status_code arg (inl q) = rw (q) refl
wrapper-guard d scopes redirect status_code arg (inr q) = rw (q) refl

-- the scopes that the backend gives a connection, if it raises no error
abbrev pub granted_by : {U : Type 0} → Result Text (Option (List Text × U)) → Option (List Text)
granted_by (ok (some (granted, u))) = some granted
granted_by (ok none) = some []
granted_by (err e) = none

module _ {U R : Type 0} (on_error : Text → R) (d : Decorated) (scopes : List Text)
    (redirect : Option Text) (status_code : ℕ)
    (first : (d ≡ of_request 0) ⊎ (d ≡ of_websocket 0)) where
  answered_with :
      (type : ScopeType) (granted : List Text) (u : User U)
      → (answered {U = U} {R = R} d scopes redirect status_code type (handed_on (some (granted, u)))
          ≡ some called)
        ↔ ((is_for d type ≡ true) × (has_required_scope granted scopes ≡ true))
  answered_with type granted u =
      let same = wrapper-guard d scopes redirect status_code (connection type granted) first in
      let (to, from) = guard-called d type scopes redirect status_code granted in
      (λ h. to (sym same ∙ some-injective _ _ h), λ h. ap some (same ∙ from h))

  of_granted :
      (type : ScopeType) (granted : List Text) (u : User U)
      → (answered {U = U} {R = R} d scopes redirect status_code type (handed_on (some (granted, u)))
          ≡ some called)
        ↔ ((is_for d type ≡ true)
            × (g : List Text) × (some granted ≡ some g)
            × All (λ scope. text_in scope g ≡ true) scopes)
  of_granted type granted u =
      let (to, from) = answered_with type granted u in
      (
        λ h.
            let (fits, has) = to h in
            (fits, granted, refl, has_required_scope-All granted scopes has),
        λ r. from (
          r.0,
          All-has_required_scope granted scopes (
              subst (λ g. All (λ scope. text_in scope g ≡ true) scopes)
                (sym (some-injective _ _ r.2)) r.3),
        ),
      )

  -- A function that is guarded by `requires`, and whose first parameter is the connection, is called for
  -- a connection behind the middleware exactly if it is one of a `request` and the connection is an HTTP
  -- request, or one of a `websocket` and the connection is a WebSocket, the backend raises no error and
  -- each required scope is among those that it gives the connection, which are none without a user.
  pub answered-handling :
      (type : ScopeType) (auth_result : Result Text (Option (List Text × U)))
      → (answered d scopes redirect status_code type (handling on_error type auth_result)
          ≡ some called)
        ↔ ((is_for d type ≡ true)
            × (g : List Text) × (granted_by auth_result ≡ some g)
            × All (λ scope. text_in scope g ≡ true) scopes)
  unfolding handling authenticated failed
  answered-handling http (ok (some (granted, u))) = of_granted http granted (user u)
  answered-handling http (ok none) = of_granted http [] unauthenticated_user
  answered-handling http (err e) = (λ h. cc, λ r. cc)
  answered-handling websocket (ok (some (granted, u))) = of_granted websocket granted (user u)
  answered-handling websocket (ok none) = of_granted websocket [] unauthenticated_user
  answered-handling websocket (err e) = (λ h. cc, λ r. cc)
  answered-handling lifespan auth_result = (λ h. cc, λ r. absurd (never d r.0))
    where
      never : (d : Decorated) → is_for d lifespan ≡ true → ⊥
      never (of_request idx) q = cc
      never (of_websocket idx) q = cc
