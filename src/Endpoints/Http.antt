-- ===== src/Endpoints/Http.antt =====
-- rustlette/endpoints.py: `HTTPEndpoint`. An endpoint is the names of its attributes.
use mathlib.Core.List.{map}
use rustlette.Prelude.{
  ℕ, ◌+◌, ◌≡◌, refl, subst, arith, Bool, true, false, not, ◌&&◌, List, [], ◌∷◌, Text, codes, leb,
  text_eq, text_eq_iff, text_in, keep, join, if◌then◌else◌, Bool-cases, inl, inr,
}
use rustlette.Prelude.Exec.{Result}
use rustlette.Headers.{HeaderError}
use rustlette.Response.{Response, plain_text_response}

-- `method.lower()` of ASCII letters
pub lower : Text → Text
lower = map (λ c. if leb b'A' c && leb c b'Z' then c + 32 else c)

abbrev methods : List Text
methods =
    codes "GET"
    ∷ codes "HEAD"
    ∷ codes "POST"
    ∷ codes "PUT"
    ∷ codes "PATCH"
    ∷ codes "DELETE"
    ∷ codes "OPTIONS"
    ∷ []

-- `_allowed_methods`
unfoldable pub allowed_methods : (attributes : List Text) → List Text
unfolding lower text_in
allowed_methods attributes = keep (λ method. text_in (lower method) attributes) methods

unfoldable pub handler_name : List Text → Text → Text
unfolding lower text_in text_eq
handler_name attributes method =
    if text_eq method (codes "HEAD") && not (text_in (codes "head") attributes)
    then codes "get"
    else lower method

-- The attribute that is called, the exception with its Allow header, or the plain answer.
pub data Answer : Type 0 where
  called : Text → Answer
  raised : ℕ → Text → Answer
  answered : Result HeaderError Response → Answer

method_not_allowed : (has_app : Bool) → List Text → Answer
unfolding allowed_methods plain_text_response join
method_not_allowed true attributes = raised 405 (join (codes ", ") (allowed_methods attributes))
method_not_allowed false attributes = answered (
    plain_text_response (codes "Method Not Allowed") 405
      ((codes "Allow", join (codes ", ") (allowed_methods attributes)) ∷ []))

-- `dispatch()`, up to the call of the handler; `has_app` is `"app" in self.scope`
unfoldable pub dispatch : (has_app : Bool) → (attributes : List Text) → (method : Text) → Answer
unfolding handler_name method_not_allowed text_in
dispatch has_app attributes method =
    let name = handler_name attributes method in
    if text_in name attributes then called name else method_not_allowed has_app attributes

text_in-keep :
    (p : Text → Bool) (t : Text) (l : List Text) → text_in t (keep p l) ≡ true → p t ≡ true
unfolding text_in
text_in-keep p t [] h = cc
text_in-keep p t (x ∷ l) h = elim (Bool-cases (p x)) [
  | inl kept ↦ elim (Bool-cases (text_eq t x)) [
    | inl same ↦ rw ((text_eq_iff t x).0 same) kept
    | inr other ↦ text_in-keep p t l (ground arith)
  ]
  | inr dropped ↦ text_in-keep p t l (ground arith)
]

handler_name-lower :
    (attributes : List Text) (method : Text)
    → text_in (lower method) attributes ≡ true
    → handler_name attributes method ≡ lower method
unfolding handler_name lower
handler_name-lower attributes method h = elim (Bool-cases (text_eq method (codes "HEAD"))) [
  | inl head ↦
      let q : method ≡ codes "HEAD" = (text_eq_iff method (codes "HEAD")).0 head in
      let there : text_in (codes "head") attributes ≡ true =
        subst (λ m. text_in (lower m) attributes ≡ true) q h in
      rw (handler_name, head, there) refl
  | inr other ↦ rw (handler_name, other) refl
]

-- A method that an endpoint lists in its Allow header is handled by the attribute of its name.
pub dispatch-allowed_methods :
    (has_app : Bool) (attributes : List Text) (method : Text)
    → text_in method (allowed_methods attributes) ≡ true
    → dispatch has_app attributes method ≡ called (lower method)
unfolding dispatch handler_name allowed_methods
dispatch-allowed_methods has_app attributes method h =
    let there = text_in-keep (λ m. text_in (lower m) attributes) method methods h in
    rw (dispatch, handler_name-lower attributes method there, there) refl
