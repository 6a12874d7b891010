-- ===== src/Authentication/Tests.antt =====
-- Authentication at concrete inputs.
use rustlette.Prelude.{
  ℕ, ◌≡◌, refl, ◌↔◌, inl, true, Option, none, some, List, [], ◌∷◌, Text, codes, text_in, text_eq,
  All,
}
use rustlette.Prelude.Exec.{Result, ok}
use rustlette.Authentication.{
  of_request, of_websocket, called, decorated, handling, http, default_on_error,
}
use rustlette.Authentication.Guarded.{answered, is_for, granted_by, answered-handling}

abbrev required : List Text
required = codes "admin" ∷ []

abbrev found : Result Text (Option (List Text × ℕ))
found = ok (some (codes "user" ∷ codes "admin" ∷ [], 7))

answered-handling_example :
    (answered (of_request 0) required none 403 http (handling default_on_error http found)
      ≡ some called)
    ↔ ((is_for (of_request 0) http ≡ true)
        × (g : List Text) × (granted_by found ≡ some g)
        × All (λ scope. text_in scope g ≡ true) required)
answered-handling_example =
    answered-handling default_on_error (of_request 0) required none 403 (inl refl) http found

-- The connection is found among the parameters by its name.
second : decorated (codes "self" ∷ codes "websocket" ∷ []) ≡ some (of_websocket 1)
unfolding decorated text_eq
second = refl
