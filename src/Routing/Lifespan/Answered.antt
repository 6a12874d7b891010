-- ===== src/Routing/Lifespan/Answered.antt =====
-- The answers of `Router.lifespan` to the server.
use rustlette.Prelude.{Bool, true, false, Option, List, [], ◌∷◌, Text, text_eq_instance}
use rustlette.MultiDict.Dict
use rustlette.Routing.Lifespan.{
  LifespanMessage, startup_complete, startup_failed, shutdown_complete, shutdown_failed, Exit,
  returns_true, Outcome, waits, raised, returned, State,
}

-- What the server has been sent when a call waits, raises or returns; `broken` are the sends that fail.
unfoldable pub is_answered :
    (broken : List LifespanMessage → Bool) → Outcome → List LifespanMessage → Bool
is_answered broken waits [] = true
is_answered broken waits (startup_complete ∷ []) = true
is_answered broken returned (startup_complete ∷ shutdown_complete ∷ []) = true
is_answered broken raised (startup_failed ∷ []) = true
is_answered broken raised (startup_complete ∷ shutdown_failed ∷ []) = true
is_answered broken raised [] = broken []
is_answered broken raised (startup_complete ∷ []) = broken (startup_complete ∷ [])
is_answered broken o sent = false

-- no true value comes from `__aexit__` behind an exception
abbrev pub is_exact : Exit → Bool
is_exact returns_true = false
is_exact e = true

module _ {V : Type 0} (broken : List LifespanMessage → Bool) where
  abbrev at : Option (List (Text × V)) → List LifespanMessage → State V
  at d sent = record { state = d; sent = sent }
