-- ===== src/Application/Tests.antt =====
-- The stack at concrete inputs.
use rustlette.Prelude.{◌≡◌, refl, some, [], ◌∷◌}
use rustlette.Exceptions.{status_key}
use rustlette.Application.{
  Starlette, init, build_middleware_stack, call_add_middleware, call_serve, calls, serve,
}
use rustlette.Application.Stack.{calls_keep}

abbrev fresh : Starlette
fresh = init ((status_key 404, 7) ∷ (status_key 500, 8) ∷ []) (1 ∷ 2 ∷ [])

abbrev served : Starlette
served = calls 0 (call_serve ∷ []) fresh

calls_keep_example :
    ((calls 0 (call_add_middleware 3 ∷ call_serve ∷ []) served).middleware_stack
      ≡ some (build_middleware_stack 0 fresh))
    × ((calls 0 (call_add_middleware 3 ∷ call_serve ∷ []) served).user_middleware
        ≡ served.user_middleware)
unfolding calls init serve
calls_keep_example =
    calls_keep 0 (call_add_middleware 3 ∷ call_serve ∷ []) served (build_middleware_stack 0 fresh)
      refl
