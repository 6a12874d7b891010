-- ===== src/Application/Stack.antt =====
-- The order of the middleware, and that it stays.
use mathlib.Core.List.{reverse, reverse-cons, reverse-reverse, append-nil}
use rustlette.Prelude.{ℕ, ◌≡◌, refl, sym, ap, ◌∙◌, some, List, [], ◌∷◌, ◌++◌, append_assoc}
use rustlette.Application.{
  Middleware, Layered, router_app, around, Starlette, middleware_of, wrap, build_middleware_stack,
  serve, add_middleware, add_exception_handler, Call, call_add_middleware,
  call_add_exception_handler, call_serve, call, calls,
}

-- the middleware of an app from the outside to the router
abbrev pub layers : Layered → List Middleware
layers router_app = []
layers (around m app) = m ∷ layers app

layers-wrap :
    (exception_class : ℕ) (app : Layered) (ms : List Middleware)
    → layers (wrap exception_class app ms) ≡ reverse ms ++ layers app
unfolding wrap
layers-wrap exception_class app [] = refl
layers-wrap exception_class app (m ∷ ms) =
    layers-wrap exception_class (around m app) ms
    ∙ sym (append_assoc (reverse ms) (m ∷ []) (layers app))
    ∙ ap (λ l. l ++ layers app) (sym (reverse-cons m ms))

-- A request goes through the middleware in the order of the list: the handling of server errors
-- first, then the user's middleware, the handling of exceptions last before the router.
pub layers-build_middleware_stack :
    (exception_class : ℕ) (a : Starlette)
    → layers (build_middleware_stack exception_class a) ≡ middleware_of exception_class a
unfolding build_middleware_stack
layers-build_middleware_stack exception_class a =
    layers-wrap exception_class router_app (reverse (middleware_of exception_class a))
    ∙ append-nil (reverse (reverse (middleware_of exception_class a)))
    ∙ reverse-reverse (middleware_of exception_class a)

call_keeps :
    (exception_class : ℕ) (c : Call) (a : Starlette) (stack : Layered)
    → a.middleware_stack ≡ some stack
    → ((call exception_class c a).middleware_stack ≡ some stack)
      × ((call exception_class c a).user_middleware ≡ a.user_middleware)
unfolding call add_middleware serve add_exception_handler
call_keeps exception_class (call_add_middleware m) a stack h = rw (call, h) (h, refl)
call_keeps exception_class (call_add_exception_handler key handler) a stack h = (h, refl)
call_keeps exception_class call_serve a stack h = rw (call, h) (h, refl)

-- Once an application has served a call, its stack stays what it is, and its list of middleware as
-- well, whatever is called afterwards.
pub calls_keep :
    (exception_class : ℕ) (cs : List Call) (a : Starlette) (stack : Layered)
    → a.middleware_stack ≡ some stack
    → ((calls exception_class cs a).middleware_stack ≡ some stack)
      × ((calls exception_class cs a).user_middleware ≡ a.user_middleware)
unfolding calls
calls_keep exception_class [] a stack h = (h, refl)
calls_keep exception_class (c ∷ cs) a stack h =
    let (kept, same) = call_keeps exception_class c a stack h in
    let (kept', same') = calls_keep exception_class cs (call exception_class c a) stack kept in
    (kept', same' ∙ same)
