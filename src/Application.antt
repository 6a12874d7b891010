-- ===== src/Application.antt =====
-- rustlette/applications.py: the middleware stack of `Starlette`, when it is built and what can change
-- it. A middleware with its arguments is a number, and so is a handler of exceptions.
pub mod Stack
mod Tests
use mathlib.Core.List.{map, reverse}
use rustlette.Prelude.{
  ℕ, Bool, true, false, ◌||◌, Option, none, some, List, [], ◌∷◌, ◌++◌, ◌==◌, if◌then◌else◌, keep,
  not,
}
use rustlette.Exceptions.{Key, status_key, class_key}

pub data Middleware : Type 0 where
  server_error_middleware : Option ℕ → Middleware
  user_middleware_layer : ℕ → Middleware
  exception_middleware : List (Key × ℕ) → Middleware

-- An ASGI app: the router, or a middleware around an app.
pub data Layered : Type 0 where
  router_app : Layered
  around : Middleware → Layered → Layered

pub record Starlette : Type 0 where
  pub exception_handlers : List (Key × ℕ)
  pub user_middleware : List ℕ
  pub middleware_stack : Option Layered

-- `Starlette.__init__`
unfoldable pub init : List (Key × ℕ) → List ℕ → Starlette
init handlers middleware = record {
  exception_handlers = handlers;
  user_middleware = middleware;
  middleware_stack = none;
}

module _ (exception_class : ℕ) where
  -- `key in (500, Exception)`
  is_error_key : Key → Bool
  is_error_key (status_key status) = status == 500
  is_error_key (class_key cls) = cls == exception_class

  -- `error_handler`: the last one with such a key
  error_handler : Option ℕ → List (Key × ℕ) → Option ℕ
  unfolding is_error_key
  error_handler found [] = found
  error_handler found ((key, value) ∷ items) =
      error_handler (if is_error_key key then some value else found) items

  -- `exception_handlers` of `build_middleware_stack`: the other items
  other_handlers : List (Key × ℕ) → List (Key × ℕ)
  unfolding is_error_key
  other_handlers = keep (λ i. not (is_error_key i.0))

  -- `middleware`
  unfoldable pub middleware_of : Starlette → List Middleware
  unfolding error_handler other_handlers
  middleware_of a =
      server_error_middleware (error_handler none a.exception_handlers)
      ∷ (map (λ m. user_middleware_layer m) a.user_middleware
          ++ exception_middleware (other_handlers a.exception_handlers) ∷ [])

  -- the loop that wraps the app
  wrap : Layered → List Middleware → Layered
  wrap app [] = app
  wrap app (m ∷ ms) = wrap (around m app) ms

  unfoldable pub build_middleware_stack : Starlette → Layered
  unfolding middleware_of wrap
  build_middleware_stack a = wrap router_app (reverse (middleware_of a))

  -- the stack that a call of the application goes through, and the application behind it
  unfoldable pub serve : Starlette → Layered × Starlette
  unfolding build_middleware_stack
  serve a = elim a.middleware_stack [
    | some stack ↦ (stack, a)
    | none ↦
        (build_middleware_stack a, record a { middleware_stack = some (build_middleware_stack a) })
  ]

-- `add_middleware`; `none` is the `RuntimeError` once the application has started
unfoldable pub add_middleware : ℕ → Starlette → Option Starlette
add_middleware m a = elim a.middleware_stack [
  | some stack ↦ none
  | none ↦ some (record a { user_middleware = m ∷ a.user_middleware })
]

same_key : Key → Key → Bool
same_key (status_key a) (status_key b) = a == b
same_key (class_key a) (class_key b) = a == b
same_key _ _ = false

-- `self.exception_handlers[key] = handler`
set_handler : Key → ℕ → List (Key × ℕ) → List (Key × ℕ)
unfolding same_key
set_handler key handler [] = (key, handler) ∷ []
set_handler key handler ((k, h) ∷ items) =
    let rest = set_handler key handler items in
    if same_key k key then (k, handler) ∷ items else (k, h) ∷ rest

unfoldable pub add_exception_handler : Key → ℕ → Starlette → Starlette
unfolding set_handler
add_exception_handler key handler a = record a {
  exception_handlers = set_handler key handler a.exception_handlers;
}

-- The calls that touch the stack, in any order; a call that raises changes nothing.
pub data Call : Type 0 where
  call_add_middleware : ℕ → Call
  call_add_exception_handler : Key → ℕ → Call
  call_serve : Call

module _ (exception_class : ℕ) where
  call : Call → Starlette → Starlette
  unfolding add_middleware add_exception_handler serve
  call (call_add_middleware m) a = elim (add_middleware m a) [ none ↦ a | some a' ↦ a' ]
  call (call_add_exception_handler key handler) a = add_exception_handler key handler a
  call call_serve a = (serve exception_class a).1

  unfoldable pub calls : List Call → Starlette → Starlette
  unfolding call
  calls [] a = a
  calls (c ∷ cs) a = calls cs (call c a)
