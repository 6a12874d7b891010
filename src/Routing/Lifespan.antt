-- ===== src/Routing/Lifespan.antt =====
-- rustlette/routing.py: `Router.lifespan` and the context of a router that is given none, which runs
-- `on_startup` and `on_shutdown`. The text of a traceback is not kept.
pub mod Answered
mod Tests
use rustlette.Prelude.{
  ℕ, zero, suc, Bool, true, false, Option, none, some, List, [], ◌∷◌, ◌++◌, Text, text_eq_instance,
  if◌then◌else◌,
}
use rustlette.MultiDict.Dict

pub data LifespanMessage : Type 0 where
  startup_complete startup_failed shutdown_complete shutdown_failed : LifespanMessage

-- How `__aexit__` ends: it returns a false value, or a true one, or it raises.
pub data Exit : Type 0 where
  returns_false returns_true raises : Exit

-- `lifespan_context(app)`: what `__aenter__` returns, a state or None, if it does not raise, and how
-- `__aexit__` ends, behind an exception or none.
pub record Context (V : Type 0) : Type 0 where
  pub enter : Option (Option (List (Text × V)))
  pub exit : (behind_exception : Bool) → Exit

-- The call waits for a message, raises or returns.
pub data Outcome : Type 0 where
  waits raised returned : Outcome

-- `scope["state"]`, if the server has it, and the messages that have reached the server.
pub record State (V : Type 0) : Type 0 where
  pub state : Option (List (Text × V))
  pub sent : List LifespanMessage

-- What the body of the `with` comes to; `started` is the variable.
pub data Body : Type 0 where
  body_waits body_ends : Body
  body_raises : (started : Bool) → Body

is_raised : Body → Bool
is_raised (body_raises started) = true
is_raised b = false

module _ {V : Type 0} (broken : List LifespanMessage → Bool) where
  -- `send`: does it go through, and the state behind it
  send : LifespanMessage → State V → Bool × State V
  send m s = if broken s.sent then (false, s) else (true, record s { sent = s.sent ++ m ∷ [] })

  -- behind `except BaseException`
  failed : (started : Bool) → State V → Outcome × State V
  unfolding send
  failed true s = (raised, (send shutdown_failed s).1)
  failed false s = (raised, (send startup_failed s).1)

  completed : Bool × State V → Outcome × State V
  completed (true, s) = (returned, s)
  completed (false, s) = (raised, s)

  -- the end of the `with`, and what follows it
  left : Body → Exit → State V → Outcome × State V
  unfolding failed completed send
  left body_waits e s = (waits, s)
  left body_ends raises s = failed true s
  left body_ends e s = completed (send shutdown_complete s)
  left (body_raises started) returns_true s = completed (send shutdown_complete s)
  left (body_raises started) e s = failed started s

  exited : Context V → Body × State V → Outcome × State V
  unfolding left is_raised
  exited c (b, s) = left b (c.exit (is_raised b)) s

  -- behind the first `send` of the body, for the messages that are still to come
  second_receive : ℕ → Bool × State V → Body × State V
  second_receive n (false, s) = (body_raises false, s)
  second_receive zero (true, s) = (body_waits, s)
  second_receive (suc n) (true, s) = (body_ends, s)

  -- `scope["state"].update(maybe_state)`
  run_body : ℕ → Option (List (Text × V)) → State V → Body × State V
  unfolding second_receive send Dict.update
  run_body n none s = second_receive n (send startup_complete s)
  run_body n (some items) s = elim s.state [
    | none ↦ (body_raises false, s)
    | some d ↦
        second_receive n (send startup_complete (record s { state = some (Dict.update d items) }))
  ]

  entered : Context V → ℕ → Option (Option (List (Text × V))) → State V → Outcome × State V
  unfolding exited run_body failed
  entered c n none s = failed false s
  entered c n (some maybe_state) s = exited c (run_body n maybe_state s)

  -- `lifespan()`, where the server sends some messages
  unfoldable pub lifespan : Context V → (messages : ℕ) → State V → Outcome × State V
  unfolding entered
  lifespan c zero s = (waits, s)
  lifespan c (suc n) s = entered c n c.enter s

-- `startup` and `shutdown`: do the handlers, which `fails` says, all return
unfoldable pub all_return : (fails : ℕ → Bool) → List ℕ → Bool
all_return fails [] = true
all_return fails (handler ∷ handlers) =
    let rest = all_return fails handlers in if fails handler then false else rest

-- `_DefaultLifespan`
unfoldable pub default_lifespan :
    {V : Type 0} → (fails : ℕ → Bool) → (on_startup on_shutdown : List ℕ) → Context V
unfolding all_return
default_lifespan fails on_startup on_shutdown = record {
  enter = if all_return fails on_startup then some none else none;
  exit = λ r. if all_return fails on_shutdown then returns_false else raises;
}
