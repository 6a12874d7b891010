-- ===== src/Request.antt =====
-- rustlette/requests.py: how `Request` reads its body. `_receive` takes the next message of `inbox`;
-- with an empty inbox the call waits, which is the error `pending`. The generator that `stream`
-- returns is a place in its body, and `next` is its `__anext__`.
pub mod Body
pub mod Cookies
pub mod Cached
pub mod Form
mod Tests
use rustlette.Prelude.{
  ℕ, zero, suc, ◌+◌, Option, none, some, Bool, true, false, not, ◌||◌, List, [], ◌∷◌, ◌++◌, Text,
  Bytes, length, if◌then◌else◌,
}
use rustlette.Prelude.Exec.{Result, ok, err, Exec, ◌>>=◌, ◌>>◌, raise, pure}
use rustlette.Asgi.{body_of, more_of}

-- A message of the server by its "type"; a key that is read with a default is an `Option`.
pub data Event : Type 0 where
  request_event : Option Bytes → Option Bool → Event
  disconnect_event : Event
  other_event : Text → Event

pub data Error : Type 0 where
  stream_consumed_error client_disconnect runtime_error pending out_of_fuel : Error

-- `body` is the attribute `_body`, which is missing at first.
pub record Request : Type 0 where
  pub inbox : List Event
  pub stream_consumed : Bool
  pub is_disconnected : Bool
  pub body : Option Bytes

-- `Request.__init__`, with the messages that the server is going to deliver
unfoldable pub init : List Event → Request
init inbox = record { inbox = inbox; stream_consumed = false; is_disconnected = false; body = none }

abbrev pub Action : Type 0 → Type 0
Action = Exec Request Error

-- Where a generator stands: before its first statement, behind the `yield` of the loop, before the
-- `yield b""` that follows `yield self._body`, and at its end.
pub data Generator : Type 0 where
  fresh in_loop last_chunk finished : Generator

-- `b""` at the end of the loop, or a chunk of its body
yielded : Bytes → Generator → Result Error (Option Bytes × Generator)
yielded chunk g = ok (some chunk, g)

-- What a message of type "http.request" comes to: its body is yielded if it is not empty; otherwise
-- the loop goes on by `later`, or ends if there is no more.
pull_chunk :
    Bytes
    → (more : Bool) → List Event
    → (later : Action (Option Bytes × Generator)) → Action (Option Bytes × Generator)
unfolding yielded
pull_chunk (c ∷ chunk) true rest later r = (yielded (c ∷ chunk) in_loop, record r { inbox = rest })
pull_chunk (c ∷ chunk) false rest later r =
    (yielded (c ∷ chunk) in_loop, record r { inbox = rest; stream_consumed = true })
pull_chunk [] true rest later r = later r
pull_chunk [] false rest later r =
    (yielded [] finished, record r { inbox = rest; stream_consumed = true })

-- The rounds of the loop up to the next `yield`, with the messages that are still to come.
pull : List Event → Action (Option Bytes × Generator)
unfolding pull_chunk
pull [] r = (err pending, record r { inbox = [] })
pull (disconnect_event ∷ rest) r =
    (err client_disconnect, record r { inbox = rest; is_disconnected = true })
pull (other_event t ∷ rest) r = pull rest r
pull (request_event body more ∷ rest) r =
    pull_chunk (body_of body) (more_of more) rest (pull rest) r

-- The start of the generator.
start : Option Bytes → Bool → Action (Option Bytes × Generator)
unfolding pull
start (some body) consumed r = (ok (some body, last_chunk), r)
start none true r = (err stream_consumed_error, r)
start none false r = pull r.inbox r

-- `while not self._stream_consumed` behind a chunk
resume_loop : Bool → Action (Option Bytes × Generator)
unfolding pull yielded
resume_loop true r = (yielded [] finished, r)
resume_loop false r = pull r.inbox r

-- `__anext__`: the chunk, or none at the end, and the generator behind it
unfoldable pub next : Generator → Action (Option Bytes × Generator)
unfolding start resume_loop
next fresh r = start r.body r.stream_consumed r
next in_loop r = resume_loop r.stream_consumed r
next last_chunk r = (ok (some [], finished), r)
next finished r = (ok (none, finished), r)

-- What follows a chunk in the loop of `body`, given the rounds that are left.
after_chunk : (Generator → Bytes → Action Bytes) → Bytes → Option Bytes × Generator → Action Bytes
after_chunk drain chunks (none, g) r = (ok chunks, r)
after_chunk drain chunks (some chunk, g) r = drain g (chunks ++ chunk) r

-- `async for chunk in self.stream()`, with the chunks joined. Each round takes a message or ends the
-- generator, so the fuel of `read_body` is enough.
drain : ℕ → Generator → Bytes → Action Bytes
unfolding after_chunk
drain zero g chunks r = (err out_of_fuel, r)
drain (suc fuel) g chunks r = (next g >>= after_chunk (drain fuel) chunks) r

-- `self._body = b"".join(chunks)`
store_body : Result Error Bytes × Request → Result Error Bytes × Request
store_body (ok body, r) = (ok body, record r { body = some body })
store_body (err e, r) = (err e, r)

read_body : Option Bytes → Action Bytes
unfolding drain store_body
read_body (some body) r = (ok body, r)
read_body none r = store_body (drain (suc (suc (suc (length r.inbox)))) fresh [] r)

-- `body()`
unfoldable pub get_body : Action Bytes
unfolding read_body
get_body r = read_body r.body r

-- `is_disconnected()`, where the server has a message at once or, with an empty inbox, has none
poll : List Event → Request → Request
poll [] r = r
poll (disconnect_event ∷ rest) r = record r { inbox = rest; is_disconnected = true }
poll (_ ∷ rest) r = record r { inbox = rest }

unfoldable pub check_disconnected : Request → Bool × Request
unfolding poll
check_disconnected r =
    let r' = if r.is_disconnected then r else poll r.inbox r in (r'.is_disconnected, r')
