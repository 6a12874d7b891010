-- ===== src/Request/Cached.antt =====
-- rustlette/middleware/base.py: `_CachedRequest`, which passes the body of a request on to the app below
-- a middleware that may have read it.
pub mod Delivery
use rustlette.Prelude.{
  Option, none, some, Bool, true, false, not, List, [], ◌∷◌, ◌++◌, Bytes, if◌then◌else◌,
}
use rustlette.Prelude.Exec.{Result, ok, err}
use rustlette.Request.{
  Event, request_event, disconnect_event, other_event, Error, client_disconnect,
  stream_consumed_error, runtime_error, pending, out_of_fuel, Request, Generator, fresh, next,
  get_body, check_disconnected,
}
use rustlette.Request

pub record CachedRequest : Type 0 where
  pub request : Request
  pub wrapped_rcv_disconnected : Bool
  pub wrapped_rcv_consumed : Bool

-- `_CachedRequest.__init__`
unfoldable pub init : List Event → CachedRequest
unfolding Request.init
init inbox = record {
  request = Request.init inbox;
  wrapped_rcv_disconnected = false;
  wrapped_rcv_consumed = false;
}

-- `await self.receive()` behind the end of the body
await_disconnect : List Event → CachedRequest → Result Error Event × CachedRequest
await_disconnect [] c = (err pending, c)
await_disconnect (disconnect_event ∷ rest) c = (
  ok disconnect_event,
  record c { request = record c.request { inbox = rest }; wrapped_rcv_disconnected = true },
)
await_disconnect (_ ∷ rest) c =
    (err runtime_error, record c { request = record c.request { inbox = rest } })

-- the state "consumed but not yet disconnected"
receive_consumed : (is_disconnected : Bool) → CachedRequest → Result Error Event × CachedRequest
unfolding await_disconnect
receive_consumed true c = (ok disconnect_event, record c { wrapped_rcv_disconnected = true })
receive_consumed false c = await_disconnect c.request.inbox c

-- The first chunk of a fresh generator, as a message.
passed_on :
    Result Error (Option Bytes × Generator) × Request
    → CachedRequest
    → Result Error Event × CachedRequest
passed_on (ok (some chunk, g), r) c = (
  ok (request_event (some chunk) (some (not r.stream_consumed))),
  record c { request = r; wrapped_rcv_consumed = r.stream_consumed },
)
passed_on (ok (none, g), r) c = (err runtime_error, record c { request = r })
passed_on (err client_disconnect, r) c =
    (ok disconnect_event, record c { request = r; wrapped_rcv_disconnected = true })
passed_on (err e, r) c = (err e, record c { request = r })

-- the state "not yet consumed"
receive_open :
    (body : Option Bytes) → (consumed : Bool) → CachedRequest → Result Error Event × CachedRequest
unfolding passed_on next
receive_open (some body) consumed c =
    (ok (request_event (some body) (some false)), record c { wrapped_rcv_consumed = true })
receive_open none true c =
    (ok (request_event (some []) (some false)), record c { wrapped_rcv_consumed = true })
receive_open none false c = passed_on (next fresh c.request) c

receive_in : (disconnected consumed : Bool) → CachedRequest → Result Error Event × CachedRequest
unfolding receive_consumed receive_open
receive_in true consumed c = (ok disconnect_event, c)
receive_in false true c = receive_consumed c.request.is_disconnected c
receive_in false false c = receive_open c.request.body c.request.stream_consumed c

-- `wrapped_receive()`
unfoldable pub wrapped_receive : CachedRequest → Result Error Event × CachedRequest
unfolding receive_in
wrapped_receive c = receive_in c.wrapped_rcv_disconnected c.wrapped_rcv_consumed c

-- What happens to the object, in any order: the app below receives, or the middleware reads the body,
-- takes a chunk of a generator, or asks whether the client is gone.
pub data Call : Type 0 where
  receiving reading_body polling : Call
  streaming : Generator → Call

-- the message that the app below is given, if any
delivered : Result Error Event → List Event
delivered (ok m) = m ∷ []
delivered (err e) = []

on_request : Request → CachedRequest → List Event × CachedRequest
on_request r c = ([], record c { request = r })

unfoldable pub call : Call → CachedRequest → List Event × CachedRequest
unfolding wrapped_receive delivered on_request get_body check_disconnected next
call receiving c = let (result, c') = wrapped_receive c in (delivered result, c')
call reading_body c = on_request (get_body c.request).1 c
call polling c = on_request (check_disconnected c.request).1 c
call (streaming g) c = on_request (next g c.request).1 c

-- all that the app below is given
unfoldable pub run : List Call → CachedRequest → List Event
unfolding call
run [] c = []
run (k ∷ calls) c = (call k c).0 ++ run calls (call k c).1
