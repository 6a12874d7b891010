-- ===== src/Request/Cached/Delivery.antt =====
-- What the app below a middleware is given of a request.
use rustlette.Prelude.{
  ◌≡◌, refl, ◌∙◌, subst, Option, none, some, Bool, true, false, List, [], ◌∷◌, ◌++◌, Bytes, arith,
}
use rustlette.Prelude.Exec.{Result, ok, err}
use rustlette.Request.{
  Event, request_event, disconnect_event, other_event, Error, client_disconnect,
  stream_consumed_error, runtime_error, pending, out_of_fuel, Request, Generator, fresh, next,
}
use rustlette.Request.Cached.{
  CachedRequest, init, await_disconnect, receive_consumed, passed_on, receive_open, receive_in,
  wrapped_receive, Call, receiving, reading_body, polling, streaming, delivered, on_request, call,
  run,
}

-- Where a request stands for the app that receives it: messages of its body may come, its body is
-- complete, or the client is gone.
pub data Phase : Type 0 where
  begun complete gone : Phase

-- the phase behind a message, if it may come
abbrev pub advance : Phase → Event → Option Phase
advance begun (request_event body (some true)) = some begun
advance begun (request_event body (some false)) = some complete
advance begun disconnect_event = some gone
advance complete disconnect_event = some gone
advance gone disconnect_event = some gone
advance _ _ = none

abbrev pub advances : Phase → List Event → Option Phase
advances p [] = some p
advances p (m ∷ ms) = elim (advance p m) [ none ↦ none | some p' ↦ advances p' ms ]

phase_of : (disconnected consumed : Bool) → Phase
phase_of true consumed = gone
phase_of false true = complete
phase_of false false = begun

phase : CachedRequest → Phase
unfolding phase_of
phase c = phase_of c.wrapped_rcv_disconnected c.wrapped_rcv_consumed

-- The message, if there is one, leads from a phase to that of the object behind it.
Leads : Phase → Result Error Event × CachedRequest → Type 0
unfolding phase
Leads p (ok m, c) = advance p m ≡ some (phase c)
Leads p (err e, c) = p ≡ phase c

await_disconnect-Leads :
    (l : List Event) (c : CachedRequest)
    → phase c ≡ complete
    → Leads (phase c) (await_disconnect l c)
unfolding await_disconnect Leads
await_disconnect-Leads [] c h = refl
await_disconnect-Leads (disconnect_event ∷ rest) c h = rw h refl
await_disconnect-Leads (request_event body more ∷ rest) c h = refl
await_disconnect-Leads (other_event t ∷ rest) c h = refl

receive_consumed-Leads :
    (b : Bool) (c : CachedRequest) → phase c ≡ complete → Leads (phase c) (receive_consumed b c)
unfolding receive_consumed Leads
receive_consumed-Leads true c h = rw h refl
receive_consumed-Leads false c h = await_disconnect-Leads c.request.inbox c h

passed_on-Leads :
    (p : Result Error (Option Bytes × Generator) × Request) (c : CachedRequest)
    → c.wrapped_rcv_disconnected ≡ false
    → c.wrapped_rcv_consumed ≡ false
    → Leads begun (passed_on p c)
unfolding passed_on Leads
passed_on-Leads (ok (some chunk, g), r) c d k = ground arith
passed_on-Leads (ok (none, g), r) c d k = ground arith
passed_on-Leads (err client_disconnect, r) c d k = refl
passed_on-Leads (err stream_consumed_error, r) c d k = ground arith
passed_on-Leads (err runtime_error, r) c d k = ground arith
passed_on-Leads (err pending, r) c d k = ground arith
passed_on-Leads (err out_of_fuel, r) c d k = ground arith

receive_open-Leads :
    (body : Option Bytes) (consumed : Bool) (c : CachedRequest)
    → c.wrapped_rcv_disconnected ≡ false
    → c.wrapped_rcv_consumed ≡ false
    → Leads begun (receive_open body consumed c)
unfolding receive_open Leads
receive_open-Leads (some body) consumed c d k = ground arith
receive_open-Leads none true c d k = ground arith
receive_open-Leads none false c d k = passed_on-Leads (next fresh c.request) c d k

receive_in-Leads :
    (d k : Bool) (c : CachedRequest)
    → c.wrapped_rcv_disconnected ≡ d
    → c.wrapped_rcv_consumed ≡ k
    → Leads (phase_of d k) (receive_in d k c)
unfolding receive_in Leads phase_of
receive_in-Leads true k c d' k' = ground arith
receive_in-Leads false true c d' k' =
    let h : phase c ≡ complete = ground arith in
    subst (λ p. Leads p (receive_consumed c.request.is_disconnected c)) h
      (receive_consumed-Leads c.request.is_disconnected c h)
receive_in-Leads false false c d' k' =
    receive_open-Leads c.request.body c.request.stream_consumed c d' k'

wrapped_receive-Leads : (c : CachedRequest) → Leads (phase c) (wrapped_receive c)
unfolding wrapped_receive phase
wrapped_receive-Leads c =
    receive_in-Leads c.wrapped_rcv_disconnected c.wrapped_rcv_consumed c refl refl

advances-delivered :
    (p : Phase) (r : Result Error Event × CachedRequest) (ms : List Event)
    → Leads p r
    → advances p (delivered r.0 ++ ms) ≡ advances (phase r.1) ms
unfolding Leads delivered
advances-delivered p (ok m, c) ms h = rw (advances, h) refl
advances-delivered p (err e, c) ms h = rw h refl

advances-call :
    (k : Call) (c : CachedRequest) (ms : List Event)
    → advances (phase c) ((call k c).0 ++ ms) ≡ advances (phase (call k c).1) ms
unfolding call on_request phase
advances-call receiving c ms =
    advances-delivered (phase c) (wrapped_receive c) ms (wrapped_receive-Leads c)
advances-call reading_body c ms = refl
advances-call polling c ms = refl
advances-call (streaming g) c ms = refl

advances-run :
    (calls : List Call) (c : CachedRequest)
    → (p : Phase) × (advances (phase c) (run calls c) ≡ some p)
unfolding run
advances-run [] c = (phase c, refl)
advances-run (k ∷ calls) c =
    let (p, h) = advances-run calls (call k c).1 in
    (p, advances-call k c (run calls (call k c).1) ∙ h)

-- Whatever a middleware does with a request, and however its reads and the receives of the app below
-- are mixed, the app is given a request as the protocol has it: messages of the body, one that is
-- the last, and nothing but disconnect messages behind it or behind the first of them.
pub run_lem :
    (calls : List Call) (inbox : List Event)
    → (p : Phase) × (advances begun (run calls (init inbox)) ≡ some p)
unfolding init phase phase_of
run_lem calls inbox = advances-run calls (init inbox)
