-- ===== src/WebSocket/Protocol.antt =====
-- What an application can make a `WebSocket` send: the messages that reach the server follow the
-- ASGI protocol, whatever it calls and whichever sends fail.
use mathlib.Core.Option.{some-injective}
use rustlette.Prelude.{
  sym, subst, Option-cases, ℕ, Option, none, some, Bool, true, false, List, [], ◌∷◌, ◌++◌, ◌≡◌,
  refl, ◌⊎◌, inl, inr, Text, Bytes, All, All-append, arith, Bool-cases, if◌then◌else◌,
}
use rustlette.WebSocket.{
  WebSocketState, connecting, connected, disconnected, response, Message, accept, send_text,
  send_bytes, close, response_start, response_body, WebSocket, init, receive_message, send_message,
  more_body,
}

-- The messages of an open connection, and the parts of a denial response but its last.
abbrev pub IsFrame : Message → Type 0
IsFrame (send_text t) = Unit {0}
IsFrame (send_bytes b) = Unit {0}
IsFrame _ = ⊥

abbrev pub IsPart : Message → Type 0
IsPart (response_body b (some true)) = Unit {0}
IsPart _ = ⊥

-- What the server has seen, by the state that the protocol is in.
pub data Session : WebSocketState → List Message → Type 0 where
  silent : Session connecting []
  refused : (c : ℕ) (r : Text) → Session disconnected (close c r ∷ [])
  opened :
      (p : Option Text) (h : List (Bytes × Bytes)) (ms : List Message)
      → All IsFrame ms
      → Session connected (accept p h ∷ ms)
  ended :
      (p : Option Text) (h : List (Bytes × Bytes)) (ms : List Message) (c : ℕ) (r : Text)
      → All IsFrame ms
      → Session disconnected (accept p h ∷ (ms ++ close c r ∷ []))
  denying :
      (s : ℕ) (h : List (Bytes × Bytes)) (ms : List Message)
      → All IsPart ms
      → Session response (response_start s h ∷ ms)
  denied :
      (s : ℕ) (h : List (Bytes × Bytes)) (ms : List Message) (b : Bytes) (more : Option Bool)
      → All IsPart ms
      → more_body more ≡ false
      → Session disconnected (response_start s h ∷ (ms ++ response_body b more ∷ []))

-- The protocol's transitions: the state behind a message, if it may be sent.
abbrev next : WebSocketState → Message → Option WebSocketState
next connecting (accept p h) = some connected
next connecting (close c r) = some disconnected
next connecting (response_start s h) = some response
next connected (send_text t) = some connected
next connected (send_bytes b) = some connected
next connected (close c r) = some disconnected
next response (response_body b (some true)) = some response
next response (response_body b _) = some disconnected
next _ _ = none

moved : {a b : WebSocketState} {l : List Message} → some a ≡ some b → Session a l → Session b l
moved {l} e s = subst (λ x. Session x l) (some-injective _ _ e) s

Session-next :
    {a : WebSocketState} {l : List Message} (m : Message) {b : WebSocketState}
    → Session a l
    → next a m ≡ some b
    → Session b (l ++ m ∷ [])
unfolding more_body
Session-next (accept p h) silent e = moved e (opened p h [] tt)
Session-next (close c r) silent e = moved e (refused c r)
Session-next (response_start s h) silent e = moved e (denying s h [] tt)
Session-next (send_text t) (opened p h ms fs) e =
    moved e (opened p h _ (All-append IsFrame ms _ fs (tt, tt)))
Session-next (send_bytes t) (opened p h ms fs) e =
    moved e (opened p h _ (All-append IsFrame ms _ fs (tt, tt)))
Session-next (close c r) (opened p h ms fs) e = moved e (ended p h ms c r fs)
Session-next (response_body b none) (denying s h ms fs) e = moved e (denied s h ms b none fs refl)
Session-next (response_body b (some false)) (denying s h ms fs) e =
    moved e (denied s h ms b (some false) fs refl)
Session-next (response_body b (some true)) (denying s h ms fs) e =
    moved e (denying s h _ (All-append IsPart ms _ fs (tt, tt)))
Session-next _ silent e = cc
Session-next _ (opened p h ms fs) e = cc
Session-next _ (denying s h ms fs) e = cc
Session-next _ (refused c r) e = cc
Session-next _ (ended p h ms c r fs) e = cc
Session-next _ (denied s h ms b more fs last) e = cc

module _ (broken : List Message → Bool) (m : Message) (w : WebSocket) where
  send_refused : next w.application_state m ≡ none → (send_message broken m w).1 ≡ w
  unfolding send_message
  send_refused e = ground arith

  send_attempted :
      {b : WebSocketState}
      → next w.application_state m ≡ some b
      → ((send_message broken m w).1.attempted ≡ w.attempted ++ m ∷ [])
        × (((send_message broken m w).1.application_state ≡ b)
            ⊎ ((send_message broken m w).1.application_state ≡ disconnected))
  unfolding send_message
  send_attempted h = ground arith

  send_sent :
      {b : WebSocketState}
      → next w.application_state m ≡ some b
      → (send_message broken m w).1.sent ≡ (if broken w.attempted then w.sent else w.sent ++ m ∷ [])
  unfolding send_message
  send_sent h = ground arith

receive_keeps :
    (w : WebSocket)
    → ((receive_message w).1.sent ≡ w.sent)
      × (((receive_message w).1.attempted ≡ w.attempted)
          × ((receive_message w).1.application_state ≡ w.application_state))
unfolding receive_message
receive_keeps w = ground arith

-- The calls of an application that reach the state machine; every other method is made of these.
pub data Call : Type 0 where
  receiving : Call
  sending : Message → Call

module _ (broken : List Message → Bool) where
  -- Calls one after the other; an exception is caught, and the next call is made.
  unfoldable pub run : List Call → WebSocket → WebSocket
  run [] w = w
  run (receiving ∷ calls) w = run calls (receive_message w).1
  run (sending m ∷ calls) w = run calls (send_message broken m w).1

  -- The state that the messages show is the object's own, unless it has given the connection up.
  IsTracked : WebSocket → Type 0
  IsTracked w =
      (s : WebSocketState) × Session s w.attempted
      × ((s ≡ w.application_state) ⊎ (w.application_state ≡ disconnected))

  receive-IsTracked : (w : WebSocket) → IsTracked w → IsTracked (receive_message w).1
  unfolding IsTracked
  receive-IsTracked w t = let (_, kept) = receive_keeps w in rw (kept.0, kept.1) t

  send-IsTracked :
      (m : Message) (w : WebSocket) → IsTracked w → IsTracked (send_message broken m w).1
  unfolding IsTracked
  send-IsTracked m w (s, session, inr gone) =
      rw (send_refused broken m w (rw gone refl)) (s, session, inr gone)
  send-IsTracked m w (s, session, inl same) = elim (Option-cases (next s m)) [
    | inl forbidden ↦ rw (send_refused broken m w (rw same at forbidden)) (s, session, inl same)
    | inr (b, allowed) ↦
        let (attempted, state) = send_attempted broken m w (rw same at allowed) in
        (
          b,
          rw attempted (Session-next m session allowed),
          elim state [ inl e ↦ inl (sym e) | inr e ↦ inr e ],
        )
  ]

  run-IsTracked : (calls : List Call) (w : WebSocket) → IsTracked w → IsTracked (run calls w)
  unfolding run
  run-IsTracked [] w t = t
  run-IsTracked (receiving ∷ calls) w t = run-IsTracked calls _ (receive-IsTracked w t)
  run-IsTracked (sending m ∷ calls) w t = run-IsTracked calls _ (send-IsTracked m w t)

-- Whatever an application calls, in whatever order, and whichever sends fail, the messages that it has
-- the server's `send` called with form the beginning of a session: nothing, a refusal, an accepted
-- connection with frames and at most one close at its end, or a denial response with its parts.
pub run-Session :
    (broken : List Message → Bool) (calls : List Call) (inbox : List Message)
    → (s : WebSocketState) × Session s (run broken calls (init inbox)).attempted
unfolding IsTracked init
run-Session broken calls inbox =
    let (s, session, _) = run-IsTracked broken calls (init inbox) (connecting, silent, inl refl) in
    (s, session)

module _ (broken : List Message → Bool)
    (lasting : (l : List Message) (m : Message)
      → broken l ≡ true
      → broken (l ++ m ∷ []) ≡ true) where
  -- All that was attempted has reached the server, or the first part of it and the connection is broken.
  IsDelivered : WebSocket → Type 0
  IsDelivered w =
      (w.sent ≡ w.attempted)
      ⊎ ((broken w.attempted ≡ true) × (s : WebSocketState) × Session s w.sent)

  send-IsDelivered :
      (m : Message) (w : WebSocket)
      → IsTracked broken w
      → IsDelivered w
      → IsDelivered (send_message broken m w).1
  unfolding IsDelivered IsTracked
  send-IsDelivered m w (s, session, _) d = elim (Option-cases (next w.application_state m)) [
    | inl forbidden ↦ rw (send_refused broken m w forbidden) d
    | inr (b, allowed) ↦
        let (attempted, _) = send_attempted broken m w allowed in
        let sent = send_sent broken m w allowed in
        elim (Bool-cases (broken w.attempted)) [
          | inl fails ↦
              let seen : (s' : WebSocketState) × Session s' w.sent = elim d [
                | inl all ↦ (s, rw all session)
                | inr (_, s', seen) ↦ (s', seen)
              ] in
              let (s', session') = seen in
              inr (rw attempted (lasting w.attempted m fails), s', rw (sent, fails) session')
          | inr fine ↦ elim d [
            | inl all ↦ inl (rw (sent, attempted, fine, all) refl)
            | inr (fails, _, _) ↦ absurd (ground arith)
          ]
        ]
  ]

  run-IsDelivered :
      (calls : List Call) (w : WebSocket)
      → IsTracked broken w
      → IsDelivered w
      → IsDelivered (run broken calls w)
  unfolding run IsDelivered
  run-IsDelivered [] w t d = d
  run-IsDelivered (receiving ∷ calls) w t d =
      let (sent, kept) = receive_keeps w in
      run-IsDelivered calls _ (receive-IsTracked broken w t) (rw (sent, kept.0) d)
  run-IsDelivered (sending m ∷ calls) w t d =
      run-IsDelivered calls _ (send-IsTracked broken m w t) (send-IsDelivered m w t d)

  -- Where a connection that has broken stays broken, the messages that reach the server form the
  -- beginning of a session as well, whatever an application calls and whenever the connection breaks.
  pub run_delivered :
      (calls : List Call) (inbox : List Message)
      → (s : WebSocketState) × Session s (run broken calls (init inbox)).sent
  unfolding IsTracked IsDelivered init
  run_delivered calls inbox =
      let tracked = run-IsTracked broken calls (init inbox) (connecting, silent, inl refl) in
      elim (run-IsDelivered calls (init inbox) (connecting, silent, inl refl) (inl refl)) [
        | inl all ↦ let (s, session, _) = tracked in (s, rw all session)
        | inr (_, s, session) ↦ (s, session)
      ]
