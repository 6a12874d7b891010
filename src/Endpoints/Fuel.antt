-- ===== src/Endpoints/Fuel.antt =====
-- The rounds of `WebSocketEndpoint.dispatch` are enough.
use rustlette.Prelude.{
  ℕ, zero, suc, ◌≤◌, ◌<◌, ◌≡◌, refl, arith, Bool, Option, List, [], Text, Bytes, length,
}
use rustlette.Prelude.Exec.{Result, ok, err, Exec, resume}
use rustlette.WebSocket.{
  Message, receive, disconnect, connect, accept, send_text, send_bytes, close, response_start,
  response_body, other, Error, WebSocket, Action, receive_message, send_message,
}
use rustlette.WebSocket.Methods.{close_connection}
use rustlette.Endpoints.{
  Encoding, Data, Hook, on_receive, State, unsupported, plain_data, decode, lifted, called,
  on_message, loop,
}

-- what is left to read of a connection
abbrev left : {A : Type 0} → Result Error A × WebSocket → ℕ
left v = length v.1.inbox

send_message_keeps :
    (broken : List Message → Bool) (m : Message) (w : WebSocket)
    → (send_message broken m w).1.inbox ≡ w.inbox
unfolding send_message
send_message_keeps broken m w = ground arith

-- A message that is received is taken from the inbox.
Shorter : WebSocket → Result Error Message × WebSocket → Type 0
Shorter w (ok m, w') = length w'.inbox < length w.inbox
Shorter w (err e, w') = Unit {0}

receive_message-Shorter : (w : WebSocket) → Shorter w (receive_message w)
unfolding receive_message Shorter
receive_message-Shorter w = ground arith

-- the same rounds behind a state with no more to read than `n`
Agree : ℕ → (f g : Exec State Error ℕ) → Type 0
Agree n f g = (s : State) → length s.websocket.inbox ≤ n → f s ≡ g s

module _ (broken : List Message → Bool) (hook : Hook → Action (Unit {0})) (encoding : Encoding)
    (keeps : (h : Hook) (w : WebSocket) → left (hook h w) ≤ length w.inbox) where
  decode_keeps :
      (e : Encoding) (text : Option (Option Text)) (bytes : Option (Option Bytes)) (w : WebSocket)
      → left (decode broken hook encoding e text bytes w) ≡ length w.inbox
  unfolding decode unsupported plain_data close_connection
  decode_keeps e text bytes w = ground (arith, send_message_keeps broken (close 1003 []) w)

  Agree-resume :
      {A : Type 0} (n : ℕ) (v : Result Error A × State) (f g : A → Exec State Error ℕ)
      → length v.1.websocket.inbox ≤ n
      → ((a : A) → Agree n (f a) (g a))
      → resume v f ≡ resume v g
  unfolding Agree
  Agree-resume n (ok a, s) f g h k = k a s h
  Agree-resume n (err e, s) f g h k = refl

  Agree-called :
      (n : ℕ) (d : Data) (f g : Exec State Error ℕ)
      → Agree n f g
      → Agree n
          (λ s. resume (called broken hook encoding (on_receive d) s) (λ _. f))
          (λ s. resume (called broken hook encoding (on_receive d) s) (λ _. g))
  unfolding Agree called lifted
  Agree-called n d f g k s h =
      let fewer = keeps (on_receive d) s.websocket in
      Agree-resume n (called broken hook encoding (on_receive d) s) (λ _. f) (λ _. g) (omega arith)
        (λ _. k)

  Agree-on_message :
      (n : ℕ) (f g : Exec State Error ℕ) (m : Message)
      → Agree n f g
      → Agree n (on_message broken hook encoding f m) (on_message broken hook encoding g m)
  unfolding Agree on_message lifted
  Agree-on_message n f g (receive text bytes) k s h =
      Agree-resume n
        (lifted broken hook encoding (decode broken hook encoding encoding text bytes s.websocket)
          s.calls)
        _ _ (omega (arith, decode_keeps encoding text bytes s.websocket))
        (λ d. Agree-called n d f g k)
  Agree-on_message n f g (disconnect code reason) k s h = refl
  Agree-on_message n f g connect k s h = k s h
  Agree-on_message n f g (accept p l) k s h = k s h
  Agree-on_message n f g (send_text t) k s h = k s h
  Agree-on_message n f g (send_bytes t) k s h = k s h
  Agree-on_message n f g (close c r) k s h = k s h
  Agree-on_message n f g (response_start c r) k s h = k s h
  Agree-on_message n f g (response_body c r) k s h = k s h
  Agree-on_message n f g (other t) k s h = k s h

  after_receive :
      (n : ℕ) (v : Result Error Message × WebSocket) (w : WebSocket) (calls : List Hook)
      (f g : Exec State Error ℕ)
      → Shorter w v
      → length w.inbox ≤ suc n
      → Agree n f g
      → resume (lifted broken hook encoding v calls) (on_message broken hook encoding f)
        ≡ resume (lifted broken hook encoding v calls) (on_message broken hook encoding g)
  unfolding lifted Shorter Agree
  after_receive n (ok m, w') w calls f g h l k =
      Agree-on_message n f g m k (record { websocket = w'; calls = calls }) (omega arith)
  after_receive n (err e, w') w calls f g h l k = refl

  none_received :
      (v : Result Error Message × WebSocket) (w : WebSocket) (calls : List Hook)
      (f g : Message → Exec State Error ℕ)
      → Shorter w v
      → length w.inbox ≤ 0
      → resume (lifted broken hook encoding v calls) f
        ≡ resume (lifted broken hook encoding v calls) g
  unfolding lifted Shorter
  none_received (ok m, w') w calls f g h l = absurd (omega arith)
  none_received (err e, w') w calls f g h l = refl

  Agree-loop :
      (n fuel : ℕ)
      → n < fuel
      → Agree n (loop broken hook encoding fuel) (loop broken hook encoding (suc n))
  unfolding loop Agree
  Agree-loop n zero h s l = absurd (omega arith)
  Agree-loop zero (suc fuel) h s l =
      none_received (receive_message s.websocket) s.websocket s.calls _ _
        (receive_message-Shorter s.websocket) l
  Agree-loop (suc n) (suc fuel) h s l =
      after_receive n (receive_message s.websocket) s.websocket s.calls
        (loop broken hook encoding fuel) (loop broken hook encoding (suc n))
        (receive_message-Shorter s.websocket) l (Agree-loop n fuel (omega arith))

  -- Where the endpoint's methods add nothing to what the server is going to deliver, the rounds that
  -- `dispatch` gives its loop are enough: with more of them the loop comes to the same.
  pub loop_lem :
      (fuel : ℕ) (s : State)
      → suc (suc (length s.websocket.inbox)) ≤ fuel
      → loop broken hook encoding fuel s
        ≡ loop broken hook encoding (suc (suc (length s.websocket.inbox))) s
  unfolding Agree
  loop_lem fuel s h = Agree-loop (suc (length s.websocket.inbox)) fuel h s (omega arith)
