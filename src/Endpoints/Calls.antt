-- ===== src/Endpoints/Calls.antt =====
-- The calls that `WebSocketEndpoint.dispatch` makes of an endpoint.
use mathlib.Core.List.{map}
use rustlette.Prelude.{
  ℕ, zero, suc, ◌≡◌, refl, sym, ap, ◌∙◌, subst, Bool, ◌⊎◌, inl, inr, List, [], ◌∷◌, ◌++◌,
  append-nil, append_assoc, length,
}
use rustlette.Prelude.Exec.{Result, ok, err, Exec, resume}
use rustlette.WebSocket.{
  Message, receive, disconnect, connect, accept, send_text, send_bytes, close, response_start,
  response_body, other, Error, pending, runtime_error, key_error, os_error, websocket_disconnect,
  WebSocket, Action, receive_message,
}
use rustlette.Endpoints.{
  Encoding, Data, Hook, on_connect, on_receive, on_disconnect, State, decode, lifted, called,
  on_message, loop, reraised, closed, after_connect, dispatch,
}

-- The calls of a state that has received `ds` behind those of another one.
HasReceived : List Hook → State → Type 0
HasReceived calls s = (ds : List Data) × (s.calls ≡ calls ++ map on_receive ds)

HasReceived-trans :
    (calls : List Hook) (d : Data) (s : State)
    → HasReceived (calls ++ on_receive d ∷ []) s
    → HasReceived calls s
unfolding HasReceived
HasReceived-trans calls d s (ds, h) =
    (d ∷ ds, h ∙ append_assoc calls (on_receive d ∷ []) (map on_receive ds))

module _ (broken : List Message → Bool) (hook : Hook → Action (Unit {0}))
    (encoding : Encoding) where
  HasReceived-resume :
      {A B : Type 0} (calls : List Hook) (v : Result Error A × State)
      (next : A → Exec State Error B)
      → v.1.calls ≡ calls
      → ((a : A) (s : State) → s.calls ≡ calls → HasReceived calls (next a s).1)
      → HasReceived calls (resume v next).1
  unfolding HasReceived
  HasReceived-resume calls (ok a, s) next h k = k a s h
  HasReceived-resume calls (err e, s) next h k = ([], h ∙ sym (append-nil calls))

  HasReceived-called :
      (calls : List Hook) (d : Data) (s : State) (rest : Exec State Error ℕ)
      → s.calls ≡ calls
      → ((t : State) → HasReceived t.calls (rest t).1)
      → HasReceived calls (resume (called broken hook encoding (on_receive d) s) (λ _. rest)).1
  unfolding called lifted
  HasReceived-called calls d s rest q k = HasReceived-trans calls d _ (
      HasReceived-resume (calls ++ on_receive d ∷ []) (called broken hook encoding (on_receive d) s)
        (λ _. rest) (ap (λ l. l ++ on_receive d ∷ []) q)
        (λ _ t h. subst (λ l. HasReceived l (rest t).1) h (k t)))

  HasReceived-on_message :
      (rest : Exec State Error ℕ) (m : Message) (s : State)
      → ((t : State) → HasReceived t.calls (rest t).1)
      → HasReceived s.calls (on_message broken hook encoding rest m s).1
  unfolding on_message HasReceived lifted
  HasReceived-on_message rest (receive text bytes) s k =
      HasReceived-resume s.calls
        (lifted broken hook encoding (decode broken hook encoding encoding text bytes s.websocket)
          s.calls)
        _ refl (λ d t h. HasReceived-called s.calls d t rest h k)
  HasReceived-on_message rest (disconnect code reason) s k = ([], sym (append-nil s.calls))
  HasReceived-on_message rest connect s k = k s
  HasReceived-on_message rest (accept p h) s k = k s
  HasReceived-on_message rest (send_text t) s k = k s
  HasReceived-on_message rest (send_bytes t) s k = k s
  HasReceived-on_message rest (close c r) s k = k s
  HasReceived-on_message rest (response_start c r) s k = k s
  HasReceived-on_message rest (response_body c r) s k = k s
  HasReceived-on_message rest (other t) s k = k s

  HasReceived-loop :
      (fuel : ℕ) (s : State) → HasReceived s.calls (loop broken hook encoding fuel s).1
  unfolding loop HasReceived lifted
  HasReceived-loop zero s = ([], sym (append-nil s.calls))
  HasReceived-loop (suc fuel) s =
      HasReceived-resume s.calls (lifted broken hook encoding (receive_message s.websocket) s.calls)
        (on_message broken hook encoding (loop broken hook encoding fuel)) refl
        (λ m t h.
          subst
            (λ l.
              HasReceived l
                (on_message broken hook encoding (loop broken hook encoding fuel) m t).1)
            h (HasReceived-on_message (loop broken hook encoding fuel) m t (HasReceived-loop fuel)))

  -- How the calls of an endpoint end, where it has been called `calls` before the loop.
  Ends : List Hook → Result Error (Unit {0}) × State → Type 0
  Ends calls v =
      (ds : List Data) × (((v.0 ≡ err pending) × (v.1.calls ≡ calls ++ map on_receive ds))
        ⊎ ((code : ℕ) × (v.1.calls ≡ calls ++ map on_receive ds ++ on_disconnect code ∷ [])))

  calls-reraised :
      (e : Error) (v : Result Error (Unit {0}) × State)
      → (reraised broken hook encoding e v).1.calls ≡ v.1.calls
  unfolding reraised
  calls-reraised e (ok tt, s) = refl
  calls-reraised e (err f, s) = refl

  Ends-raised :
      (calls : List Hook) (e : Error) (s : State)
      → HasReceived calls s
      → Ends calls
          (reraised broken hook encoding e (called broken hook encoding (on_disconnect 1011) s))
  unfolding Ends HasReceived called lifted
  Ends-raised calls e s (ds, h) = (
    ds,
    inr (
      1011,
      calls-reraised e (called broken hook encoding (on_disconnect 1011) s)
          ∙ ap (λ l. l ++ on_disconnect 1011 ∷ []) h,
    ),
  )

  Ends-closed :
      (calls : List Hook) (v : Result Error ℕ × State)
      → HasReceived calls v.1
      → Ends calls (closed broken hook encoding v)
  unfolding Ends closed HasReceived called lifted
  Ends-closed calls (ok code, s) (ds, h) =
      (ds, inr (code, ap (λ l. l ++ on_disconnect code ∷ []) h))
  Ends-closed calls (err pending, s) (ds, h) = (ds, inl (refl, h))
  Ends-closed calls (err runtime_error, s) h = Ends-raised calls runtime_error s h
  Ends-closed calls (err key_error, s) h = Ends-raised calls key_error s h
  Ends-closed calls (err os_error, s) h = Ends-raised calls os_error s h
  Ends-closed calls (err (websocket_disconnect code reason), s) h =
      Ends-raised calls (websocket_disconnect code reason) s h

  Ends-after_connect :
      (v : Result Error (Unit {0}) × State)
      → ((e : Error) × (v.0 ≡ err e) × (after_connect broken hook encoding v ≡ v))
        ⊎ Ends v.1.calls (after_connect broken hook encoding v)
  unfolding after_connect
  Ends-after_connect (ok tt, s) =
      let fuel = suc (suc (length s.websocket.inbox)) in
      inr (Ends-closed s.calls (loop broken hook encoding fuel s) (HasReceived-loop fuel s))
  Ends-after_connect (err e, s) = inl (e, refl, refl)

  -- An endpoint is called `on_connect` first. If that raises, nothing else is called. Otherwise it is called
  -- `on_receive` some times, and then, unless the loop waits for a message, `on_disconnect` once and
  -- nothing behind it, whether the client disconnects or an exception is raised.
  pub calls-dispatch :
      (w : WebSocket)
      → let v = dispatch broken hook encoding w in
        ((e : Error) × ((hook on_connect w).0 ≡ err e) × (v.1.calls ≡ on_connect ∷ []))
        ⊎ ((ds : List Data) × (((v.0 ≡ err pending) × (v.1.calls ≡ on_connect ∷ map on_receive ds))
              ⊎ ((code : ℕ) × (v.1.calls
                    ≡ on_connect ∷ (map on_receive ds ++ on_disconnect code ∷ [])))))
  unfolding dispatch called lifted Ends
  calls-dispatch w =
      elim (Ends-after_connect
        (called broken hook encoding on_connect (record { websocket = w; calls = [] }))) [
          | inl (e, raised, same) ↦ inl (e, raised, ap (λ v. v.1.calls) same)
          | inr ends ↦ inr ends
        ]
