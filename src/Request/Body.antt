-- ===== src/Request/Body.antt =====
-- What `body` returns, and that it returns.
use rustlette.Prelude.{
  ℕ, zero, suc, ◌+◌, ◌≤◌, ◌<◌, ◌≡◌, refl, ap, sym, ◌∙◌, Bool-cases, inl, inr, if◌then◌else◌, Option,
  none, some, Bool, true, false, List, [], ◌∷◌, ◌++◌, append_assoc, append-nil, Bytes, length,
  arith,
}
use rustlette.Prelude.Exec.{Result, ok, err, resume}
use rustlette.Asgi.{body_of, more_of}
use rustlette.Request.{
  Event, request_event, disconnect_event, other_event, Error, pending, client_disconnect, Request,
  init, Generator, in_loop, pull, pull_chunk, resume_loop, start, next, drain, store_body,
  after_chunk, read_body, get_body,
}

-- messages that announce more
abbrev pub frames : List (Option Bytes) → List Event
frames [] = []
frames (b ∷ bs) = request_event b (some true) ∷ frames bs

abbrev pub joined : List (Option Bytes) → Bytes
joined [] = []
joined (b ∷ bs) = body_of b ++ joined bs

pub length-frames :
    (bs : List (Option Bytes)) (rest : List Event) → length bs ≤ length (frames bs ++ rest)
length-frames [] rest = omega arith
length-frames (b ∷ bs) rest = omega (arith, length-frames bs rest)

-- what the consumer of the generator makes of a pull
abbrev reading :
    ℕ → Bytes → Result Error (Option Bytes × Generator) × Request → Result Error Bytes × Request
reading fuel chunks p = resume p (after_chunk (drain fuel) chunks)

read_last :
    (body : Bytes) (rest : List Event) (fuel : ℕ) (chunks : Bytes) (r : Request)
    → reading (suc (suc fuel)) chunks (pull_chunk body false rest (pull rest) r)
      ≡ (ok (chunks ++ body), record r { inbox = rest; stream_consumed = true })
unfolding pull_chunk after_chunk drain next
read_last [] rest fuel chunks r = refl
read_last (c ∷ chunk) rest fuel chunks r = rw append-nil refl

resume_unread :
    (consumed : Bool) (r : Request) → consumed ≡ false → resume_loop consumed r ≡ pull r.inbox r
unfolding resume_loop
resume_unread false r e = refl
resume_unread true r e = cc

read_more :
    (fuel : ℕ) (chunks : Bytes) (r : Request)
    → r.stream_consumed ≡ false
    → drain (suc fuel) in_loop chunks r ≡ reading fuel chunks (pull r.inbox r)
unfolding drain next
read_more fuel chunks r unread =
    ap (λ p. resume p (after_chunk (drain fuel) chunks)) (resume_unread r.stream_consumed r unread)

module _ (last : Option Bytes) (more : Option Bool) (rest : List Event)
    (final : more_of more ≡ false) where
  read_frames :
      (bs : List (Option Bytes)) (fuel : ℕ) (chunks : Bytes) (r : Request)
      → length bs + 1 < fuel
      → r.stream_consumed ≡ false
      → reading fuel chunks (pull (frames bs ++ request_event last more ∷ rest) r) ≡ (
        ok (chunks ++ (joined bs ++ body_of last)),
        record r { inbox = rest; stream_consumed = true },
      )
  unfolding pull after_chunk drain next pull_chunk
  read_frames bs zero chunks r enough unread = absurd (omega arith)
  read_frames bs (suc zero) chunks r enough unread = absurd (omega arith)
  read_frames [] (suc (suc fuel)) chunks r enough unread =
      rw final (read_last (body_of last) rest fuel chunks r)
  read_frames (none ∷ bs) (suc (suc fuel)) chunks r enough unread =
      read_frames bs (suc (suc fuel)) chunks r (omega arith) unread
  read_frames (some [] ∷ bs) (suc (suc fuel)) chunks r enough unread =
      read_frames bs (suc (suc fuel)) chunks r (omega arith) unread
  read_frames (some (c ∷ chunk) ∷ bs) (suc (suc fuel)) chunks r enough unread =
      let r' = record r { inbox = frames bs ++ request_event last more ∷ rest } in
      read_more (suc fuel) (chunks ++ c ∷ chunk) r' unread
      ∙ read_frames bs (suc fuel) (chunks ++ c ∷ chunk) r' (omega arith) unread
      ∙ simp append_assoc

-- A request whose messages have all come is read whole: the body is the bytes of its messages joined
-- in order, up to the first that announces no more, later messages stay unread, and another call
-- gives the same body and takes nothing from the server.
pub get_body_lem :
    (bs : List (Option Bytes)) (last : Option Bytes) (more : Option Bool) (rest : List Event)
    → more_of more ≡ false
    → let whole = joined bs ++ body_of last in
      let read : Request = record {
        inbox = rest;
        stream_consumed = true;
        is_disconnected = false;
        body = some whole;
      } in
      (get_body (init (frames bs ++ request_event last more ∷ rest)) ≡ (ok whole, read))
      × (get_body read ≡ (ok whole, read))
unfolding get_body drain next init
get_body_lem bs last more rest final =
    let few = length-frames bs (request_event last more ∷ rest) in
    let r = init (frames bs ++ request_event last more ∷ rest) in
    (
      ap store_body (
          read_frames last more rest final bs (suc (suc (length r.inbox))) [] r (omega arith) refl),
      refl,
    )

-- What reading the body comes to, by the messages: their bodies joined, up to one that announces no more;
-- an exception at a disconnect; or the wait for a message that has not come.
abbrev pub gathered : (so_far : Bytes) → List Event → Result Error Bytes × Request
gathered so_far [] = (err pending, init [])
gathered so_far (disconnect_event ∷ rest) =
    (err client_disconnect, record (init rest) { is_disconnected = true })
gathered so_far (other_event t ∷ rest) = gathered so_far rest
gathered so_far (request_event body more ∷ rest) =
    let later = gathered (so_far ++ body_of body) rest in
    let whole = so_far ++ body_of body in
    if more_of more
    then later
    else (ok whole, record (init rest) { stream_consumed = true; body = some whole })

-- One message of the body with more to come, where the reading of the messages behind it is known.
reading_more :
    (body : Bytes) (rest i : List Event) (fuel : ℕ) (so_far : Bytes)
    → ((i' : List Event) (fuel' : ℕ) (so_far' : Bytes)
        → suc (suc (length rest)) ≤ fuel'
        → store_body (reading fuel' so_far' (pull rest (init i'))) ≡ gathered so_far' rest)
    → suc (suc (suc (length rest))) ≤ fuel
    → store_body (reading fuel so_far (pull_chunk body true rest (pull rest) (init i)))
      ≡ gathered (so_far ++ body) rest
unfolding pull_chunk after_chunk drain next resume_loop init store_body
reading_more body rest i zero so_far later h = absurd (omega arith)
reading_more [] rest i (suc fuel) so_far later h =
    later i (suc fuel) so_far (omega arith) ∙ ap (λ b. gathered b rest) (sym (append-nil so_far))
reading_more (c ∷ chunk) rest i (suc fuel) so_far later h =
    later rest fuel (so_far ++ c ∷ chunk) (omega arith)

reading_all :
    (l i : List Event) (fuel : ℕ) (so_far : Bytes)
    → suc (suc (length l)) ≤ fuel
    → store_body (reading fuel so_far (pull l (init i))) ≡ gathered so_far l
unfolding pull init store_body
reading_all l i zero so_far h = absurd (omega arith)
reading_all l i (suc zero) so_far h = absurd (omega arith)
reading_all [] i (suc (suc fuel)) so_far h = refl
reading_all (disconnect_event ∷ rest) i (suc (suc fuel)) so_far h = refl
reading_all (other_event t ∷ rest) i (suc (suc fuel)) so_far h =
    reading_all rest i (suc (suc fuel)) so_far (omega arith)
reading_all (request_event body more ∷ rest) i (suc (suc fuel)) so_far h =
    elim (Bool-cases (more_of more)) [
      | inl follows ↦ rw follows (
          reading_more (body_of body) rest i (suc (suc fuel)) so_far
            (λ i' fuel' so_far'. reading_all rest i' fuel' so_far') (omega arith))
      | inr last ↦ rw last (ap store_body (read_last (body_of body) rest fuel so_far (init i)))
    ]

-- Whatever messages the server has for a request, its body is read as they say: the bodies of the request
-- messages joined, up to the first that announces no more, with what comes later unread; if the client
-- disconnects before, the call raises `ClientDisconnect` and the request is marked as disconnected; and if
-- neither has come, it waits. Messages of other types are skipped.
pub get_body-eq-gathered : (inbox : List Event) → get_body (init inbox) ≡ gathered [] inbox
unfolding get_body read_body drain next start init
get_body-eq-gathered inbox = reading_all inbox inbox (suc (suc (length inbox))) [] (omega arith)
