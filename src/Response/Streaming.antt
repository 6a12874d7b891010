-- ===== src/Response/Streaming.antt =====
-- rustlette/responses.py: `StreamingResponse`, without its background task. `broken` says which sends raise
-- `OSError`, by the sends that have been attempted before them. With a server of an older specification a
-- task listens for a disconnect and cancels the other one; `disconnected` says behind which sends it has.
use rustlette.Prelude.{
  ℕ, ltb, ◌==◌, ◌≡◌, Bool, true, false, Option, none, some, List, [], ◌∷◌, ◌++◌, Text, Bytes,
  if◌then◌else◌, ◌⊎◌,
}
use rustlette.Prelude.Exec.{Result, ok, err, Exec, ◌>>◌}
use rustlette.Headers.{RawHeaders, HeaderError}
use rustlette.Headers.Encoding.{then_ok}
use rustlette.Asgi.{HttpMessage, response_start, response_body}
use rustlette.Response.{init_headers}

-- a response whose body is the chunks that its iterator yields
pub record StreamingResponse : Type 0 where
  pub status_code : ℕ
  pub raw_headers : RawHeaders
  pub chunks : List Bytes

-- `StreamingResponse.__init__`: with no body there is no content length
unfoldable pub make_streaming_response :
    List Bytes → ℕ → List (Text × Text) → Option Text → Result HeaderError StreamingResponse
unfolding init_headers
make_streaming_response chunks status headers media_type =
    then_ok (init_headers status none media_type headers)
      (λ raw. ok (record { status_code = status; raw_headers = raw; chunks = chunks }))

-- what ends a task: an `OSError` of a send, or the cancellation of its group
pub data TaskError : Type 0 where
  os_error cancelled : TaskError

-- the calls of the server's `send`, and the messages that have reached the server
pub record Sending : Type 0 where
  pub attempted : List HttpMessage
  pub sent : List HttpMessage

unfoldable pub nothing_sent : Sending
nothing_sent = record { attempted = []; sent = [] }

abbrev pub Action : Type 0
Action = Exec Sending TaskError (Unit {0})

module _ (broken disconnected : List HttpMessage → Bool) where
  send : HttpMessage → Action
  send m s =
      if disconnected s.attempted
      then (err cancelled, s)
      else if broken s.attempted
      then (err os_error, record s { attempted = s.attempted ++ m ∷ [] })
      else (ok tt, record { attempted = s.attempted ++ m ∷ []; sent = s.sent ++ m ∷ [] })

  -- the loop over the iterator, and the message behind it
  stream_chunks : List Bytes → Action
  unfolding send
  stream_chunks [] = send (response_body (some []) (some false))
  stream_chunks (chunk ∷ chunks) =
      send (response_body (some chunk) (some true)) >> stream_chunks chunks

  -- `stream_response`
  unfoldable pub stream_response : StreamingResponse → Action
  unfolding stream_chunks send
  stream_response r = send (response_start r.status_code r.raw_headers) >> stream_chunks r.chunks

-- the order of tuples, as in `spec_version >= (2, 4)`
unfoldable pub at_least : (version least : List ℕ) → Bool
at_least version [] = true
at_least [] (n ∷ least) = false
at_least (m ∷ version) (n ∷ least) =
    let rest = at_least version least in if m == n then rest else ltb n m

-- what `__call__` raises
pub data Error : Type 0 where
  client_disconnect send_error : Error

-- `except OSError`
with_disconnect : Result TaskError (Unit {0}) × Sending → Result Error (Unit {0}) × Sending
with_disconnect (ok u, s) = (ok u, s)
with_disconnect (err e, s) = (err client_disconnect, s)

-- what leaves the group of tasks
of_group : Result TaskError (Unit {0}) × Sending → Result Error (Unit {0}) × Sending
of_group (ok u, s) = (ok u, s)
of_group (err cancelled, s) = (ok tt, s)
of_group (err os_error, s) = (err send_error, s)

-- `__call__`, by the specification's version that the server names
unfoldable pub call :
    (broken disconnected : List HttpMessage → Bool)
    → List ℕ
    → StreamingResponse
    → Result Error (Unit {0}) × Sending
unfolding at_least with_disconnect of_group stream_response nothing_sent
call broken disconnected spec_version r =
    if at_least spec_version (2 ∷ 4 ∷ [])
    then with_disconnect (stream_response broken (λ attempted. false) r nothing_sent)
    else of_group (stream_response broken disconnected r nothing_sent)

-- the messages of a response whose sends all go through
abbrev pub body_messages : List Bytes → List HttpMessage
body_messages [] = response_body (some []) (some false) ∷ []
body_messages (chunk ∷ chunks) = response_body (some chunk) (some true) ∷ body_messages chunks

abbrev pub joined : List Bytes → Bytes
joined [] = []
joined (chunk ∷ chunks) = chunk ++ joined chunks

-- The messages before one of them have reached the server, and it has not.
abbrev pub IsCut : (sent messages : List HttpMessage) → Type 0
IsCut sent messages = (m : HttpMessage) × (rest : List HttpMessage) × (sent ++ m ∷ rest ≡ messages)

module _ (broken disconnected : List HttpMessage → Bool) where
  -- all messages have reached the server, or those before one whose send fails or is cancelled
  IsSent : List HttpMessage → Result TaskError (Unit {0}) × Sending → Type 0
  IsSent messages v =
      ((v.0 ≡ ok tt) × (v.1.sent ≡ messages))
      ⊎ (((v.0 ≡ err os_error) × (broken v.1.sent ≡ true) × IsCut v.1.sent messages)
          ⊎ ((v.0 ≡ err cancelled) × (disconnected v.1.sent ≡ true) × IsCut v.1.sent messages))

  both : List HttpMessage → Sending
  both sent = record { attempted = sent; sent = sent }

module _ (broken disconnected : List HttpMessage → Bool) (r : StreamingResponse) where
  -- How a call ends, by whether the server is of version 2.4 or later.
  unfoldable pub IsAnswered : (recent : Bool) → Result Error (Unit {0}) × Sending → Type 0
  IsAnswered recent v =
      let messages = response_start r.status_code r.raw_headers ∷ body_messages r.chunks in
      ((v.0 ≡ ok tt) × (v.1.sent ≡ messages))
      ⊎ (((v.0 ≡ err (if recent then client_disconnect else send_error))
            × (broken v.1.sent ≡ true)
            × IsCut v.1.sent messages)
          ⊎ ((v.0 ≡ ok tt)
              × (recent ≡ false)
              × (disconnected v.1.sent ≡ true)
              × IsCut v.1.sent messages))
