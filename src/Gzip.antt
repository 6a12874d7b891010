-- ===== src/Gzip.antt =====
-- rustlette/middleware/gzip.py: `send_with_compression` of `IdentityResponder` and `GZipResponder`. The
-- compressor is a parameter: from its state, the body and `more_body` it gives what
-- `apply_compression` returns and its next state.
pub mod Announced
mod Tests
use rustlette.Prelude.{
  ℕ, Bool, true, false, not, ◌&&◌, ◌||◌, Option, none, some, List, [], ◌∷◌, ◌++◌, Text, Bytes,
  codes, text_eq, contains_text, starts_with, ltb, length, if◌then◌else◌,
}
use rustlette.Prelude.Decimal.{str}
use rustlette.Prelude.Exec.{Result, ok, err, Exec}
use rustlette.Asgi.{
  HttpMessage, response_start, response_body, response_pathsend, other, body_of, more_of,
}
use rustlette.Headers.{
  RawHeaders, HeaderError, key_error, get_raw, contains_raw, set_raw, delete_raw, add_vary_header,
}

-- `"gzip" in headers.get("Accept-Encoding", "")`: is the `GZipResponder` taken
unfoldable pub accepts_gzip : RawHeaders → Bool
unfolding get_raw contains_text
accepts_gzip request = elim (get_raw (codes "accept-encoding") request) [
  | none ↦ false
  | some v ↦ contains_text (codes "gzip") v
]

-- The responder's fields. The initial message has its status and headers; it is missing until the
-- app has sent it.
pub record Responder (Z : Type 0) : Type 0 where
  pub initial : Option (ℕ × RawHeaders)
  pub started : Bool
  pub content_encoding_set : Bool
  pub content_type_is_excluded : Bool
  pub compressor : Z

unfoldable pub init : {Z : Type 0} → Z → Responder Z
init z = record {
  initial = none;
  started = false;
  content_encoding_set = false;
  content_type_is_excluded = false;
  compressor = z;
}

-- `headers.get("content-type", "").startswith(DEFAULT_EXCLUDED_CONTENT_TYPES)`
unfoldable pub is_excluded : RawHeaders → Bool
unfolding get_raw starts_with
is_excluded raw = elim (get_raw (codes "content-type") raw) [
  | none ↦ false
  | some v ↦ starts_with v (codes "text/event-stream")
]

module _ {Z : Type 0} (minimum_size : ℕ) (content_encoding : Text)
    (apply_compression : Z → Bytes → (more_body : Bool) → Bytes × Z) where
  -- the headers of a body that was compressed: its length is known if it is the whole body
  encoded_headers : (more : Bool) → Bytes → RawHeaders → RawHeaders
  unfolding set_raw delete_raw str
  encoded_headers false body raw =
      set_raw (codes "content-length") (str (length body))
        (set_raw (codes "content-encoding") content_encoding raw)
  encoded_headers true body raw =
      delete_raw (codes "content-length") (set_raw (codes "content-encoding") content_encoding raw)

  -- the initial message and the first body behind the compression; without the key "body" the code
  -- raises a `KeyError`
  compressed :
      (status : ℕ)
      → RawHeaders
      → Option Bytes
      → Option Bool
      → Bytes
      → Result HeaderError (List HttpMessage)
  unfolding encoded_headers text_eq
  compressed status raw none more body = err key_error
  compressed status raw (some old) more body =
      if text_eq body old
      then ok (response_start status raw ∷ response_body (some old) more ∷ [])
      else ok (
          response_start status (encoded_headers (more_of more) body raw)
          ∷ response_body (some body) more
          ∷ [])

  -- the first body, for an initial message that was not sent yet
  unfoldable pub first_body :
      (status : ℕ)
      → RawHeaders
      → Option Bytes
      → Option Bool
      → Exec (Responder Z) HeaderError (List HttpMessage)
  unfolding compressed add_vary_header
  first_body status raw b more r =
      let result = apply_compression r.compressor (body_of b) (more_of more) in
      let varied = add_vary_header (codes "Accept-Encoding") raw in
      if ltb (length (body_of b)) minimum_size && not (more_of more)
      then (ok (response_start status raw ∷ response_body b more ∷ []), record r { started = true })
      else (
        compressed status varied b more result.0,
        record r { started = true; initial = some (status, varied); compressor = result.1 },
      )

  -- a message behind the initial one, which is sent now; with none, that is a `KeyError` of the server
  send_initial : HttpMessage → Option (ℕ × RawHeaders) → Result HeaderError (List HttpMessage)
  send_initial m none = err key_error
  send_initial m (some (status, raw)) = ok (response_start status raw ∷ m ∷ [])

  start_body :
      Option (ℕ × RawHeaders)
      → Option Bytes
      → Option Bool
      → Exec (Responder Z) HeaderError (List HttpMessage)
  unfolding first_body
  start_body none b more r = (err key_error, record r { started = true })
  start_body (some (status, raw)) b more r = first_body status raw b more r

  later_body : Option Bytes → Option Bool → Exec (Responder Z) HeaderError (List HttpMessage)
  later_body b more r =
      let result = apply_compression r.compressor (body_of b) (more_of more) in
      (ok (response_body (some result.0) more ∷ []), record r { compressor = result.1 })

  send_body : Option Bytes → Option Bool → Exec (Responder Z) HeaderError (List HttpMessage)
  unfolding send_initial start_body later_body
  send_body b more r =
      if r.content_encoding_set || r.content_type_is_excluded
      then (
        if r.started
            then ok (response_body b more ∷ [])
            else send_initial (response_body b more) r.initial,
        record r { started = true },
      )
      else if not r.started
      then start_body r.initial b more r
      else later_body b more r

  -- `send_with_compression`: the messages that go on to the server
  unfoldable pub send_with_compression :
      HttpMessage → Exec (Responder Z) HeaderError (List HttpMessage)
  unfolding send_body send_initial is_excluded contains_raw
  send_with_compression (response_start status raw) r = (
    ok [],
    record r {
      initial = some (status, raw);
      content_encoding_set = contains_raw (codes "content-encoding") raw;
      content_type_is_excluded = is_excluded raw;
    },
  )
  send_with_compression (response_body b more) r = send_body b more r
  send_with_compression (response_pathsend path) r =
      (send_initial (response_pathsend path) r.initial, r)
  send_with_compression (other t) r = (ok [], r)
