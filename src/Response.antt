-- ===== src/Response.antt =====
-- rustlette/responses.py: `Response.init_headers`, `Response.__call__` and the responses with text.
-- A body is bytes: the rendering of text, `content.encode("utf-8")`, is the identity on ASCII.
pub mod Laws
pub mod Streaming
pub mod Cookies
mod Tests
use mathlib.Core.List.{map}
use rustlette.Prelude.{
  lower_ascii, ℕ, ◌+◌, Bool, true, false, not, ◌&&◌, ◌||◌, Option, none, some, List, [], ◌∷◌, ◌++◌,
  Text, Bytes, codes, leb, ltb, ◌==◌, if◌then◌else◌, starts_with, contains_text, length,
}
use rustlette.Prelude.Decimal.{str}
use rustlette.Prelude.Exec.{Result, ok, err}
use rustlette.Headers.{RawHeaders, HeaderError, contains_raw, set_raw}
use rustlette.Headers.Encoding.{encode, from_items, then_ok}
use rustlette.Asgi.{HttpMessage, response_start, response_body}

pub record Response : Type 0 where
  pub status_code : ℕ
  pub body : Bytes
  pub raw_headers : RawHeaders

-- no body goes with these: `self.status_code < 200 or self.status_code in (204, 304)`
unfoldable pub has_no_body : ℕ → Bool
has_no_body status = ltb status 200 || status == 204 || status == 304

unfoldable pub add_content_length : ℕ → Option Bytes → RawHeaders → RawHeaders
unfolding has_no_body contains_raw str
add_content_length status none raw = raw
add_content_length status (some body) raw =
    if not (contains_raw (codes "content-length") raw) && not (has_no_body status)
    then raw ++ (codes "content-length", str (length body)) ∷ []
    else raw

-- `content_type` with its charset
with_charset : Text → Text
unfolding lower_ascii starts_with contains_text
with_charset content_type =
    if starts_with content_type (codes "text/")
      && not (contains_text (codes "charset=") (map lower_ascii content_type))
    then content_type ++ codes "; charset=utf-8"
    else content_type

-- the content type is added unless the caller's headers, `given`, have one
unfoldable pub add_content_type :
    Option Text → (given : RawHeaders) → RawHeaders → Result HeaderError RawHeaders
unfolding with_charset encode contains_raw
add_content_type none given raw = ok raw
add_content_type (some content_type) given raw =
    if contains_raw (codes "content-type") given
    then ok raw
    else then_ok (encode (with_charset content_type))
        (λ value. ok (raw ++ (codes "content-type", value) ∷ []))

-- `init_headers(headers)`, for the caller's headers in their encoded form
unfoldable pub init_raw :
    ℕ → Option Bytes → Option Text → RawHeaders → Result HeaderError RawHeaders
unfolding add_content_length add_content_type
init_raw status body media_type given =
    add_content_type media_type given (add_content_length status body given)

unfoldable pub init_headers :
    ℕ → Option Bytes → Option Text → List (Text × Text) → Result HeaderError RawHeaders
unfolding init_raw from_items
init_headers status body media_type headers =
    then_ok (from_items headers) (init_raw status body media_type)

-- `Response.__init__`
unfoldable pub make_response :
    Bytes → ℕ → List (Text × Text) → Option Text → Result HeaderError Response
unfolding init_headers
make_response body status headers media_type =
    then_ok (init_headers status (some body) media_type headers)
      (λ raw. ok (record { status_code = status; body = body; raw_headers = raw }))

unfoldable pub plain_text_response : Bytes → ℕ → List (Text × Text) → Result HeaderError Response
unfolding make_response
plain_text_response body status headers =
    make_response body status headers (some (codes "text/plain"))

-- `RedirectResponse`; `location` is the quoted address
unfoldable pub redirect_response : Text → ℕ → Result HeaderError Response
unfolding make_response set_raw
redirect_response location status = then_ok (make_response [] status [] none) (λ r.
    then_ok (encode location)
      (λ value. ok (record r { raw_headers = set_raw (codes "location") value r.raw_headers })))

-- `Response.__call__` on an HTTP connection
unfoldable pub respond : Response → List HttpMessage
respond r = response_start r.status_code r.raw_headers ∷ response_body (some r.body) none ∷ []
