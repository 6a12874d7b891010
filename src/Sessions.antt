-- ===== src/Sessions.antt =====
-- rustlette/middleware/sessions.py. The signer of itsdangerous is a parameter, for the secret, the age
-- and the moment of a call: `sign` with the decoding of its result, and `unsign` with none for a bad
-- signature. `dumps` is `b64encode(json.dumps(...).encode())`, and `loads` is `json.loads(b64decode(...))`,
-- with none where it raises.
pub mod RoundTrip
mod Tests
use rustlette.Prelude.{
  ℕ, zero, suc, ◌+◌, ◌/◌, ◌%◌, Bool, true, false, Option, none, some, List, [], ◌∷◌, ◌++◌, Text,
  Bytes, codes, text_eq_instance, ltb, if◌then◌else◌,
}
use rustlette.Prelude.Decimal.{str}
use rustlette.Prelude.Exec.{Result, ok, err}
use rustlette.Headers.{RawHeaders, HeaderError}
use rustlette.Headers.Encoding.{append, then_ok}
use rustlette.MultiDict.Dict
use rustlette.Asgi.{HttpMessage, response_start, response_body, response_pathsend, other}
use rustlette.Request.Cookies.{cookies}

-- `SessionMiddleware`, without its app and the signer
pub record Middleware : Type 0 where
  pub session_cookie : Text
  pub max_age : Option ℕ
  pub path : Text
  pub security_flags : Text

secure : Bool → Text
secure false = []
secure true = codes "; secure"

domain_flag : Option Text → Text
domain_flag none = []
domain_flag (some domain) = codes "; domain=" ++ domain

-- `SessionMiddleware.__init__`
unfoldable pub init :
    Text → Option ℕ → Text → (same_site : Text) → (https_only : Bool) → Option Text → Middleware
unfolding secure domain_flag
init session_cookie max_age path same_site https_only domain = record {
  session_cookie = session_cookie;
  max_age = max_age;
  path = path;
  security_flags =
      codes "httponly; samesite=" ++ same_site ++ secure https_only ++ domain_flag domain;
}

-- `encode("utf-8")`
utf8_char : ℕ → Bytes
utf8_char c =
    if ltb c 128
    then c ∷ []
    else if ltb c 2048
    then (192 + c / 64) ∷ (128 + c % 64) ∷ []
    else if ltb c 65536
    then (224 + c / 4096) ∷ (128 + c / 64 % 64) ∷ (128 + c % 64) ∷ []
    else (240 + c / 262144) ∷ (128 + c / 4096 % 64) ∷ (128 + c / 64 % 64) ∷ (128 + c % 64) ∷ []

unfoldable pub utf8 : Text → Bytes
unfolding utf8_char
utf8 [] = []
utf8 (c ∷ s) = utf8_char c ++ utf8 s

-- What `json.loads` and `b64decode` raise.
pub data Error : Type 0 where
  not_json : Error

-- `f"Max-Age={self.max_age}; " if self.max_age else ""`
unfoldable pub max_age_text : Option ℕ → Text
unfolding str
max_age_text none = []
max_age_text (some zero) = []
max_age_text (some (suc n)) = codes "Max-Age=" ++ str (suc n) ++ codes "; "

unfoldable pub header_value : Middleware → (value expires : Text) → Text
header_value m value expires =
    m.session_cookie
    ++ b'='
      ∷ (value ++ (codes "; path=" ++ (m.path ++ (codes "; " ++ (expires ++ m.security_flags)))))

module _ {J : Type 0} (sign : Bytes → Text) (unsign : Bytes → Option Bytes)
    (dumps : List (Text × J) → Bytes) (loads : Bytes → Option (List (Text × J))) where
  -- The session and `initial_session_was_empty`, of what `unsign` and `loads` give.
  loaded : Option (List (Text × J)) → Result Error (List (Text × J) × Bool)
  loaded none = err not_json
  loaded (some session) = ok (session, false)

  unsigned : Option Bytes → Result Error (List (Text × J) × Bool)
  unfolding loaded
  unsigned none = ok ([], true)
  unsigned (some bytes) = loaded (loads bytes)

  from_cookie : Option Text → Result Error (List (Text × J) × Bool)
  unfolding unsigned utf8
  from_cookie none = ok ([], true)
  from_cookie (some value) = unsigned (unsign (utf8 value))

  -- what `__call__` does before the app
  unfoldable pub load : Middleware → RawHeaders → Result Error (List (Text × J) × Bool)
  unfolding from_cookie Dict.get cookies
  load m raw = from_cookie (Dict.get m.session_cookie (cookies raw))

  -- the headers of a response, from the session as it is now; the append encodes to Latin-1
  with_cookie :
      Middleware
      → (session : List (Text × J)) → (was_empty : Bool) → RawHeaders
      → Result HeaderError RawHeaders
  unfolding header_value append max_age_text
  with_cookie m (x ∷ session) was_empty raw =
      append (codes "Set-Cookie")
        (header_value m (sign (dumps (x ∷ session))) (max_age_text m.max_age)) raw
  with_cookie m [] false raw =
      append (codes "Set-Cookie")
        (header_value m (codes "null") (codes "expires=Thu, 01 Jan 1970 00:00:00 GMT; ")) raw
  with_cookie m [] true raw = ok raw

  -- what is sent for a message, or what the wrapper raises
  unfoldable pub send_wrapper :
      Middleware → List (Text × J) → Bool → HttpMessage → Result HeaderError HttpMessage
  unfolding with_cookie
  send_wrapper m session was_empty (response_start status raw) =
      then_ok (with_cookie m session was_empty raw) (λ raw'. ok (response_start status raw'))
  send_wrapper m session was_empty (response_body body more) = ok (response_body body more)
  send_wrapper m session was_empty (response_pathsend path) = ok (response_pathsend path)
  send_wrapper m session was_empty (other t) = ok (other t)

  -- What an app does: it changes its session, or sends a message.
  pub data Act : Type 0 where
    changes : List (Text × J) → Act
    sends : HttpMessage → Act

  -- What is sent, and the exception of a send, which the app lets go.
  serve : Middleware → Bool → List (Text × J) → List Act → List HttpMessage × Option HeaderError
  unfolding send_wrapper
  serve m was_empty session [] = ([], none)
  serve m was_empty session (changes session' ∷ acts) = serve m was_empty session' acts
  serve m was_empty session (sends message ∷ acts) =
      let rest = serve m was_empty session acts in
      elim (send_wrapper m session was_empty message) [
        | err e ↦ ([], some e)
        | ok sent ↦ (sent ∷ rest.0, rest.1)
      ]

  served :
      Middleware
      → (List (Text × J) → List Act)
      → Result Error (List (Text × J) × Bool)
      → Result Error (List HttpMessage × Option HeaderError)
  unfolding serve
  served m app (ok (session, was_empty)) = ok (serve m was_empty session (app session))
  served m app (err e) = err e

  -- `__call__`, with the app as a function of the session that it finds
  unfoldable pub call :
      Middleware
      → (List (Text × J) → List Act)
      → RawHeaders
      → Result Error (List HttpMessage × Option HeaderError)
  unfolding served load
  call m app raw = served m app (load m raw)
