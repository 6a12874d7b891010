-- ===== src/Cors.antt =====
-- rustlette/middleware/cors.py: `CORSMiddleware`. A request's headers are their raw pairs; the names
-- of headers in lists are ASCII text for `lower`. The compiled `allow_origin_regex` is a test.
pub mod Simple
pub mod Preflight
mod Tests
use mathlib.Core.List.{map}
use rustlette.Prelude.{
  ℕ, Bool, true, false, not, ◌&&◌, ◌||◌, Option, none, some, List, [], ◌∷◌, ◌++◌, Text, Bytes,
  codes, text_eq, text_eq_instance, text_in, leb, ltb, ◌==◌, ◌+◌, if◌then◌else◌, split, strip, join,
}
use rustlette.Prelude.Decimal.{str}
use rustlette.Prelude.Exec.{Result, ok, err}
use rustlette.MultiDict.Dict
use rustlette.Asgi.{HttpMessage, response_start}
use rustlette.Headers.{RawHeaders, HeaderError, key_error, get_raw, contains_raw, add_vary_header}
use rustlette.Headers.Encoding.{then_ok, set_item}
use rustlette.Response.{Response, plain_text_response}

-- the arguments of `CORSMiddleware`
pub record Settings : Type 0 where
  pub allow_origins : List Text
  pub allow_methods : List Text
  pub allow_headers : List Text
  pub allow_credentials : Bool
  pub allow_origin_regex : Option (Text → Bool)
  pub expose_headers : List Text
  pub max_age : ℕ

pub record Cors : Type 0 where
  pub allow_origins : List Text
  pub allow_methods : List Text
  pub allow_headers : List Text
  pub allow_all_origins : Bool
  pub allow_all_headers : Bool
  pub preflight_explicit_allow_origin : Bool
  pub allow_origin_regex : Option (Text → Bool)
  pub simple_headers : List (Text × Text)
  pub preflight_headers : List (Text × Text)

abbrev all_methods : List Text
all_methods =
    codes "DELETE"
    ∷ codes "GET"
    ∷ codes "HEAD"
    ∷ codes "OPTIONS"
    ∷ codes "PATCH"
    ∷ codes "POST"
    ∷ codes "PUT"
    ∷ []

abbrev safelisted_headers : List Text
safelisted_headers =
    codes "Accept" ∷ codes "Accept-Language" ∷ codes "Content-Language" ∷ codes "Content-Type" ∷ []

-- the order of texts by their characters
before : Text → Text → Bool
before s [] = false
before [] (d ∷ t) = true
before (c ∷ s) (d ∷ t) = let rest = before s t in ltb c d || (c == d && rest)

insert : Text → List Text → List Text
unfolding before
insert s [] = s ∷ []
insert s (t ∷ ts) =
    let rest = insert s ts in
    if text_eq s t then t ∷ ts else if before s t then s ∷ t ∷ ts else t ∷ rest

-- `sorted(set(texts))`
sorted_set : List Text → List Text
unfolding insert
sorted_set [] = []
sorted_set (s ∷ ts) = insert s (sorted_set ts)

pub lower : Text → Text
lower s = map (λ c. if leb b'A' c && leb c b'Z' then c + 32 else c) s

-- is a list not empty
some_of {ℓ} : {A : Type ℓ} → List A → Bool
some_of [] = false
some_of (x ∷ xs) = true

-- one optional entry of a dict
entry : Bool → Text → Text → List (Text × Text)
entry false key value = []
entry true key value = (key, value) ∷ []

-- `simple_headers`: its keys are set once each, in this order
simple_headers_of : Settings → List (Text × Text)
unfolding entry some_of
simple_headers_of c =
    entry (text_in (codes "*") c.allow_origins) (codes "Access-Control-Allow-Origin") (codes "*")
    ++ (entry c.allow_credentials (codes "Access-Control-Allow-Credentials") (codes "true")
        ++ entry (some_of c.expose_headers) (codes "Access-Control-Expose-Headers")
            (join (codes ", ") c.expose_headers))

-- `preflight_headers`, with the methods and the sorted headers; its keys are set once each as well
preflight_headers_of : Settings → List Text → List Text → List (Text × Text)
unfolding entry some_of str
preflight_headers_of c methods headers =
    (if not (text_in (codes "*") c.allow_origins) || c.allow_credentials
      then (codes "Vary", codes "Origin")
      else (codes "Access-Control-Allow-Origin", codes "*"))
    ∷ (codes "Access-Control-Allow-Methods", join (codes ", ") methods)
    ∷ (codes "Access-Control-Max-Age", str c.max_age)
    ∷ (entry (some_of headers && not (text_in (codes "*") c.allow_headers))
          (codes "Access-Control-Allow-Headers") (join (codes ", ") headers)
        ++ entry c.allow_credentials (codes "Access-Control-Allow-Credentials") (codes "true"))

methods_of : Settings → List Text
methods_of c = if text_in (codes "*") c.allow_methods then all_methods else c.allow_methods

-- `CORSMiddleware.__init__`
unfoldable pub init : Settings → Cors
unfolding simple_headers_of preflight_headers_of sorted_set methods_of lower
init c =
    let headers = sorted_set (safelisted_headers ++ c.allow_headers) in
    record {
      allow_origins = c.allow_origins;
      allow_methods = methods_of c;
      allow_headers = map lower headers;
      allow_all_origins = text_in (codes "*") c.allow_origins;
      allow_all_headers = text_in (codes "*") c.allow_headers;
      preflight_explicit_allow_origin =
          not (text_in (codes "*") c.allow_origins) || c.allow_credentials;
      allow_origin_regex = c.allow_origin_regex;
      simple_headers = simple_headers_of c;
      preflight_headers = preflight_headers_of c (methods_of c) headers;
    }

unfoldable pub is_allowed_origin : Cors → Text → Bool
is_allowed_origin c origin =
    c.allow_all_origins
    || elim c.allow_origin_regex [ none ↦ false | some full_match ↦ full_match origin ]
    || text_in origin c.allow_origins

failure : Bool → Text → List Text
failure false text = []
failure true text = text ∷ []

-- some header of `requested_headers.split(",")` is not among the allowed ones
has_disallowed : Cors → List Text → Bool
unfolding lower strip
has_disallowed c [] = false
has_disallowed c (header ∷ more) =
    let rest = has_disallowed c more in
    if text_in (strip (lower header)) c.allow_headers then rest else true

-- `elif requested_headers is not None`
headers_fail : Cors → Option Text → Bool
unfolding has_disallowed split
headers_fail c none = false
headers_fail c (some requested) =
    if c.allow_all_headers then false else has_disallowed c (split b',' requested)

-- `failures`, from the origin, the method and the headers that the request asks for
unfoldable pub failures : Cors → Text → Text → Option Text → List Text
unfolding failure headers_fail is_allowed_origin
failures c origin method headers =
    failure (not (is_allowed_origin c origin)) (codes "origin")
    ++ (failure (not (text_in method c.allow_methods)) (codes "method")
        ++ failure (headers_fail c headers) (codes "headers"))

with_origin : Cors → Text → List (Text × Text) → List (Text × Text)
unfolding is_allowed_origin Dict.set
with_origin c origin headers =
    if is_allowed_origin c origin && c.preflight_explicit_allow_origin
    then Dict.set (codes "Access-Control-Allow-Origin") origin headers
    else headers

with_headers : Cors → Option Text → List (Text × Text) → List (Text × Text)
unfolding Dict.set
with_headers c none headers = headers
with_headers c (some requested) headers =
    if c.allow_all_headers
    then Dict.set (codes "Access-Control-Allow-Headers") requested headers
    else headers

-- the headers of the answer to a preflight request
unfoldable pub answer_headers : Cors → Text → Option Text → List (Text × Text)
unfolding with_origin with_headers
answer_headers c origin requested =
    with_headers c requested (with_origin c origin c.preflight_headers)

answer_text : List Text → Bytes
answer_text [] = codes "OK"
answer_text (f ∷ fs) = codes "Disallowed CORS " ++ join (codes ", ") (f ∷ fs)

unfoldable pub answer_status : List Text → ℕ
answer_status [] = 200
answer_status (f ∷ fs) = 400

-- `preflight_response` for the three headers of the request
unfoldable pub preflight : Cors → Text → Text → Option Text → Result HeaderError Response
unfolding failures answer_headers answer_text answer_status plain_text_response
preflight c origin method headers =
    let fs = failures c origin method headers in
    plain_text_response (answer_text fs) (answer_status fs) (answer_headers c origin headers)

-- `preflight_response(request_headers)`
unfoldable pub preflight_response : Cors → RawHeaders → Result HeaderError Response
unfolding preflight get_raw
preflight_response c request = elim (get_raw (codes "origin") request) [
  | none ↦ err key_error
  | some origin ↦ elim (get_raw (codes "access-control-request-method") request) [
    | none ↦ err key_error
    | some method ↦
        preflight c origin method (get_raw (codes "access-control-request-headers") request)
  ]
]

-- `headers.update(mapping)`
update_headers : List (Text × Text) → RawHeaders → Result HeaderError RawHeaders
unfolding set_item
update_headers [] raw = ok raw
update_headers ((key, value) ∷ items) raw = then_ok (set_item key value raw) (update_headers items)

unfoldable pub allow_explicit_origin : Text → RawHeaders → Result HeaderError RawHeaders
unfolding set_item add_vary_header
allow_explicit_origin origin raw =
    then_ok (set_item (codes "Access-Control-Allow-Origin") origin raw)
      (λ raw'. ok (add_vary_header (codes "Origin") raw'))

-- does the answer name the request's origin
names_origin : Cors → Text → (has_cookie : Bool) → Bool
unfolding is_allowed_origin
names_origin c origin has_cookie =
    if c.allow_all_origins then has_cookie else is_allowed_origin c origin

-- `send` on the headers of a "http.response.start"; the request has an origin here
unfoldable pub start_headers :
    Cors → Text → (has_cookie : Bool) → RawHeaders → Result HeaderError RawHeaders
unfolding update_headers names_origin allow_explicit_origin
start_headers c origin has_cookie raw = then_ok (update_headers c.simple_headers raw) (λ raw'.
    if names_origin c origin has_cookie then allow_explicit_origin origin raw' else ok raw')

-- `send(message)`: the message that goes on to the server
unfoldable pub send :
    Cors → Text → (has_cookie : Bool) → HttpMessage → Result HeaderError HttpMessage
unfolding start_headers
send c origin has_cookie (response_start status raw) =
    then_ok (start_headers c origin has_cookie raw) (λ raw'. ok (response_start status raw'))
send c origin has_cookie m = ok m

-- What `__call__` does with a connection: it hands it to the app as it is, it answers a preflight
-- request, or it hands it to the app with `send` in place of the server's.
pub data Handling : Type 0 where
  passed_on : Handling
  answered : Result HeaderError Response → Handling
  wrapped : (origin : Text) → (has_cookie : Bool) → Handling

unfoldable pub handling : Cors → (is_http : Bool) → (method : Text) → RawHeaders → Handling
unfolding preflight_response get_raw contains_raw
handling c false method request = passed_on
handling c true method request = elim (get_raw (codes "origin") request) [
  | none ↦ passed_on
  | some origin ↦
      if text_eq method (codes "OPTIONS")
        && contains_raw (codes "access-control-request-method") request
      then answered (preflight_response c request)
      else wrapped origin (contains_raw (codes "cookie") request)
]
