-- ===== src/Cors/Preflight.antt =====
-- The answer to a preflight request.
use rustlette.Prelude.{
  ℕ, ◌≡◌, refl, ◌∙◌, Bool, true, false, not, ◌&&◌, ◌||◌, Option, none, some, List, [], ◌∷◌, ◌++◌,
  Text, Bytes, codes, text_eq, text_eq_instance, text_in, if◌then◌else◌, arith, Bool-cases, inl,
  inr, split, strip, all, join,
}
use rustlette.Prelude.Exec.{ok}
use rustlette.MultiDict.Dict
use rustlette.MultiDict.Dict.{get-set}
use rustlette.Headers.Encoding.{then_ok-eq-ok}
use rustlette.Response.{Response, plain_text_response, make_response, init_headers}
use rustlette.Cors.{
  Settings, Cors, init, failures, failure, headers_fail, has_disallowed, answer_headers,
  answer_status, answer_text, preflight, is_allowed_origin, with_origin, with_headers,
  preflight_headers_of, entry, lower, some_of, methods_of, sorted_set, safelisted_headers,
}

-- Are all headers that a request asks for allowed: each one without the spaces around it and in lower
-- case, or any if the server allows every header.
abbrev pub are_allowed : Cors → Option Text → Bool
are_allowed c none = true
are_allowed c (some requested) =
    c.allow_all_headers
    || all (λ header. text_in (strip (lower header)) c.allow_headers) (split b',' requested)

has_disallowed-all :
    (c : Cors) (headers : List Text)
    → has_disallowed c headers
      ≡ not (all (λ header. text_in (strip (lower header)) c.allow_headers) headers)
unfolding has_disallowed
has_disallowed-all c [] = refl
has_disallowed-all c (h ∷ hs) = ground (arith, has_disallowed-all c hs)

headers_fail-are_allowed :
    (c : Cors) (requested : Option Text) → headers_fail c requested ≡ not (are_allowed c requested)
unfolding headers_fail
headers_fail-are_allowed c none = refl
headers_fail-are_allowed c (some r) = ground (arith, has_disallowed-all c (split b',' r))

status_of_failures :
    (a b d : Bool) (s t u : Text)
    → answer_status (failure (not a) s ++ (failure (not b) t ++ failure (not d) u))
      ≡ (if a && b && d then 200 else 400)
unfolding answer_status failure
status_of_failures a b d s t u = ground arith

status_code-plain :
    (body : Bytes) (status : ℕ) (headers : List (Text × Text)) (r : Response)
    → plain_text_response body status headers ≡ ok r
    → r.status_code ≡ status
unfolding plain_text_response make_response
status_code-plain body status headers r h =
    let (raw, built, h') =
      then_ok-eq-ok (init_headers status (some body) (some (codes "text/plain")) headers) _ h in
    ground arith

answer_status-failures :
    (c : Cors) (origin method : Text) (headers : Option Text)
    → answer_status (failures c origin method headers) ≡ (
        if is_allowed_origin c origin && text_in method c.allow_methods && are_allowed c headers
        then 200
        else 400)
unfolding failures
answer_status-failures c origin method headers = rw (headers_fail-are_allowed c headers) (
    status_of_failures (is_allowed_origin c origin) (text_in method c.allow_methods)
      (are_allowed c headers) (codes "origin") (codes "method") (codes "headers"))

-- A preflight request is answered 200 if its origin, its method and all the headers that it asks for
-- are allowed, and 400 if one of these is not.
pub status_code-preflight :
    (c : Cors) (origin method : Text) (headers : Option Text) (r : Response)
    → preflight c origin method headers ≡ ok r
    → r.status_code ≡ (
        if is_allowed_origin c origin && text_in method c.allow_methods && are_allowed c headers
        then 200
        else 400)
unfolding preflight
status_code-preflight c origin method headers r h =
    let fs = failures c origin method headers in
    status_code-plain (answer_text fs) (answer_status fs) (answer_headers c origin headers) r h
    ∙ answer_status-failures c origin method headers

abbrev allow_origin : Text
allow_origin = codes "Access-Control-Allow-Origin"

get-with_headers :
    (c : Cors) (requested : Option Text) (d : List (Text × Text))
    → Dict.get allow_origin (with_headers c requested d) ≡ Dict.get allow_origin d
unfolding with_headers text_eq
get-with_headers c none d = refl
get-with_headers c (some r) d =
    ground (arith, get-set (codes "Access-Control-Allow-Headers") allow_origin r d)

get-with_origin :
    (c : Cors) (origin : Text) (d : List (Text × Text))
    → Dict.get allow_origin (with_origin c origin d) ≡ (
        if is_allowed_origin c origin && c.preflight_explicit_allow_origin
        then some origin
        else Dict.get allow_origin d)
unfolding with_origin text_eq
get-with_origin c origin d = ground (arith, get-set allow_origin allow_origin origin d)

get-entry :
    (b : Bool) (key value : Text) (d : List (Text × Text))
    → text_eq key allow_origin ≡ false
    → Dict.get allow_origin (entry b key value ++ d) ≡ Dict.get allow_origin d
unfolding entry Dict.get
get-entry false key value d h = refl
get-entry true key value d h = ground arith

get-last_entry :
    (b : Bool) (key value : Text)
    → text_eq key allow_origin ≡ false
    → Dict.get allow_origin (entry b key value) ≡ none
unfolding entry Dict.get
get-last_entry false key value h = refl
get-last_entry true key value h = ground arith

get-preflight_headers_of :
    (c : Settings) (methods headers : List Text)
    → Dict.get allow_origin (preflight_headers_of c methods headers) ≡ (
        if not (text_in (codes "*") c.allow_origins) || c.allow_credentials
        then none
        else some (codes "*"))
unfolding preflight_headers_of Dict.get text_eq
get-preflight_headers_of c methods headers =
    elim (Bool-cases (not (text_in (codes "*") c.allow_origins) || c.allow_credentials)) [
      | inl named ↦ rw named (
          get-entry (some_of headers && not (text_in (codes "*") c.allow_headers))
            (codes "Access-Control-Allow-Headers") (join (codes ", ") headers)
            (entry c.allow_credentials (codes "Access-Control-Allow-Credentials") (codes "true"))
            refl
          ∙ get-last_entry c.allow_credentials (codes "Access-Control-Allow-Credentials")
              (codes "true") refl)
      | inr other ↦ rw other refl
    ]

get-init :
    (c : Settings)
    → Dict.get allow_origin (init c).preflight_headers ≡ (
        if not (text_in (codes "*") c.allow_origins) || c.allow_credentials
        then none
        else some (codes "*"))
unfolding init
get-init c =
    get-preflight_headers_of c (methods_of c) (sorted_set (safelisted_headers ++ c.allow_headers))

choose :
    (allowed explicit : Bool) (origin every : Text)
    → (if allowed && explicit then some origin else if explicit then none else some every)
      ≡ (if explicit then (if allowed then some origin else none) else some every)
choose allowed explicit origin every = ground arith

-- The answer to a preflight request names an origin only if it is allowed: in the headers of the
-- answer, the origin that may read it is the request's if the server names origins and allows this
-- one, "*" if it names none, and missing otherwise.
pub get-answer_headers :
    (c : Settings) (origin : Text) (requested : Option Text)
    → Dict.get (codes "Access-Control-Allow-Origin") (answer_headers (init c) origin requested) ≡ (
        if not (text_in (codes "*") c.allow_origins) || c.allow_credentials
        then (if is_allowed_origin (init c) origin then some origin else none)
        else some (codes "*"))
unfolding answer_headers init
get-answer_headers c origin requested =
    let headers = (init c).preflight_headers in
    get-with_headers (init c) requested (with_origin (init c) origin headers)
    ∙ get-with_origin (init c) origin headers
    ∙ rw (get-init c) (
        choose (is_allowed_origin (init c) origin)
          (not (text_in (codes "*") c.allow_origins) || c.allow_credentials) origin (codes "*"))
