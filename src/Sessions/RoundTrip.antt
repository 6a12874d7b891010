-- ===== src/Sessions/RoundTrip.antt =====
-- A session that a response stores is the one of a later request.
use rustlette.Prelude.{
  ℕ, ◌≡◌, refl, ap, sym, ◌∙◌, arith, Bool, true, false, not, Option, none, some, List, [], ◌∷◌,
  ◌++◌, append_assoc, Text, Bytes, codes, text_eq, text_eq_iff, text_eq_instance, all, ltb, All,
  All-append, split_once,
}
use rustlette.Prelude.Strings.Laws.{lacks, split_once-append}
use rustlette.Prelude.Exec.{ok}
use rustlette.Headers.{RawHeaders, append_raw, getlist_raw}
use rustlette.Headers.Encoding.{append, header_name, lower_char, encode-latin}
use rustlette.MultiDict.Dict
use rustlette.Asgi.{response_start}
use rustlette.Request.Cookies.{cookies, cookies_from}
use rustlette.Request.Cookies.RoundTrip.{
  IsCookie, pair, cookie_header, lacks-pair, plain-lacks, cookie_parser-cookie_header,
}
use rustlette.Sessions.{
  Middleware, utf8, header_value, max_age_text, with_cookie, send_wrapper, from_cookie, unsigned,
  loaded, load,
}

-- cookies of other names
abbrev pub others : Text → List (Text × Text) → Bool
others name = all (λ c. not (text_eq c.0 name))

set_new :
    (name value : Text) (d : List (Text × Text))
    → others name d ≡ true
    → Dict.set name value d ≡ d ++ (name, value) ∷ []
unfolding Dict.set
set_new name value [] h = refl
set_new name value ((k, v) ∷ d) h =
    let other : text_eq k name ≡ false = ground arith in
    rw (other) (ap (λ l. (k, v) ∷ l) (set_new name value d (ground arith)))

others-set :
    (name key value : Text) (d : List (Text × Text))
    → text_eq key name ≡ false
    → others name d ≡ true
    → others name (Dict.set key value d) ≡ true
unfolding Dict.set
others-set name key value [] q h = ground arith
others-set name key value ((k, v) ∷ d) q h = ground (arith, others-set name key value d)

others-update :
    (name : Text) (items d : List (Text × Text))
    → others name items ≡ true
    → others name d ≡ true
    → others name (Dict.update d items) ≡ true
unfolding Dict.update
others-update name [] d h g = g
others-update name ((k, v) ∷ items) d h g =
    others-update name items (Dict.set k v d) (ground arith)
      (others-set name k v d (ground arith) g)

update_last :
    (name value : Text) (items d : List (Text × Text))
    → Dict.update d (items ++ (name, value) ∷ []) ≡ Dict.set name value (Dict.update d items)
unfolding Dict.update
update_last name value [] d = refl
update_last name value ((k, v) ∷ items) d = update_last name value items (Dict.set k v d)

-- The cookie of a name that stands last is the one that is read.
get-update_twice :
    (name value : Text) (items : List (Text × Text))
    → others name items ≡ true
    → Dict.get name (Dict.update [] (Dict.update [] (items ++ (name, value) ∷ []))) ≡ some value
get-update_twice name value items h =
    let d = Dict.update [] items in
    let same : text_eq name name ≡ true = (text_eq_iff name name).1 refl in
    rw
      (
        update_last name value items [],
        set_new name value d (others-update name items [] h refl),
        update_last name value d [],
        Dict.get-set name name value (Dict.update [] d),
        same,
      )
      refl

-- the headers of a request with some cookies
abbrev pub request_with : List (Text × Text) → RawHeaders
request_with cs = (codes "cookie", cookie_header cs) ∷ []

get-cookies :
    (name value : Text) (items : List (Text × Text))
    → All IsCookie items
    → IsCookie (name, value)
    → others name items ≡ true
    → Dict.get name (cookies (request_with (items ++ (name, value) ∷ []))) ≡ some value
unfolding cookies cookies_from getlist_raw text_eq
get-cookies name value items h g q =
    rw
      (cookie_parser-cookie_header (items ++ (name, value) ∷ [])
        (All-append IsCookie items ((name, value) ∷ []) h (g, tt)))
      (get-update_twice name value items q)

-- the cookie that a client keeps of a Set-Cookie header
abbrev pub first_part : Option (Text × Text) → Option (Text × Text)
first_part none = none
first_part (some (cookie, attributes)) = split_once b'=' cookie

abbrev pub kept : Bytes → Option (Text × Text)
kept value = first_part (split_once b';' value)

lacks-cookie :
    (name value : Text)
    → IsCookie (name, value)
    → (lacks b';' (pair (name, value)) ≡ true) × (lacks b'=' name ≡ true)
lacks-cookie [] value h = elim h [ ]
lacks-cookie (c ∷ name) value (k, e, v) =
    (lacks-pair (c ∷ name) value (plain-lacks (c ∷ name) k) (plain-lacks value v), e)

kept-pair :
    (name value rest : Text)
    → IsCookie (name, value)
    → kept (pair (name, value) ++ b';' ∷ rest) ≡ some (name, value)
kept-pair name value rest h =
    let (semicolon, equals) = lacks-cookie name value h in
    rw (split_once-append b';' (pair (name, value)) rest semicolon)
      (split_once-append b'=' name value equals)

kept-header_value :
    (m : Middleware) (value expires : Text)
    → IsCookie (m.session_cookie, value)
    → kept (header_value m value expires) ≡ some (m.session_cookie, value)
unfolding header_value
kept-header_value m value expires h =
    let rest = codes " path=" ++ (m.path ++ (codes "; " ++ (expires ++ m.security_flags))) in
    ap kept (sym (append_assoc m.session_cookie (b'=' ∷ value) (b';' ∷ rest)))
    ∙ kept-pair m.session_cookie value rest h

module _ {J : Type 0} (sign : Bytes → Text) (unsign : Bytes → Option Bytes)
    (dumps : List (Text × J) → Bytes) (loads : Bytes → Option (List (Text × J))) where
  -- Where the signer takes back what it has signed and `loads` reads what `dumps` wrote, the name of the
  -- cookie is not empty and has no "=", the name and what is signed have no space, ";" or quotation mark,
  -- and the header is in Latin-1: the header with which a response stores a session that is not empty
  -- gives a client a cookie, and a request that sends this cookie behind cookies of other names, which are
  -- made of such characters too, is served with that session.
  pub load-send_wrapper :
      (m : Middleware) (x : Text × J) (session : List (Text × J)) (was_empty : Bool) (status : ℕ)
      (raw : RawHeaders) (items : List (Text × Text))
      → unsign (utf8 (sign (dumps (x ∷ session)))) ≡ some (dumps (x ∷ session))
      → loads (dumps (x ∷ session)) ≡ some (x ∷ session)
      → IsCookie (m.session_cookie, sign (dumps (x ∷ session)))
      → all (λ c. ltb c 256) (header_value m (sign (dumps (x ∷ session))) (max_age_text m.max_age))
        ≡ true
      → All IsCookie items
      → others m.session_cookie items ≡ true
      → (value : Bytes) × (c : Text × Text) × (send_wrapper sign unsign dumps loads m
            (x ∷ session)
            was_empty
            (response_start status raw)
          ≡ ok (response_start status (raw ++ (codes "set-cookie", value) ∷ [])))
        × (kept value ≡ some c)
        × (load sign unsign dumps loads m (request_with (items ++ c ∷ []))
            ≡ ok (x ∷ session, false))
  unfolding send_wrapper with_cookie append header_name lower_char append_raw load from_cookie
      unsigned loaded
  load-send_wrapper m x session was_empty status raw items u l h latin g q =
      let value = sign (dumps (x ∷ session)) in
      (
        header_value m value (max_age_text m.max_age),
        (m.session_cookie, value),
        rw (encode-latin (header_value m value (max_age_text m.max_age)) latin) refl,
        kept-header_value m value (max_age_text m.max_age) h,
        rw (get-cookies m.session_cookie value items g h q, u, l) refl,
      )
