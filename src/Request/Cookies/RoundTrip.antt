-- ===== src/Request/Cookies/RoundTrip.antt =====
-- Cookies that a client sends are read back.
use rustlette.Prelude.{
  is_nil, ℕ, ◌≡◌, refl, ap, sym, ◌∙◌, Bool, true, false, not, ◌&&◌, List, [], ◌∷◌, ◌++◌, Text,
  text_eq_instance, ◌==◌, all, is_space, strip, split, split_once, arith, append_assoc, All,
}
use rustlette.Prelude.Strings.Laws.{
  lacks, split-append, split_last, split_once-append, has_no_space, strip_none, strip_leading,
}
use rustlette.MultiDict.Dict
use rustlette.Request.Cookies.{unquote, halves, add_cookie, parse_chunks, cookie_parser}

-- a character of a cookie's value that stands for itself
abbrev pub is_plain : ℕ → Bool
is_plain c = not (c == b';') && not (c == b'"') && not (is_space c)

-- A cookie with a name that is not empty and has no "=", made of such characters.
abbrev pub IsCookie : Text × Text → Type 0
IsCookie ([], val) = ⊥
IsCookie (c ∷ key, val) =
    (all is_plain (c ∷ key) ≡ true) × (lacks b'=' (c ∷ key) ≡ true) × (all is_plain val ≡ true)

-- A cookie with such a name and a value in the form in which it is sent.
abbrev pub IsCoded : Text × Text → Type 0
IsCoded ([], raw) = ⊥
IsCoded (c ∷ key, raw) =
    (all is_plain (c ∷ key) ≡ true)
    × (lacks b'=' (c ∷ key) ≡ true)
    × (lacks b';' raw ≡ true)
    × (strip raw ≡ raw)

-- the cookies with their values as they are read
unfoldable pub decoded : List (Text × Text) → List (Text × Text)
unfolding unquote
decoded [] = []
decoded ((key, raw) ∷ cs) = (key, unquote raw) ∷ decoded cs

-- `key=val`
abbrev pub pair : Text × Text → Text
pair (key, val) = key ++ b'=' ∷ val

-- the header as a client sends it
abbrev pub cookie_header : List (Text × Text) → Text
cookie_header [] = []
cookie_header (c ∷ []) = pair c
cookie_header (c ∷ d ∷ cs) = pair c ++ b';' ∷ b' ' ∷ cookie_header (d ∷ cs)

pub plain-lacks : (s : Text) → all is_plain s ≡ true → lacks b';' s ≡ true
plain-lacks [] h = refl
plain-lacks (c ∷ s) h = ground (arith, plain-lacks s)

plain-has_no_space : (s : Text) → all is_plain s ≡ true → has_no_space s ≡ true
plain-has_no_space [] h = refl
plain-has_no_space (c ∷ s) h = ground (arith, plain-has_no_space s)

unquote_plain : (s : Text) → all is_plain s ≡ true → unquote s ≡ s
unfolding unquote
unquote_plain [] h = refl
unquote_plain (c ∷ s) h = ground arith

-- the space before each cookie but the first
lead : Bool → Text
lead true = b' ' ∷ []
lead false = []

strip-lead : (b : Bool) (s : Text) → has_no_space s ≡ true → strip (lead b ++ s) ≡ s
unfolding lead
strip-lead true s h = strip_leading s ∙ strip_none s h
strip-lead false s h = strip_none s h

lacks-lead :
    (c : ℕ) (b : Bool) (s : Text)
    → (b' ' == c) ≡ false
    → lacks c s ≡ true
    → lacks c (lead b ++ s) ≡ true
unfolding lead
lacks-lead c true s q h = ground arith
lacks-lead c false s q h = h

halves-pair :
    (b : Bool) (key val : Text)
    → lacks b'=' key ≡ true
    → halves (lead b ++ pair (key, val)) ≡ (lead b ++ key, val)
unfolding halves
halves-pair b key val h =
    rw
      (
        halves,
        sym (append_assoc (lead b) key (b'=' ∷ val)),
        split_once-append b'=' (lead b ++ key) val (lacks-lead b'=' b key refl h),
      )
      refl

pub lacks-pair :
    (key val : Text)
    → lacks b';' key ≡ true
    → lacks b';' val ≡ true
    → lacks b';' (pair (key, val)) ≡ true
lacks-pair [] val h g = ground arith
lacks-pair (c ∷ key) val h g = ground (arith, lacks-pair key val)

parse_cookie :
    (b : Bool) (c : Text × Text) (chunks : List Text) (acc : List (Text × Text))
    → IsCoded c
    → parse_chunks ((lead b ++ pair c) ∷ chunks) acc
      ≡ parse_chunks chunks (Dict.set c.0 (unquote c.1) acc)
unfolding parse_chunks add_cookie is_nil
parse_cookie b (c ∷ key, raw) chunks acc (k, e, v, w) =
    rw (halves-pair b (c ∷ key) raw e, strip-lead b (c ∷ key) (plain-has_no_space (c ∷ key) k), w)
      refl
parse_cookie b ([], raw) chunks acc h = elim h [ ]

lacks-cookie : (b : Bool) (c : Text × Text) → IsCoded c → lacks b';' (lead b ++ pair c) ≡ true
lacks-cookie b (c ∷ key, raw) (k, e, v, w) =
    lacks-lead b';' b (pair (c ∷ key, raw)) refl
      (lacks-pair (c ∷ key) raw (plain-lacks (c ∷ key) k) v)
lacks-cookie b ([], raw) h = elim h [ ]

parse_led :
    (b : Bool) (c : Text × Text) (cs : List (Text × Text)) (acc : List (Text × Text))
    → IsCoded c
    → All IsCoded cs
    → parse_chunks (split b';' (lead b ++ cookie_header (c ∷ cs))) acc
      ≡ Dict.update acc (decoded (c ∷ cs))
unfolding Dict.update parse_chunks lead decoded
parse_led b c [] acc h _ =
    rw (split_last b';' (lead b ++ pair c) (lacks-cookie b c h), parse_cookie b c [] acc h) refl
parse_led b c (d ∷ cs) acc h g =
    rw
      (
        sym (append_assoc (lead b) (pair c) (b';' ∷ b' ' ∷ cookie_header (d ∷ cs))),
        split-append b';' (lead b ++ pair c) (b' ' ∷ cookie_header (d ∷ cs)) (lacks-cookie b c h),
        parse_cookie b c (split b';' (b' ' ∷ cookie_header (d ∷ cs))) acc h,
      )
      (parse_led true d cs (Dict.set c.0 (unquote c.1) acc) g.0 g.1)

-- A header of cookies in the form in which they are sent is read as those cookies with their values
-- unquoted, in order, a later one of a name in the place of the earlier.
pub cookie_parser-coded :
    (cs : List (Text × Text))
    → All IsCoded cs
    → cookie_parser (cookie_header cs) ≡ Dict.update [] (decoded cs)
unfolding cookie_parser parse_chunks add_cookie halves is_nil split_once strip lead Dict.update
    decoded
cookie_parser-coded [] h = ap (λ l. parse_chunks l []) (split_last b';' [] refl) ∙ refl
cookie_parser-coded (c ∷ cs) (h, g) = parse_led false c cs [] h g

cookie-IsCoded : (c : Text × Text) → IsCookie c → IsCoded c
cookie-IsCoded (c ∷ key, val) (k, e, v) =
    (k, e, plain-lacks val v, strip_none val (plain-has_no_space val v))
cookie-IsCoded ([], val) h = elim h [ ]

cookies-IsCoded : (cs : List (Text × Text)) → All IsCookie cs → All IsCoded cs
cookies-IsCoded [] h = tt
cookies-IsCoded (c ∷ cs) (h, g) = (cookie-IsCoded c h, cookies-IsCoded cs g)

decoded_plain : (cs : List (Text × Text)) → All IsCookie cs → decoded cs ≡ cs
unfolding decoded
decoded_plain [] h = refl
decoded_plain ((c ∷ key, val) ∷ cs) ((k, e, v), g) =
    rw (unquote_plain val v, decoded_plain cs g) refl
decoded_plain (([], val) ∷ cs) (h, g) = elim h [ ]

-- A header of cookies that have a name with no "=" and only characters that stand for themselves is
-- read as those cookies, in order, a later one of a name in the place of the earlier.
pub cookie_parser-cookie_header :
    (cs : List (Text × Text))
    → All IsCookie cs
    → cookie_parser (cookie_header cs) ≡ Dict.update [] cs
cookie_parser-cookie_header cs h =
    cookie_parser-coded cs (cookies-IsCoded cs h) ∙ ap (Dict.update []) (decoded_plain cs h)
