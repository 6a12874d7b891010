-- ===== src/Response/Cookies/RoundTrip.antt =====
-- A cookie that a response sets is read back from a later request.
use mathlib.Core.List.{map}
use rustlette.Prelude.{
  is_nil, lower_ascii, ℕ, ◌≡◌, refl, ap, sym, ◌∙◌, Bool, true, false, not, ◌&&◌, ◌||◌, Option, some,
  List, [], ◌∷◌, ◌++◌, append_assoc, append-nil, Text, codes, text_eq_instance, text_in, All,
  All-append, is_space, strip, join, split_once, arith, Bool-cases, inl, inr,
}
use rustlette.Prelude.Strings.{drop_right}
use rustlette.Prelude.Strings.Laws.{
  lacks, all-append_both, strip_none, strip_leading, strip_between, split_once-append,
}
use rustlette.Prelude.Exec.{Result, ok, err}
use rustlette.Prelude.Int.{ℤ}
use rustlette.Headers.{RawHeaders, HeaderError}
use rustlette.Headers.Encoding.{encode, encode-eq-ok}
use rustlette.MultiDict.Dict
use rustlette.Request.Cookies.{unquote, cookie_parser}
use rustlette.Request.Cookies.RoundTrip.{
  IsCoded, decoded, pair, cookie_header, lacks-pair, plain-lacks, cookie_parser-coded,
}
use rustlette.Url.{cut, before}
use rustlette.Url.Cutting.{cut-before}
use rustlette.Response.Cookies.{
  is_legal_key, escape, quote, Attributes, CookieError, attribute_texts, output, appended, unless,
  set_cookie, reserved, is_samesite,
}
use rustlette.Response.Cookies.Quoted.{is_latin, unquote-quote}
use rustlette.Response.Cookies.Coded.{lacks-quote, legal-has_no_space, quote-IsCoded}

-- the name and the value that a client takes from a Set-Cookie header
unfoldable pub stored : Text → Option (Text × Text)
unfolding cut split_once
stored header = split_once b'=' (cut b';' header).0

nonspace-legal : (c : ℕ) (key : Text) → is_legal_key (c ∷ key) ≡ true → is_space c ≡ false
unfolding is_legal_key is_nil
nonspace-legal c key h =
    let spaceless = legal-has_no_space (c ∷ key) (ground (arith, h)) in ground arith

-- The name and the value keep their form in the header.
strip-pair :
    (c : ℕ) (key value : Text)
    → is_legal_key (c ∷ key) ≡ true
    → strip (pair (c ∷ key, quote value)) ≡ pair (c ∷ key, quote value)
unfolding quote drop_right is_legal_key is_space
strip-pair c key value h = elim (Bool-cases (is_legal_key value)) [
  | inl legal ↦ rw legal (
      strip_none (pair (c ∷ key, value)) (
        all-append_both (λ a. not (is_space a)) (c ∷ key) (b'=' ∷ value)
        ∙ ground (
          arith,
          legal-has_no_space (c ∷ key) (ground (arith, h)),
          legal-has_no_space value (ground (arith, legal)),
        )))
  | inr other ↦
      let start = key ++ b'=' ∷ b'"' ∷ escape value in
      let whole : start ++ b'"' ∷ [] ≡ key ++ b'=' ∷ b'"' ∷ (escape value ++ codes "\"") =
        append_assoc key (b'=' ∷ b'"' ∷ escape value) (b'"' ∷ []) in
      rw other (
        ap (λ s. strip (c ∷ s)) (sym whole)
        ∙ strip_between c start b'"' [] (nonspace-legal c key h) refl
        ∙ ap (λ s. c ∷ s) whole)
]

module _ (c : ℕ) (key value : Text) (legal : is_legal_key (c ∷ key) ≡ true) where
  sent_pair : Text
  unfolding quote
  sent_pair = pair (c ∷ key, quote value)

  lacks-sent_pair : lacks b';' sent_pair ≡ true
  unfolding sent_pair
  lacks-sent_pair =
      lacks-pair (c ∷ key) (quote value)
        (plain-lacks (c ∷ key) (quote-IsCoded (c ∷ key) value legal).0) (lacks-quote value)

  cut_pair : (t : Text) → (cut b';' (sent_pair ++ b';' ∷ t)).0 ≡ sent_pair
  unfolding cut
  cut_pair t = rw (cut, split_once-append b';' sent_pair t lacks-sent_pair) refl

  -- The header begins with the name and the value, up to its first semicolon.
  cut-output :
      (texts : List Text)
      → (cut b';' (strip (codes " " ++ join (codes "; ") (sent_pair ∷ texts)))).0 ≡ sent_pair
  unfolding join before is_space sent_pair
  cut-output [] =
      ap (λ s. (cut b';' s).0)
        (strip_leading sent_pair ∙ strip-pair c key value legal ∙ sym (append-nil sent_pair))
      ∙ ap (λ q. q.0) (cut-before b';' sent_pair [] lacks-sent_pair)
  cut-output (x ∷ texts) =
      let rest = b' ' ∷ join (codes "; ") (x ∷ texts) in
      ap (λ s. (cut b';' s).0)
        (strip_leading (sent_pair ++ b';' ∷ rest)
          ∙ strip_between c (key ++ b'=' ∷ quote value) b';' rest (nonspace-legal c key legal) refl)
      ∙ cut_pair (drop_right is_space rest)

-- A client takes the name and the value from the header that is made.
stored-output :
    (getdate : ℤ → Text) (format_datetime : ℕ → Text) (key value : Text) (a : Attributes)
    → is_legal_key key ≡ true
    → stored (output getdate format_datetime key value a) ≡ some (key, quote value)
unfolding stored output sent_pair is_legal_key is_nil
stored-output getdate format_datetime [] value a legal = cc
stored-output getdate format_datetime (c ∷ key) value a legal =
    ap (split_once b'=') (cut-output c key value legal (attribute_texts getdate format_datetime a))
    ∙ split_once-append b'=' (c ∷ key) (quote value) (quote-IsCoded (c ∷ key) value legal).1

decoded-append : (xs ys : List (Text × Text)) → decoded (xs ++ ys) ≡ decoded xs ++ decoded ys
unfolding decoded
decoded-append [] ys = refl
decoded-append ((key, raw) ∷ xs) ys = ap (λ l. (key, unquote raw) ∷ l) (decoded-append xs ys)

appended-eq-ok :
    (raw raw' : RawHeaders) (text : Text) (r : Result HeaderError Text)
    → encode text ≡ r
    → appended raw r ≡ ok raw'
    → raw' ≡ raw ++ (codes "set-cookie", text) ∷ []
unfolding appended
appended-eq-ok raw raw' text (ok b) e h =
    let same = encode-eq-ok text b e in ground (arith, same, h)
appended-eq-ok raw raw' text (err x) e h = cc

unless-eq-ok :
    (a b c : Bool) (r : Result CookieError RawHeaders) {raw : RawHeaders}
    → unless a b c r ≡ ok raw
    → (a ≡ false) × (r ≡ ok raw)
unfolding unless
unless-eq-ok true b c r h = cc
unless-eq-ok false true c r h = cc
unless-eq-ok false false true r h = cc
unless-eq-ok false false false r h = (refl, h)

module _ (getdate : ℤ → Text) (format_datetime : ℕ → Text) (has_partitioned : Bool)
    (key value : Text) (a : Attributes) (raw raw' : RawHeaders)
    (done : set_cookie getdate format_datetime has_partitioned key value a raw ≡ ok raw') where
  set_cookie-eq-ok :
      (is_legal_key key ≡ true)
      × (appended raw (encode (output getdate format_datetime key value a)) ≡ ok raw')
  unfolding set_cookie
  set_cookie-eq-ok =
      let (allowed, h) =
        unless-eq-ok
          (text_in (map lower_ascii key) (reserved has_partitioned) || not (is_legal_key key))
          (not (is_samesite a.samesite)) (a.partitioned && not has_partitioned)
          (appended raw (encode (output getdate format_datetime key value a))) done in
      (ground (arith, allowed), h)

  -- A cookie that a response has set comes back: its header is added behind the others, and a client that
  -- takes the name and the value from it and sends them behind other cookies is read as a cookie of
  -- that name with the value that was set, whatever characters of Latin-1 the value has.
  pub cookie_parser-set_cookie :
      (cs : List (Text × Text))
      → is_latin value ≡ true
      → All IsCoded cs
      → (header : Text) × (raw' ≡ raw ++ (codes "set-cookie", header) ∷ [])
        × (sent : Text × Text) × (stored header ≡ some sent)
        × (cookie_parser (cookie_header (cs ++ sent ∷ []))
            ≡ Dict.set key value (Dict.update [] (decoded cs)))
  unfolding decoded Dict.update
  cookie_parser-set_cookie cs latin coded =
      let (legal, h) = set_cookie-eq-ok in
      let header = output getdate format_datetime key value a in
      (
        header,
        appended-eq-ok raw raw' header (encode header) refl h,
        (key, quote value),
        stored-output getdate format_datetime key value a legal,
        cookie_parser-coded (cs ++ (key, quote value) ∷ []) (
              All-append IsCoded cs ((key, quote value) ∷ []) coded
                (quote-IsCoded key value legal, tt))
            ∙ ap (Dict.update []) (decoded-append cs ((key, quote value) ∷ []))
            ∙ Dict.update-append [] (decoded cs) ((key, unquote (quote value)) ∷ [])
            ∙ ap (λ v. Dict.set key v (Dict.update [] (decoded cs))) (unquote-quote value latin),
      )
