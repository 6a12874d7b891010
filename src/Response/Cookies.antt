-- ===== src/Response/Cookies.antt =====
-- rustlette/responses.py: `set_cookie` and `delete_cookie`, with what they use of Python's http.cookies: the
-- quoting of a value, the tests of a name and the output of a morsel, as of Python 3.10. The date of an
-- `expires` in seconds and that of a datetime, which is a number here, are parameters; `has_partitioned`
-- says that the version of Python is 3.14 at least.
pub mod Quoted
pub mod Coded
pub mod RoundTrip
mod Tests
use mathlib.Core.List.{map}
use rustlette.Prelude.{
  is_nil, lower_ascii, ℕ, ◌+◌, ◌-◌, ◌*◌, ◌/◌, ◌%◌, Bool, true, false, not, ◌&&◌, ◌||◌, Option, none,
  some, List, [], ◌∷◌, ◌++◌, Text, codes, text_in, contains_char, strip, join, all, leb, ltb, ◌==◌,
  if◌then◌else◌,
}
use rustlette.Prelude.Decimal.{str}
use rustlette.Prelude.Exec.{Result, ok, err}
use rustlette.Prelude.Int.{ℤ, pos, negsuc}
use rustlette.Headers.{RawHeaders, HeaderError}
use rustlette.Headers.Encoding.{encode}

-- `_LegalChars`
unfoldable pub is_legal : ℕ → Bool
unfolding contains_char
is_legal c =
    (leb b'a' c && leb c b'z')
    || (leb b'A' c && leb c b'Z')
    || (leb b'0' c && leb c b'9')
    || contains_char c (codes "!#$%&'*+-.^_`|~:")

-- `_UnescapedChars`
unfoldable pub is_unescaped : ℕ → Bool
unfolding is_legal contains_char
is_unescaped c = is_legal c || contains_char c (codes " ()/<=>?@[]{}")

-- `_is_legal_key`
unfoldable pub is_legal_key : Text → Bool
unfolding is_legal is_nil
is_legal_key s = not (is_nil s) && all is_legal s

-- `str.translate(_Translator)` on a character
unfoldable pub escaped : ℕ → Text
unfolding is_unescaped
escaped c =
    if c == b'"'
    then codes "\\\""
    else if c == b'\\'
    then codes "\\\\"
    else if is_unescaped c || leb 256 c
    then c ∷ []
    else b'\\' ∷ (b'0' + c / 64) ∷ (b'0' + c / 8 % 8) ∷ (b'0' + c % 8) ∷ []

unfoldable pub escape : Text → Text
unfolding escaped
escape [] = []
escape (c ∷ s) = escaped c ++ escape s

-- `_quote`
unfoldable pub quote : Text → Text
unfolding is_legal_key escape
quote s = if is_legal_key s then s else b'"' ∷ (escape s ++ codes "\"")

pub data Expires : Type 0 where
  datetime : ℕ → Expires
  date_text : Text → Expires
  seconds : ℤ → Expires

pub record Attributes : Type 0 where
  pub max_age : Option ℤ
  pub expires : Option Expires
  pub path : Option Text
  pub domain : Option Text
  pub secure : Bool
  pub httponly : Bool
  pub samesite : Option Text
  pub partitioned : Bool

pub data CookieError : Type 0 where
  illegal_key assertion_error value_error : CookieError
  not_latin : HeaderError → CookieError

-- `str` of an integer
str_ℤ : ℤ → Text
unfolding str
str_ℤ (pos n) = str n
str_ℤ (negsuc n) = codes "-" ++ str (n + 1)

-- an attribute with a text, which is left out if it is empty
with_text : Text → Option Text → List Text
with_text name none = []
with_text name (some []) = []
with_text name (some (c ∷ value)) = (name ++ (codes "=" ++ (c ∷ value))) ∷ []

with_flag : Text → Bool → List Text
with_flag name false = []
with_flag name true = name ∷ []

-- `_reserved` of `Morsel`, in lower case
reserved : (has_partitioned : Bool) → List Text
reserved has_partitioned =
    codes "expires"
    ∷ codes "path"
    ∷ codes "comment"
    ∷ codes "domain"
    ∷ codes "max-age"
    ∷ codes "secure"
    ∷ codes "httponly"
    ∷ codes "version"
    ∷ codes "samesite"
    ∷ (if has_partitioned then codes "partitioned" ∷ [] else [])

is_samesite : Option Text → Bool
unfolding text_in lower_ascii
is_samesite none = true
is_samesite (some s) =
    text_in (map lower_ascii s) (codes "strict" ∷ codes "lax" ∷ codes "none" ∷ [])

appended : RawHeaders → Result HeaderError Text → Result CookieError RawHeaders
appended raw (ok value) = ok (raw ++ (codes "set-cookie", value) ∷ [])
appended raw (err e) = err (not_latin e)

-- the checks of `set_cookie`, the first of which is that of the dictionary of cookies
unless :
    (illegal other_samesite unsupported : Bool)
    → Result CookieError RawHeaders
    → Result CookieError RawHeaders
unless true other_samesite unsupported r = err illegal_key
unless false true unsupported r = err assertion_error
unless false false true r = err value_error
unless false false false r = r

module _ (getdate : ℤ → Text) (format_datetime : ℕ → Text) where
  expires_text : Option Expires → Option Text
  expires_text none = none
  expires_text (some (datetime d)) = some (format_datetime d)
  expires_text (some (date_text s)) = some s
  expires_text (some (seconds n)) = some (getdate n)

  max_age_text : Option ℤ → Option Text
  unfolding str_ℤ
  max_age_text none = none
  max_age_text (some n) = some (str_ℤ n)

  -- the attributes in the order of their keys
  attribute_texts : Attributes → List Text
  unfolding with_text with_flag expires_text max_age_text
  attribute_texts a =
      with_text (codes "Domain") a.domain
      ++ (with_text (codes "expires") (expires_text a.expires)
          ++ (with_flag (codes "HttpOnly") a.httponly
              ++ (with_text (codes "Max-Age") (max_age_text a.max_age)
                  ++ (with_flag (codes "Partitioned") a.partitioned
                      ++ (with_text (codes "Path") a.path
                          ++ (with_text (codes "SameSite") a.samesite
                              ++ with_flag (codes "Secure") a.secure))))))

  -- `cookie.output(header="").strip()`
  output : (key value : Text) → Attributes → Text
  unfolding quote attribute_texts join strip
  output key value a =
      strip
        (codes " " ++ join (codes "; ") ((key ++ (codes "=" ++ quote value)) ∷ attribute_texts a))

  module _ (has_partitioned : Bool) where
    -- `set_cookie`, on the raw headers of the response
    unfoldable pub set_cookie :
        (key value : Text) → Attributes → RawHeaders → Result CookieError RawHeaders
    unfolding unless is_legal_key reserved is_samesite appended output lower_ascii text_in encode
    set_cookie key value a raw =
        unless (text_in (map lower_ascii key) (reserved has_partitioned) || not (is_legal_key key))
          (not (is_samesite a.samesite)) (a.partitioned && not has_partitioned)
          (appended raw (encode (output key value a)))

    -- `delete_cookie`, whose attributes are those of the arguments it has
    unfoldable pub delete_cookie :
        (key : Text) → Attributes → RawHeaders → Result CookieError RawHeaders
    unfolding set_cookie
    delete_cookie key a raw =
        set_cookie key []
          (record a {
            max_age = some (pos 0);
            expires = some (seconds (pos 0));
            partitioned = false;
          })
          raw
