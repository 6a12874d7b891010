-- ===== src/Request/Cookies.antt =====
-- rustlette/requests.py: `cookie_parser` and `HTTPConnection.cookies`. `unquote` is `_unquote` of Python's
-- http.cookies.
pub mod RoundTrip
use rustlette.Prelude.{
  is_nil, ℕ, zero, suc, ◌+◌, ◌*◌, ◌-◌, Bool, true, false, not, ◌&&◌, ◌||◌, Option, none, some, List,
  [], ◌∷◌, ◌++◌, Text, Bytes, codes, text_eq, text_eq_instance, leb, ◌==◌, if◌then◌else◌, split,
  split_once, strip, length, ends_with, drop, take,
}
use rustlette.MultiDict.Dict
use rustlette.Headers.{RawHeaders, getlist_raw}

unfoldable pub is_octal : ℕ → ℕ → Bool
is_octal high c = leb b'0' c && leb c high

-- `\` and three octal digits, or `\` and another character than a line's end, stand for a character.
unfoldable pub unescape : Text → Text
unfolding is_octal
unescape [] = []
unescape (c ∷ []) = c ∷ []
unescape (c ∷ d ∷ []) = if c == b'\\' && not (d == 10) then d ∷ [] else c ∷ d ∷ []
unescape (c ∷ d ∷ e ∷ []) =
    let next = unescape (d ∷ e ∷ []) in if c == b'\\' && not (d == 10) then d ∷ e ∷ [] else c ∷ next
unescape (c ∷ d ∷ e ∷ f ∷ s) =
    let octal = unescape s in
    let other = unescape (e ∷ f ∷ s) in
    let next = unescape (d ∷ e ∷ f ∷ s) in
    if c == b'\\' && is_octal b'3' d && is_octal b'7' e && is_octal b'7' f
    then ((d - b'0') * 64 + (e - b'0') * 8 + (f - b'0')) ∷ octal
    else if c == b'\\' && not (d == 10)
    then d ∷ other
    else c ∷ next

-- `s[1:-1]`
unfoldable pub inner : Text → Text
inner s = take (length s - 2) (drop 1 s)

unfoldable pub unquote : Text → Text
unfolding unescape inner
unquote [] = []
unquote (c ∷ s) =
    if not (leb (length s) 0) && c == b'"' && ends_with s (codes "\"")
    then unescape (inner (c ∷ s))
    else c ∷ s

-- `key, val` of a chunk
halves : Text → Text × Text
unfolding split_once
halves chunk = elim (split_once b'=' chunk) [ none ↦ ([], chunk) | some (key, val) ↦ (key, val) ]

-- One round of the loop, for the stripped halves.
add_cookie : Text → Text → List (Text × Text) → List (Text × Text)
unfolding unquote is_nil Dict.set
add_cookie key val cookies =
    if is_nil key && is_nil val then cookies else Dict.set key (unquote val) cookies

unfoldable pub parse_chunks : List Text → List (Text × Text) → List (Text × Text)
unfolding add_cookie halves strip
parse_chunks [] cookies = cookies
parse_chunks (chunk ∷ chunks) cookies =
    let (key, val) = halves chunk in
    parse_chunks chunks (add_cookie (strip key) (strip val) cookies)

unfoldable pub cookie_parser : Text → List (Text × Text)
unfolding parse_chunks split
cookie_parser cookie_string = parse_chunks (split b';' cookie_string) []

-- the property `cookies`, from the headers of the connection
unfoldable pub cookies_from : List Text → List (Text × Text) → List (Text × Text)
unfolding cookie_parser Dict.update
cookies_from [] cookies = cookies
cookies_from (header ∷ headers) cookies =
    cookies_from headers (Dict.update cookies (cookie_parser header))

unfoldable pub cookies : RawHeaders → List (Text × Text)
unfolding cookies_from getlist_raw
cookies raw = cookies_from (getlist_raw (codes "cookie") raw) []
