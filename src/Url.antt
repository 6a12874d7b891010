-- ===== src/Url.antt =====
-- rustlette/datastructures.py: `URL`. Its components are what `urlsplit` of Python's urllib makes of a
-- text, written out here as of Python 3.10 for a URL whose scheme and host are ASCII; `is_netloc` stands for the
-- test of the network location for which `urlsplit` raises `ValueError`.
pub mod Cutting
pub mod Address
pub mod Authority
pub mod Replace
pub mod RoundTrip
pub mod Query
pub mod Absolute
mod Tests
use mathlib.Core.List.{map}
use rustlette.Prelude.{
  is_nil, lower_ascii, ℕ, ◌+◌, Bool, true, false, not, ◌&&◌, ◌||◌, Option, none, some, List, [],
  ◌∷◌, ◌++◌, Text, codes, text_eq, text_in, starts_with, contains_char, split_once, drop, keep, all,
  any, leb, ltb, ◌==◌, if◌then◌else◌,
}
use rustlette.Prelude.Decimal.{str}
use rustlette.Prelude.Exec.{Result, ok, err}
use rustlette.Prelude.Strings.{drop_left}
use rustlette.Routing.Convertors.{is_number, value_from}

-- `SplitResult`
pub record Components : Type 0 where
  pub scheme : Text
  pub netloc : Text
  pub path : Text
  pub query : Text
  pub fragment : Text

-- What the operations on URLs raise; `scope_error` is what `URL(scope=...)` raises.
pub data UrlError : Type 0 where
  value_error index_error key_error scope_error : UrlError

-- `s.partition(c)`: the text before the first `c`, and the text behind it, empty if there is none
unfoldable pub cut : ℕ → Text → Text × Text
unfolding split_once
cut c s = elim (split_once c s) [ none ↦ (s, []) | some p ↦ p ]

-- the longest prefix of characters that pass a test, and the rest
unfoldable pub span : (ℕ → Bool) → Text → Text × Text
span p [] = ([], [])
span p (c ∷ s) = let (l, r) = span p s in if p c then (c ∷ l, r) else ([], c ∷ s)

unfoldable pub is_letter : ℕ → Bool
is_letter c = (leb b'a' c && leb c b'z') || (leb b'A' c && leb c b'Z')

unfoldable pub begins_with_letter : Text → Bool
unfolding is_letter
begins_with_letter [] = false
begins_with_letter (c ∷ s) = is_letter c

unfoldable pub is_scheme_char : ℕ → Bool
unfolding is_letter
is_scheme_char c = is_letter c || (leb b'0' c && leb c b'9') || c == b'+' || c == b'-' || c == b'.'

scheme_and_rest : Text → Text × Text
unfolding begins_with_letter is_scheme_char lower_ascii split_once
scheme_and_rest url = elim (split_once b':' url) [
  | none ↦ ([], url)
  | some (scheme, rest) ↦
      if begins_with_letter scheme && all is_scheme_char scheme
      then (map lower_ascii scheme, rest)
      else ([], url)
]

-- no end of a network location
unfoldable pub in_netloc : ℕ → Bool
in_netloc c = not (c == b'/' || c == b'?' || c == b'#')

netloc_and_rest : Text → Text × Text
unfolding span in_netloc starts_with
netloc_and_rest url =
    if starts_with url (codes "//") then span in_netloc (drop 2 url) else ([], url)

-- tabs and line ends, which are removed
unfoldable pub is_unsafe : ℕ → Bool
is_unsafe c = c == 9 || c == 10 || c == 13

unfoldable pub cleaned : Text → Text
unfolding drop_left is_unsafe
cleaned url = keep (λ c. not (is_unsafe c)) (drop_left (λ c. leb c 32) url)

after_path : (scheme netloc fragment : Text) → Text × Text → Components
after_path scheme netloc fragment (path, query) = record {
  scheme = scheme;
  netloc = netloc;
  path = path;
  query = query;
  fragment = fragment;
}

after_fragment : (scheme netloc : Text) → Text × Text → Components
unfolding after_path cut
after_fragment scheme netloc (rest, fragment) = after_path scheme netloc fragment (cut b'?' rest)

after_netloc : (scheme : Text) → Text × Text → Components
unfolding after_fragment cut
after_netloc scheme (netloc, rest) = after_fragment scheme netloc (cut b'#' rest)

after_scheme : Text × Text → Components
unfolding after_netloc netloc_and_rest
after_scheme (scheme, rest) = after_netloc scheme (netloc_and_rest rest)

-- `urlsplit` behind the removal of characters
split_parts : Text → Components
unfolding after_scheme scheme_and_rest
split_parts url = after_scheme (scheme_and_rest url)

-- `uses_netloc` of urllib
abbrev uses_netloc : List Text
uses_netloc =
    codes ""
    ∷ codes "ftp"
    ∷ codes "http"
    ∷ codes "gopher"
    ∷ codes "nntp"
    ∷ codes "telnet"
    ∷ codes "imap"
    ∷ codes "wais"
    ∷ codes "file"
    ∷ codes "mms"
    ∷ codes "https"
    ∷ codes "shttp"
    ∷ codes "snews"
    ∷ codes "prospero"
    ∷ codes "rtsp"
    ∷ codes "rtspu"
    ∷ codes "rsync"
    ∷ codes "svn"
    ∷ codes "svn+ssh"
    ∷ codes "sftp"
    ∷ codes "nfs"
    ∷ codes "git"
    ∷ codes "git+ssh"
    ∷ codes "ws"
    ∷ codes "wss"
    ∷ []

-- a prefix if the text behind it is not empty
unfoldable pub before : Text → Text → Text
before prefix [] = []
before prefix (c ∷ s) = prefix ++ (c ∷ s)

with_netloc : Text → Text → Text → Text
unfolding is_nil text_in starts_with
with_netloc scheme netloc path =
    if not (is_nil netloc)
      || (not (is_nil scheme) && text_in scheme uses_netloc && not (starts_with path (codes "//")))
    then codes "//"
      ++ (netloc
          ++ (if not (is_nil path) && not (starts_with path (codes "/"))
              then codes "/" ++ path
              else path))
    else path

with_scheme : Text → Text → Text
with_scheme [] url = url
with_scheme (c ∷ scheme) url = (c ∷ scheme) ++ (codes ":" ++ url)

-- `components.geturl()`
unfoldable pub geturl : Components → Text
unfolding with_scheme with_netloc before
geturl c = with_scheme c.scheme (
    with_netloc c.scheme c.netloc c.path
    ++ (before (codes "?") c.query ++ before (codes "#") c.fragment))

-- `s.rpartition(c)`: what is before the last `c`, if there is one, and what is behind it
unfoldable pub rpartition : ℕ → Text → Option Text × Text
rpartition c [] = (none, [])
rpartition c (a ∷ s) =
    let (left, right) = rpartition c s in
    elim left [
      | some l ↦ (some (a ∷ l), right)
      | none ↦ if a == c then (some [], s) else (none, a ∷ s)
    ]

-- the host and the text of the port, in the text behind the user
host_info : Text → Text × Text
unfolding cut split_once
host_info hostinfo = elim (split_once b'[' hostinfo) [
  | some (_, bracketed) ↦ let (host, rest) = cut b']' bracketed in (host, (cut b':' rest).1)
  | none ↦ cut b':' hostinfo
]

-- `_hostinfo`
host_and_port : Text → Text × Text
unfolding host_info rpartition
host_and_port netloc = host_info (rpartition b'@' netloc).1

-- `_userinfo`: the user and the password
user_and_password : Option Text → Option Text × Option Text
unfolding split_once
user_and_password none = (none, none)
user_and_password (some userinfo) = elim (split_once b':' userinfo) [
  | none ↦ (some userinfo, none)
  | some (user, password) ↦ (some user, some password)
]

unfoldable pub username : Components → Option Text
unfolding user_and_password rpartition
username c = (user_and_password (rpartition b'@' c.netloc).0).0

unfoldable pub password : Components → Option Text
unfolding user_and_password rpartition
password c = (user_and_password (rpartition b'@' c.netloc).0).1

unfoldable pub some_text : Text → Option Text
some_text [] = none
some_text (c ∷ s) = some (c ∷ s)

-- a host in lower case, up to the zone that may follow it
lower_host : Text → Text
unfolding lower_ascii span
lower_host host =
    let (name, zone) = span (λ c. not (c == b'%')) host in map lower_ascii name ++ zone

unfoldable pub hostname : Components → Option Text
unfolding some_text host_and_port lower_host
hostname c = some_text (lower_host (host_and_port c.netloc).0)

port_from : Text → Result UrlError (Option ℕ)
unfolding is_number value_from
port_from [] = ok none
port_from (c ∷ s) =
    if is_number (c ∷ s) && leb (value_from 0 (c ∷ s)) 65535
    then ok (some (value_from 0 (c ∷ s)))
    else err value_error

unfoldable pub get_port : Components → Result UrlError (Option ℕ)
unfolding port_from host_and_port
get_port c = port_from (host_and_port c.netloc).1

-- `is_secure`
unfoldable pub is_secure : Components → Bool
unfolding text_in
is_secure c = text_in c.scheme (codes "https" ∷ codes "wss" ∷ [])

module _ (is_netloc : Text → Bool) where
  checked : Components → Result UrlError Components
  checked c = if is_netloc c.netloc then ok c else err value_error

  -- `urlsplit(url)`
  unfoldable pub urlsplit : Text → Result UrlError Components
  unfolding checked split_parts cleaned
  urlsplit url = checked (split_parts (cleaned url))
