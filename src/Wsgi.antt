-- ===== src/Wsgi.antt =====
-- rustlette/middleware/wsgi.py: `build_environ`. `encode_utf8` stands for `str.encode("utf8")`; the
-- bytes of a Latin-1 text are its code points.
pub mod Merged
pub mod Responder
mod Tests
use mathlib.Core.List.{map}
use rustlette.Prelude.{
  ℕ, ◌+◌, ◌-◌, Bool, true, false, not, ◌&&◌, Option, none, some, List, [], ◌∷◌, ◌++◌, Text, Bytes,
  codes, text_eq, text_eq_instance, starts_with, drop, length, all, leb, ltb, ◌==◌, if◌then◌else◌,
}
use rustlette.Prelude.Exec.{Result, ok, err}
use rustlette.MultiDict.Dict
use rustlette.Headers.{RawHeaders}

-- The keys of the scope that `build_environ` reads: an `Option` for a key read with `get`.
pub record Scope : Type 0 where
  pub method : Text
  pub scheme : Option Text
  pub path : Text
  pub root_path : Option Text
  pub query_string : Bytes
  pub http_version : Text
  pub server : Option (Text × Option ℕ)
  pub client : Option (Text × ℕ)
  pub headers : RawHeaders

-- What an entry of the environ is; `no_value` is `None`.
pub data Entry : Type 0 where
  text_entry : Text → Entry
  number_entry : ℕ → Entry
  version_entry : ℕ → ℕ → Entry
  input_entry : Bytes → Entry
  flag_entry : Bool → Entry
  stdout_entry no_value : Entry

abbrev pub Environ : Type 0
Environ = List (Text × Entry)

pub data EnvironError : Type 0 where
  unicode_decode_error type_error : EnvironError

-- `str.upper` of a character below U+0100
upper_char : ℕ → Text
upper_char c =
    if leb b'a' c && leb c b'z'
    then (c - 32) ∷ []
    else if leb 0xE0 c && leb c 0xFE && not (c == 0xF7)
    then (c - 32) ∷ []
    else if c == 0xDF
    then codes "SS"
    else if c == 0xB5
    then 0x39C ∷ []
    else if c == 0xFF
    then 0x178 ∷ []
    else c ∷ []

upper : Text → Text
unfolding upper_char
upper [] = []
upper (c ∷ s) = upper_char c ++ upper s

-- `replace("-", "_")` of a character
underscored : ℕ → ℕ
underscored c = if c == b'-' then b'_' else c

unfoldable pub corrected_name : Text → Text
unfolding upper underscored text_eq
corrected_name name =
    if text_eq name (codes "content-length")
    then codes "CONTENT_LENGTH"
    else if text_eq name (codes "content-type")
    then codes "CONTENT_TYPE"
    else map underscored (upper (codes "HTTP_" ++ name))

-- `environ[corrected_name] + "," + value`, where the name is there
merged : Option Entry → Text → Result EnvironError Entry
merged none value = ok (text_entry value)
merged (some (text_entry old)) value = ok (text_entry (old ++ (codes "," ++ value)))
merged (some _) value = err type_error

-- what a round of the loop over the headers comes to, and the rounds behind it
set_merged :
    Text
    → (rest : Environ → Result EnvironError Environ) → Environ
    → Result EnvironError Entry
    → Result EnvironError Environ
unfolding Dict.set
set_merged name rest environ (ok entry) = rest (Dict.set name entry environ)
set_merged name rest environ (err e) = err e

-- the loop over the headers
add_headers : RawHeaders → Environ → Result EnvironError Environ
unfolding set_merged merged corrected_name Dict.get
add_headers [] environ = ok environ
add_headers ((name, value) ∷ headers) environ =
    set_merged (corrected_name name) (add_headers headers) environ
      (merged (Dict.get (corrected_name name) environ) value)

or_empty : Option Text → Text
or_empty none = []
or_empty (some s) = s

or_http : Option Text → Text
or_http none = codes "http"
or_http (some s) = s

-- `scope.get("server") or ("localhost", 80)`
server_of : Option (Text × Option ℕ) → Text × Option ℕ
server_of none = (codes "localhost", some 80)
server_of (some server) = server

port_entry : Option ℕ → Entry
port_entry none = no_value
port_entry (some port) = number_entry port

-- `environ["REMOTE_ADDR"]`
client_entries : Option (Text × ℕ) → Environ
client_entries none = []
client_entries (some (host, port)) = (codes "REMOTE_ADDR", text_entry host) ∷ []

module _ (encode_utf8 : Text → Bytes) where
  unfoldable pub script_name : Scope → Text
  unfolding or_empty
  script_name s = encode_utf8 (or_empty s.root_path)

  unfoldable pub path_info : Scope → Text
  unfolding script_name starts_with
  path_info s =
      let path = encode_utf8 s.path in
      if starts_with path (script_name s) then drop (length (script_name s)) path else path

  -- the environ before the headers
  unfoldable pub environ_of : Scope → Bytes → Environ
  unfolding script_name path_info or_http server_of port_entry client_entries
  environ_of s body =
      (codes "REQUEST_METHOD", text_entry s.method)
      ∷ (codes "SCRIPT_NAME", text_entry (script_name s))
      ∷ (codes "PATH_INFO", text_entry (path_info s))
      ∷ (codes "QUERY_STRING", text_entry s.query_string)
      ∷ (codes "SERVER_PROTOCOL", text_entry (codes "HTTP/" ++ s.http_version))
      ∷ (codes "wsgi.version", version_entry 1 0)
      ∷ (codes "wsgi.url_scheme", text_entry (or_http s.scheme))
      ∷ (codes "wsgi.input", input_entry body)
      ∷ (codes "wsgi.errors", stdout_entry)
      ∷ (codes "wsgi.multithread", flag_entry true)
      ∷ (codes "wsgi.multiprocess", flag_entry true)
      ∷ (codes "wsgi.run_once", flag_entry false)
      ∷ (codes "SERVER_NAME", text_entry (server_of s.server).0)
      ∷ (codes "SERVER_PORT", port_entry (server_of s.server).1)
      ∷ client_entries s.client

  -- `build_environ(scope, body)`; the query string is decoded as ASCII
  unfoldable pub build_environ : Scope → Bytes → Result EnvironError Environ
  unfolding environ_of add_headers
  build_environ s body =
      if all (λ c. ltb c 128) s.query_string
      then add_headers s.headers (environ_of s body)
      else err unicode_decode_error
