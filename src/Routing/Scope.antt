-- ===== src/Routing/Scope.antt =====
-- The connection scope that the router reads and updates, `get_route_path` of rustlette/_utils.py and
-- the address of a scope, `URL(scope=scope)` of rustlette/datastructures.py.
pub mod RoutePath
use rustlette.Prelude.{
  ℕ, zero, suc, ◌+◌, ◌*◌, ◌-◌, ◌≡◌, refl, arith, all, ltb, leb, ◌&&◌, Bool, true, false, not, ◌||◌,
  Option, none, some, List, [], ◌∷◌, ◌++◌, Text, Bytes, codes, text_eq, ◌==◌, if◌then◌else◌,
  starts_with, length, drop,
}
use rustlette.Prelude.Decimal.{str}
use rustlette.Headers.{RawHeaders, get_raw}
use rustlette.Routing.Convertors.{Value}

pub data ScopeType : Type 0 where
  http websocket lifespan : ScopeType
  other_type : Text → ScopeType

-- `root_path`, `path_params` and `query_string` are empty where the key is missing.
pub record Scope : Type 0 where
  pub kind : ScopeType
  pub method : Text
  pub scheme : Text
  pub server : Option (Text × ℕ)
  pub path : Text
  pub root_path : Text
  pub app_root_path : Option Text
  pub query_string : Bytes
  pub headers : RawHeaders
  pub path_params : List (Text × Value)
  pub endpoint : Option ℕ
  pub in_app : Bool

-- does a text begin with "/"
unfoldable pub begins_with_slash : Text → Bool
begins_with_slash [] = false
begins_with_slash (c ∷ s) = c == b'/'

unfoldable pub get_route_path : Scope → Text
unfolding begins_with_slash
get_route_path s =
    if text_eq s.root_path []
    then s.path
    else if not (starts_with s.path s.root_path)
    then s.path
    else if text_eq s.path s.root_path
    then []
    else let rest = drop (length s.root_path) s.path in
      if begins_with_slash rest then rest else s.path

-- the default port of a scheme; `none` is the `KeyError`
default_port : Text → Option ℕ
default_port scheme =
    if text_eq scheme (codes "http") || text_eq scheme (codes "ws")
    then some 80
    else if text_eq scheme (codes "https") || text_eq scheme (codes "wss")
    then some 443
    else none

-- A position in UTF-8: the bytes that a character still needs, what it comes to so far, and the least
-- code point that is not written with fewer bytes.
record Position : Type 0 where
  needed : ℕ
  value : ℕ
  least : ℕ

between : Position
between = record { needed = 0; value = 0; least = 0 }

-- the first byte of a character: the character, if it is the only one, and where its reading has come to
first_byte : ℕ → Option (Text × Position)
unfolding between
first_byte b =
    if ltb b 128
    then some (b ∷ [], between)
    else if ltb b 194
    then none
    else if ltb b 224
    then some ([], record { needed = 1; value = b - 192; least = 128 })
    else if ltb b 240
    then some ([], record { needed = 2; value = b - 224; least = 2048 })
    else if ltb b 245
    then some ([], record { needed = 3; value = b - 240; least = 65536 })
    else none

-- is it a code point that this number of bytes may stand for: no surrogate and none too large
is_character : (value least : ℕ) → Bool
is_character value least =
    leb least value && not (leb 0xD800 value && leb value 0xDFFF) && leb value 0x10FFFF

-- one of the other bytes, with `needed` behind it
next_byte : (needed value least : ℕ) → Option (Text × Position)
unfolding between is_character
next_byte zero value least = if is_character value least then some (value ∷ [], between) else none
next_byte (suc n) value least = some ([], record { needed = suc n; value = value; least = least })

read_byte : Position → ℕ → Option (Text × Position)
unfolding first_byte next_byte
read_byte p b = elim p.needed [
  | zero ↦ first_byte b
  | suc n ↦ if leb 128 b && ltb b 192 then next_byte n (p.value * 64 + (b - 128)) p.least else none
]

decode_from : Position → Bytes → Option Text
unfolding read_byte
decode_from p [] = if p.needed == 0 then some [] else none
decode_from p (b ∷ bytes) = elim (read_byte p b) [
  | none ↦ none
  | some (text, p') ↦ elim (decode_from p' bytes) [ none ↦ none | some rest ↦ some (text ++ rest) ]
]

-- `query_string.decode()`; `none` is a `UnicodeDecodeError`
unfoldable pub decode : Bytes → Option Text
unfolding decode_from between
decode bytes = decode_from between bytes

decode_from_ascii :
    (bytes : Bytes) → all (λ b. ltb b 128) bytes ≡ true → decode_from between bytes ≡ some bytes
unfolding decode_from read_byte first_byte between
decode_from_ascii [] h = refl
decode_from_ascii (b ∷ bytes) h = ground (arith, decode_from_ascii bytes)

pub decode_ascii : (bytes : Bytes) → all (λ b. ltb b 128) bytes ≡ true → decode bytes ≡ some bytes
unfolding decode
decode_ascii bytes h = decode_from_ascii bytes h

unfoldable pub with_query : Bytes → Text → Option Text
unfolding decode
with_query [] url = some url
with_query (c ∷ query) url = elim (decode (c ∷ query)) [
  | none ↦ none
  | some text ↦ some (url ++ (codes "?" ++ text))
]

-- the address without its query; `none` is the `KeyError` of a scheme with no default port
unfoldable pub without_query : Scope → Option Text
unfolding get_raw default_port str
without_query s = elim (get_raw (codes "host") s.headers) [
  | some host ↦ some (s.scheme ++ (codes "://" ++ (host ++ s.path)))
  | none ↦ elim s.server [
    | none ↦ some s.path
    | some (host, port) ↦ elim (default_port s.scheme) [
      | none ↦ none
      | some usual ↦
          if port == usual
          then some (s.scheme ++ (codes "://" ++ (host ++ s.path)))
          else some (s.scheme ++ (codes "://" ++ (host ++ (codes ":" ++ (str port ++ s.path)))))
    ]
  ]
]

-- The text of the address; `none` is the `KeyError` of a scheme or the `UnicodeDecodeError` of a query.
unfoldable pub url_of_scope : Scope → Option Text
unfolding without_query with_query
url_of_scope s = elim (without_query s) [ none ↦ none | some url ↦ with_query s.query_string url ]
