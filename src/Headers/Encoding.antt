-- ===== src/Headers/Encoding.antt =====
-- rustlette/datastructures.py: the methods of `Headers` and `MutableHeaders` as they are called, with
-- text for names and values. A name goes through `key.lower().encode("latin-1")`, a value through
-- `value.encode("latin-1")`; `decode("latin-1")` of bytes gives their code points.
use rustlette.Prelude.{
  all, text_eq_iff, ℕ, ◌+◌, ◌≡◌, refl, Bool, true, not, ◌&&◌, Option, none, some, List, [], ◌∷◌,
  Text, Bytes, leb, ltb, ◌==◌, if◌then◌else◌, arith, Option-cases, inl, inr,
}
use rustlette.Prelude.Exec.{Result, ok, err}
use rustlette.Headers.Laws.{get_raw-set_raw}
use rustlette.Headers.{
  RawHeaders, HeaderError, key_error, unicode_encode_error, get_raw, getlist_raw, contains_raw,
  set_raw, delete_raw, setdefault_raw, append_raw,
}

abbrev pub then_ok :
    {A B : Type 0} → Result HeaderError A → (A → Result HeaderError B) → Result HeaderError B
then_ok (ok a) f = f a
then_ok (err e) f = err e

-- `value.encode("latin-1")`
unfoldable pub encode : Text → Result HeaderError Bytes
encode [] = ok []
encode (c ∷ s) =
    let rest = encode s in
    if ltb c 256 then then_ok rest (λ b. ok (c ∷ b)) else err unicode_encode_error

-- One character of `key.lower().encode("latin-1")`. Above U+00FF only four characters have a lower
-- case that is one character of Latin-1; every other text with such a character cannot be encoded.
unfoldable pub lower_char : ℕ → Option ℕ
lower_char c =
    if leb b'A' c && leb c b'Z'
    then some (c + 32)
    else if leb 0xC0 c && leb c 0xDE && not (c == 0xD7)
    then some (c + 32)
    else if ltb c 256
    then some c
    else if c == 0x178
    then some 0xFF
    else if c == 0x1E9E
    then some 0xDF
    else if c == 0x212A
    then some b'k'
    else if c == 0x212B
    then some 0xE5
    else none

unfoldable pub header_name : Text → Result HeaderError Bytes
header_name [] = ok []
header_name (c ∷ s) =
    let rest = header_name s in
    elim (lower_char c) [
      | none ↦ err unicode_encode_error
      | some d ↦ then_ok rest (λ b. ok (d ∷ b))
    ]

-- `headers[key]`
unfoldable pub get_item : Text → RawHeaders → Result HeaderError Text
get_item key l =
    then_ok (header_name key)
      (λ name. elim (get_raw name l) [ none ↦ err key_error | some v ↦ ok v ])

-- `headers.get(key)`: `Mapping.get` turns a `KeyError` into `None`
unfoldable pub get : Text → RawHeaders → Result HeaderError (Option Text)
get key l = then_ok (header_name key) (λ name. ok (get_raw name l))

unfoldable pub getlist : Text → RawHeaders → Result HeaderError (List Text)
getlist key l = then_ok (header_name key) (λ name. ok (getlist_raw name l))

unfoldable pub contains : Text → RawHeaders → Result HeaderError Bool
contains key l = then_ok (header_name key) (λ name. ok (contains_raw name l))

-- `headers[key] = value`
unfoldable pub set_item : Text → Text → RawHeaders → Result HeaderError RawHeaders
set_item key value l =
    then_ok (header_name key) (λ name. then_ok (encode value) (λ bytes. ok (set_raw name bytes l)))

-- `del headers[key]`
unfoldable pub delete_item : Text → RawHeaders → Result HeaderError RawHeaders
delete_item key l = then_ok (header_name key) (λ name. ok (delete_raw name l))

unfoldable pub append : Text → Text → RawHeaders → Result HeaderError RawHeaders
append key value l =
    then_ok (header_name key)
      (λ name. then_ok (encode value) (λ bytes. ok (append_raw name bytes l)))

-- `setdefault` encodes the value, but returns the caller's text when it adds the header
unfoldable pub setdefault : Text → Text → RawHeaders → Result HeaderError (Text × RawHeaders)
setdefault key value l =
    then_ok (header_name key)
      (λ name. then_ok (encode value) (λ bytes. ok (setdefault_raw name bytes l)))

-- `Headers(headers=mapping)`
unfoldable pub from_items : List (Text × Text) → Result HeaderError RawHeaders
from_items [] = ok []
from_items ((key, value) ∷ items) =
    let rest = from_items items in
    then_ok (header_name key)
      (λ name. then_ok (encode value) (λ bytes. then_ok rest (λ l. ok ((name, bytes) ∷ l))))

encode_lem :
    (s : Text) → encode s ≡ (if all (λ c. ltb c 256) s then ok s else err unicode_encode_error)
unfolding encode
encode_lem [] = refl
encode_lem (c ∷ s) = ground (arith, encode_lem s)

pub encode-latin : (s : Text) → all (λ c. ltb c 256) s ≡ true → encode s ≡ ok s
encode-latin s h = rw (encode_lem s, h) refl

pub encode-eq-ok : (s : Text) (b : Bytes) → encode s ≡ ok b → b ≡ s
encode-eq-ok s b h = ground (arith, encode_lem s)

pub then_ok-eq-ok :
    {A B : Type 0} (r : Result HeaderError A) (f : A → Result HeaderError B) {b : B}
    → then_ok r f ≡ ok b
    → (a : A) × (r ≡ ok a) × (f a ≡ ok b)
then_ok-eq-ok (ok a) f h = (a, refl, h)
then_ok-eq-ok (err e) f h = cc

-- What is left by `headers[key] = value` where it does not raise.
pub set_item-eq-ok :
    (key value : Text) (name : Bytes) (l : RawHeaders) {l' : RawHeaders}
    → header_name key ≡ ok name
    → set_item key value l ≡ ok l'
    → l' ≡ set_raw name value l
unfolding set_item
set_item-eq-ok key value name l named h =
    let h' = rw named at h in
    let (bytes, encoded, h'') = then_ok-eq-ok (encode value) _ h' in
    ground (arith, encode-eq-ok value bytes encoded)

-- Spellings of a name that differ in case only are one header: what is set under one spelling is
-- read back under the other, unchanged by the encoding.
pub get_item-set_item :
    (key key' value : Text) (l l' : RawHeaders)
    → header_name key ≡ header_name key'
    → set_item key value l ≡ ok l'
    → get_item key' l' ≡ ok value
unfolding get_item set_item
get_item-set_item key key' value l l' same h =
    let (name, named, h') = then_ok-eq-ok (header_name key) _ h in
    let (bytes, encoded, h'') = then_ok-eq-ok (encode value) _ h' in
    rw (← same, named)
      (ground (
        arith,
        encode-eq-ok value bytes encoded,
        get_raw-set_raw name bytes name l,
        text_eq_iff name name,
      ))

lower_char_idem : (c d : ℕ) → lower_char c ≡ some d → lower_char d ≡ some d
unfolding lower_char
lower_char_idem c d h = ground arith

-- A name in its encoded form is its own name: lower case stays as it is.
pub header_name_idem : (key name : Text) → header_name key ≡ ok name → header_name name ≡ ok name
unfolding header_name
header_name_idem [] name h = ground arith
header_name_idem (c ∷ key) name h = elim (Option-cases (lower_char c)) [
  | inl bad ↦ ground arith
  | inr (d, low) ↦
      let (rest, named, e) = then_ok-eq-ok (header_name key) _ (rw (low, header_name) at h) in
      let ih = header_name_idem key rest named in ground (arith, lower_char_idem c d low)
]
