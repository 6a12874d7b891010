-- ===== src/Routing/Convertors.antt =====
-- rustlette/convertors.py: the built-in convertors of path parameters. `accepts c` is a full match of
-- the convertor's regular expression. Python tries the texts that such an expression matches at a
-- place from the longest to the shortest, for each of the five. A float is kept as its text.
pub mod RoundTrip
use rustlette.Prelude.{
  is_nil, ℕ, zero, suc, ◌+◌, ◌*◌, ◌-◌, Bool, true, false, not, ◌&&◌, ◌||◌, Option, none, some, List,
  [], ◌∷◌, Text, codes, text_eq, leb, ◌==◌, if◌then◌else◌, all, split_once, contains_char, take,
  drop, ◌++◌,
}
use rustlette.Prelude.Decimal.{str}
use rustlette.Prelude.Int.{pos, negsuc}
use rustlette.Ranges.{int}

pub data Convertor : Type 0 where
  string_convertor path_convertor integer_convertor float_convertor uuid_convertor : Convertor

-- A value of a path parameter.
pub data Value : Type 0 where
  text_value : Text → Value
  int_value : ℕ → Value
  float_value : Text → Value
  uuid_value : Text → Value

unfoldable pub is_digit : ℕ → Bool
is_digit c = leb b'0' c && leb c b'9'

is_hex : ℕ → Bool
unfolding is_digit
is_hex c = is_digit c || (leb b'a' c && leb c b'f') || (leb b'A' c && leb c b'F')

-- `[0-9]+`
unfoldable pub is_number : Text → Bool
unfolding is_digit is_nil
is_number s = not (is_nil s) && all is_digit s

-- `n` hexadecimal digits, and what follows them
hex_digits : ℕ → Text → Option Text
hex_digits zero s = some s
hex_digits (suc n) [] = none
hex_digits (suc n) (c ∷ s) = let rest = hex_digits n s in if is_hex c then rest else none

-- `-?`
skip_dash : Text → Text
skip_dash [] = []
skip_dash (c ∷ s) = if c == b'-' then s else c ∷ s

groups : List ℕ → Text → Bool
unfolding hex_digits skip_dash is_hex is_nil
groups [] s = is_nil s
groups (n ∷ []) s = elim (hex_digits n s) [ none ↦ false | some rest ↦ is_nil rest ]
groups (n ∷ m ∷ ns) s = elim (hex_digits n s) [
  | none ↦ false
  | some rest ↦ groups (m ∷ ns) (skip_dash rest)
]

unfoldable pub accepts : Convertor → Text → Bool
unfolding is_nil is_number groups
accepts string_convertor s = not (is_nil s) && all (λ c. not (c == b'/')) s
accepts path_convertor s = all (λ c. not (c == 10)) s
accepts integer_convertor s = is_number s
accepts float_convertor s = elim (split_once b'.' s) [
  | none ↦ is_number s
  | some (whole, fraction) ↦ is_number whole && is_number fraction
]
accepts uuid_convertor s = groups (8 ∷ 4 ∷ 4 ∷ 4 ∷ 12 ∷ []) s

-- `int(value)` on digits
unfoldable pub value_from : ℕ → Text → ℕ
value_from n [] = n
value_from n (c ∷ s) = value_from (n * 10 + (c - b'0')) s

-- `uuid.UUID(value)`, as its hexadecimal digits in lower case
canonical : Text → Text
canonical [] = []
canonical (c ∷ s) =
    let rest = canonical s in
    if c == b'-' then rest else if leb b'A' c && leb c b'F' then (c + 32) ∷ rest else c ∷ rest

-- `str(value)` of a UUID
with_dashes : Text → Text
with_dashes s =
    take 8 s
    ++ (codes "-"
        ++ (take 4 (drop 8 s)
            ++ (codes "-"
                ++ (take 4 (drop 12 s)
                    ++ (codes "-" ++ (take 4 (drop 16 s) ++ (codes "-" ++ drop 20 s)))))))

-- `convertor.convert(value)` on a text that the expression matches; Python reads
-- integers of up to 4300 digits
unfoldable pub convert : Convertor → Text → Value
unfolding value_from canonical
convert string_convertor s = text_value s
convert path_convertor s = text_value s
convert integer_convertor s = int_value (value_from 0 s)
convert float_convertor s = float_value s
convert uuid_convertor s = uuid_value (canonical s)

-- `str(value)`, which is left out for a float
str_of : Value → Option Text
unfolding str with_dashes
str_of (text_value s) = some s
str_of (int_value n) = some (str n)
str_of (uuid_value u) = some (with_dashes u)
str_of (float_value s) = none

-- `int(value)`, which is left out for a float and a UUID, and the assertion on it
int_of : Value → Option ℕ
unfolding int
int_of (int_value n) = some n
int_of (text_value s) = elim (int s) [
  | none ↦ none
  | some i ↦ elim i [ pos n ↦ some n | negsuc n ↦ none ]
]
int_of _ = none

-- the text of `float(value)`; a UUID has no float
float_of : Value → Option Text
unfolding str
float_of (float_value s) = some s
float_of (text_value s) = some s
float_of (int_value n) = some (str n)
float_of (uuid_value u) = none

-- `convertor.to_string(value)`; `none` is an exception, or one of the conversions that are left out.
-- `float_text` prints the float of a text ("%0.20f" without its last zeros), and is `none` for one that is
-- refused and for a text that is no float.
module _ (float_text : Text → Option Text) where
  unfoldable pub to_string : Convertor → Value → Option Text
  unfolding is_nil str str_of int_of float_of
  to_string string_convertor value = elim (str_of value) [
    | none ↦ none
    | some s ↦ if contains_char b'/' s then none else if is_nil s then none else some s
  ]
  to_string path_convertor value = str_of value
  to_string integer_convertor value = elim (int_of value) [ none ↦ none | some n ↦ some (str n) ]
  to_string float_convertor value = elim (float_of value) [ none ↦ none | some s ↦ float_text s ]
  to_string uuid_convertor value = str_of value

-- `CONVERTOR_TYPES`
unfoldable pub convertor_types : Text → Option Convertor
unfolding text_eq
convertor_types name =
    if text_eq name (codes "str")
    then some string_convertor
    else if text_eq name (codes "path")
    then some path_convertor
    else if text_eq name (codes "int")
    then some integer_convertor
    else if text_eq name (codes "float")
    then some float_convertor
    else if text_eq name (codes "uuid")
    then some uuid_convertor
    else none
