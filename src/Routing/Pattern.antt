-- ===== src/Routing/Pattern.antt =====
-- rustlette/routing.py: `compile_path`, and the matching of the regular expression that it builds,
-- `^` literals and named groups `$`.
pub mod Matching
pub mod Formatted
pub mod Mounted
mod Tests
use rustlette.Prelude.{
  ℕ, zero, suc, ◌+◌, Bool, true, false, not, ◌&&◌, ◌||◌, Option, none, some, List, [], ◌∷◌, ◌++◌,
  Text, codes, text_eq, leb, ◌==◌, if◌then◌else◌, length, take, drop, starts_with, split, text_in,
  any,
}
use rustlette.Prelude.Exec.{Result, ok, err}
use rustlette.Routing.Convertors.{Convertor, string_convertor, accepts, convertor_types}

pub data Segment : Type 0 where
  literal : Text → Segment
  param : Text → Convertor → Segment

pub data CompileError : Type 0 where
  unknown_convertor : Text → CompileError
  duplicated_param : CompileError

is_word_start : ℕ → Bool
is_word_start c = (leb b'a' c && leb c b'z') || (leb b'A' c && leb c b'Z') || c == b'_'

is_word : ℕ → Bool
unfolding is_word_start
is_word c = is_word_start c || (leb b'0' c && leb c b'9')

-- the longest prefix of word characters, and what follows
word : Text → Text × Text
word [] = ([], [])
word (c ∷ s) = let (w, rest) = word s in if is_word c then (c ∷ w, rest) else ([], c ∷ s)

-- `[a-zA-Z_][a-zA-Z0-9_]*`
identifier : Text → Option (Text × Text)
unfolding word is_word
identifier [] = none
identifier (c ∷ s) =
    if is_word_start c then (let (w, rest) = word s in some (c ∷ w, rest)) else none

-- The end `}` of a parameter with its name and the name of its convertor.
closing : Text → Text → Text → Option (Text × Text × Text)
closing name convertor [] = none
closing name convertor (c ∷ rest) = if c == b'}' then some (name, convertor, rest) else none

-- `PARAM_REGEX` at the place behind a `{`: the name, the convertor's name ("str" if there is none)
-- and what follows the parameter
parameter : Text → Option (Text × Text × Text)
unfolding identifier closing
parameter s = elim (identifier s) [
  | none ↦ none
  | some (name, rest) ↦
      if starts_with rest (codes ":")
      then elim (identifier (drop 1 rest)) [
        | none ↦ none
        | some (convertor, rest') ↦ closing name convertor rest'
      ]
      else closing name (codes "str") rest
]

-- A piece of a path as `PARAM_REGEX.finditer` cuts it.
pub data Piece : Type 0 where
  character : ℕ → Piece
  parameter_piece : Text → Text → Piece

-- Each round takes a character or a parameter, so the length of the path is enough fuel.
pieces : ℕ → Text → List Piece
pieces zero path = []
pieces (suc fuel) [] = []
pieces (suc fuel) (c ∷ path) = elim (if c == b'{' then parameter path else none) [
  | none ↦ character c ∷ pieces fuel path
  | some (name, convertor, rest) ↦ parameter_piece name convertor ∷ pieces fuel rest
]

-- The loop of `compile_path`: the literal text since the last parameter is `pending`.
segments : List Piece → Text → Result CompileError (List Segment × Text)
segments [] pending = ok ([], pending)
segments (character c ∷ ps) pending = segments ps (pending ++ c ∷ [])
segments (parameter_piece name convertor ∷ ps) pending =
    let rest = segments ps [] in
    elim (convertor_types convertor) [
      | none ↦ err (unknown_convertor convertor)
      | some c ↦ elim rest [
        | err e ↦ err e
        | ok (more, tail) ↦ ok (literal pending ∷ param name c ∷ more, tail)
      ]
    ]

-- `param_convertors` with its keys in order
abbrev pub convertors : List Segment → List (Text × Convertor)
convertors [] = []
convertors (literal s ∷ more) = convertors more
convertors (param name c ∷ more) = (name, c) ∷ convertors more

has_duplicate : List (Text × Convertor) → Bool
has_duplicate [] = false
has_duplicate ((name, c) ∷ more) = any (λ i. text_eq name i.0) more || has_duplicate more

-- `path_format`
unfoldable pub format : List Segment → Text
format [] = []
format (literal s ∷ more) = s ++ format more
format (param name c ∷ more) = codes "{" ++ (name ++ (codes "}" ++ format more))

pub record Compiled : Type 0 where
  pub regex : List Segment
  pub path_format : Text
  pub param_convertors : List (Text × Convertor)

first_or_nil : List Text → Text
first_or_nil [] = []
first_or_nil (s ∷ more) = s

finish : Bool → List Segment → Text → Result CompileError Compiled
unfolding has_duplicate format first_or_nil
finish is_host parts tail =
    if has_duplicate (convertors parts)
    then err duplicated_param
    else ok (record {
      regex = parts ++ literal (if is_host then first_or_nil (split b':' tail) else tail) ∷ [];
      path_format = format parts ++ tail;
      param_convertors = convertors parts;
    })

finish_parts : Bool → Result CompileError (List Segment × Text) → Result CompileError Compiled
unfolding finish
finish_parts is_host (err e) = err e
finish_parts is_host (ok (parts, tail)) = finish is_host parts tail

unfoldable pub compile_path : Text → Result CompileError Compiled
unfolding pieces segments parameter finish_parts convertor_types
compile_path path =
    finish_parts (not (starts_with path (codes "/"))) (segments (pieces (length path) path) [])

-- `s` without the prefix `p`
pub strip_prefix : Text → Text → Option Text
strip_prefix [] s = some s
strip_prefix (a ∷ p) [] = none
strip_prefix (a ∷ p) (b ∷ s) = let rest = strip_prefix p s in if a == b then rest else none

-- `$`: at the end, or before a line's end that is the last character
at_end : Text → Bool
unfolding text_eq
at_end s = text_eq s [] || text_eq s (10 ∷ [])

module _ (c : Convertor) (name : Text) (continue : Text → Option (List (Text × Text))) where
  -- the group takes `n` characters, and `continue` matches the rest of the expression
  attempt : ℕ → Text → Option (List (Text × Text))
  unfolding accepts
  attempt n s =
      if accepts c (take n s)
      then elim (continue (drop n s)) [ none ↦ none | some found ↦ some ((name, take n s) ∷ found) ]
      else none

  -- `n` characters, or else fewer
  try_lengths : ℕ → Text → Option (List (Text × Text))
  unfolding attempt
  try_lengths zero s = attempt zero s
  try_lengths (suc n) s = elim (attempt (suc n) s) [
    | some found ↦ some found
    | none ↦ try_lengths n s
  ]

-- `re.match` with the groups by name
unfoldable pub match : List Segment → Text → Option (List (Text × Text))
unfolding at_end strip_prefix try_lengths
match [] s = if at_end s then some [] else none
match (literal t ∷ more) s = elim (strip_prefix t s) [ none ↦ none | some rest ↦ match more rest ]
match (param name c ∷ more) s = try_lengths c name (match more) (length s) s
