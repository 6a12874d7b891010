-- ===== src/Ranges.antt =====
-- rustlette/responses.py: the Range header, `_parse_range_header` and `_parse_ranges` of
-- `FileResponse`. A range is a pair of a start and an end that it does not include.
pub mod Merge
pub mod Accepted
mod Tests
use mathlib.Core.List.{map, foldl}
use rustlette.Prelude.{
  is_nil, lower_ascii, ℕ, zero, suc, ◌+◌, ◌-◌, ◌*◌, min, max, Bool, true, false, not, ◌&&◌, ◌||◌,
  Option, none, some, List, [], ◌∷◌, ◌++◌, Text, codes, text_eq, contains_char, split, split_once,
  strip, leb, ltb, ◌==◌, if◌then◌else◌, any, length,
}
use rustlette.Prelude.Exec.{Result, ok, err}
use rustlette.Prelude.Int.{ℤ, pos, negsuc, neg, minus, incr, ltb_ℕ, ltb_ℤ, to_ℕ}

pub data RangeError : Type 0 where
  malformed_range_header : Text → RangeError
  range_not_satisfiable : ℕ → RangeError

-- The digits of `int(s)`: single underscores may stand between two digits. `seen` says whether a
-- digit stands just before.
int_digits : ℕ → Bool → Text → Option ℕ
int_digits n seen [] = if seen then some n else none
int_digits n seen (c ∷ s) = elim (leb b'0' c && leb c b'9') [
  | true ↦ int_digits (n * 10 + (c - b'0')) true s
  | false ↦ elim (c == b'_' && seen) [ true ↦ int_digits n false s | false ↦ none ]
]

-- how many digits a text has; `int` refuses more than 4300
count_digits : Text → ℕ
count_digits [] = 0
count_digits (c ∷ s) =
    let rest = count_digits s in if leb b'0' c && leb c b'9' then suc rest else rest

unsigned : Text → Option ℕ
unfolding int_digits count_digits
unsigned s = if ltb 4300 (count_digits s) then none else int_digits 0 false s

signed : Text → Option ℤ
unfolding unsigned
signed [] = none
signed (c ∷ s) =
    if c == b'-'
    then elim (unsigned s) [ none ↦ none | some n ↦ some (neg n) ]
    else if c == b'+'
    then elim (unsigned s) [ none ↦ none | some n ↦ some (pos n) ]
    else elim (unsigned (c ∷ s)) [ none ↦ none | some n ↦ some (pos n) ]

-- `int(s)` on a text of characters below U+0100; `none` is `ValueError`
unfoldable pub int : Text → Option ℤ
unfolding signed
int s = signed (strip s)

-- `int(end_str) + 1 if start_str and end_str and int(end_str) < file_size else file_size`
range_end : ℕ → Text → Text → Option ℤ
unfolding is_nil int
range_end file_size start_str end_str =
    if is_nil start_str || is_nil end_str then some (pos file_size) else elim (int end_str) [
      | none ↦ none
      | some e ↦ some (if ltb_ℕ e file_size then incr e else pos file_size)
    ]

-- `int(start_str) if start_str else file_size - int(end_str)`
range_start : ℕ → Text → Text → Option ℤ
unfolding is_nil int
range_start file_size start_str end_str =
    if is_nil start_str
    then elim (int end_str) [ none ↦ none | some e ↦ some (minus file_size e) ]
    else int start_str

-- One part of the header's list; `none` is a part that is ignored.
parse_part : ℕ → Text → Option (ℤ × ℤ)
unfolding range_end range_start
parse_part file_size part = elim (split_once b'-' part) [
  | none ↦ none
  | some (start_str, end_str) ↦
      if text_eq part (codes "-")
      then none
      else elim (range_start file_size (strip start_str) (strip end_str)) [
        | none ↦ none
        | some start ↦ elim (range_end file_size (strip start_str) (strip end_str)) [
          | none ↦ none
          | some end ↦ some (start, end)
        ]
      ]
]

-- the loop of `_parse_ranges`
collect : ℕ → List Text → List (ℤ × ℤ)
collect file_size [] = []
collect file_size (part ∷ parts) =
    let rest = collect file_size parts in
    elim (parse_part file_size (strip part)) [ none ↦ rest | some r ↦ r ∷ rest ]

unfoldable pub parse_ranges : Text → ℕ → List (ℤ × ℤ)
unfolding collect parse_part
parse_ranges range file_size = collect file_size (split b',' range)

-- the inner loop of the merge, for one range and the `result` so far
unfoldable pub merge_one : ℕ × ℕ → List (ℕ × ℕ) → List (ℕ × ℕ)
merge_one (start, end) [] = (start, end) ∷ []
merge_one (start, end) ((p_start, p_end) ∷ result) =
    let rest = merge_one (start, end) result in
    if ltb p_end start
    then (p_start, p_end) ∷ rest
    else if ltb end p_start
    then (start, end) ∷ (p_start, p_end) ∷ result
    else (min start p_start, max end p_end) ∷ result

unfoldable pub merge_from : List (ℕ × ℕ) → List (ℕ × ℕ) → List (ℕ × ℕ)
unfolding merge_one
merge_from result [] = result
merge_from result (r ∷ ranges) = merge_from (merge_one r result) ranges

unfoldable pub merge : List (ℕ × ℕ) → List (ℕ × ℕ)
unfolding merge_from
merge (r ∷ []) = r ∷ []
merge ranges = merge_from [] ranges

-- `not (0 <= start < file_size)`
out_of_file : ℕ → ℤ × ℤ → Bool
out_of_file file_size (start, end) = not (not (ltb_ℤ start (pos 0)) && ltb_ℕ start file_size)

-- `start > end`
backwards : ℤ × ℤ → Bool
backwards (start, end) = ltb_ℤ end start

-- The checks passed, no start or end is negative.
positions : ℤ × ℤ → ℕ × ℕ
positions (start, end) = (to_ℕ start, to_ℕ end)

check_ranges : ℕ → List (ℤ × ℤ) → Result RangeError (List (ℕ × ℕ))
unfolding out_of_file backwards positions merge
check_ranges file_size [] =
    err (malformed_range_header (codes "Range header: range must be requested"))
check_ranges file_size ranges =
    if any (out_of_file file_size) ranges
    then err (range_not_satisfiable file_size)
    else if any backwards ranges
    then err (malformed_range_header (codes "Range header: start must be less than end"))
    else ok (merge (map positions ranges))

-- `units.strip().lower() == "bytes"`: the letters of "bytes" have no other capital forms
unfoldable pub parse_range_header : Text → ℕ → Result RangeError (List (ℕ × ℕ))
unfolding check_ranges parse_ranges lower_ascii
parse_range_header http_range file_size = elim (split_once b'=' http_range) [
  | none ↦ err (malformed_range_header (codes "Malformed range header."))
  | some (units, range) ↦
      if text_eq (map lower_ascii (strip units)) (codes "bytes")
      then check_ranges file_size (parse_ranges range file_size)
      else err (malformed_range_header (codes "Only support bytes range"))
]
