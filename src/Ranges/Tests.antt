-- ===== src/Ranges/Tests.antt =====
-- Runs of the Range header's parser, and its theorems at concrete inputs.
use rustlette.Prelude.{ℕ, ◌≡◌, refl, List, [], ◌∷◌, codes, text_eq, split, split_once, strip}
use rustlette.Prelude.{All, arith, ◌≢◌}
use rustlette.Ranges.Merge.{covers, covers-merge}
use rustlette.Ranges.Accepted.{IsWithin, parse_range_header-IsWithin}
use rustlette.Prelude.Exec.{ok, err}
use rustlette.Ranges.{range_not_satisfiable, parse_range_header, merge}

merged : parse_range_header (codes "bytes=0-4, 2-8,-3") 20 ≡ ok ((0, 9) ∷ (17, 20) ∷ [])
unfolding parse_range_header text_eq split split_once strip
merged = refl

-- an end before the start by one is accepted, as an empty range
empty_range : parse_range_header (codes "bytes=5-4") 20 ≡ ok ((5, 5) ∷ [])
unfolding parse_range_header text_eq split split_once strip
empty_range = refl

-- a suffix that is longer than the file
long_suffix : parse_range_header (codes "bytes=-30") 20 ≡ err (range_not_satisfiable 20)
unfolding parse_range_header text_eq split split_once strip
long_suffix = refl

-- the branch of the merge that inserts a range before an earlier one
inserted : merge ((10, 15) ∷ (0, 5) ∷ []) ≡ (0, 5) ∷ (10, 15) ∷ []
unfolding merge
inserted = refl

abbrev answer : List (ℕ × ℕ)
answer = (0, 9) ∷ (17, 20) ∷ []

parse_range_header-IsWithin_example : (answer ≢ []) × All (IsWithin 20) answer
parse_range_header-IsWithin_example =
    parse_range_header-IsWithin (codes "bytes=0-4, 2-8,-3") 20 answer merged

covers-merge_example : covers 7 (merge ((0, 5) ∷ (2, 9) ∷ [])) ≡ covers 7 ((0, 5) ∷ (2, 9) ∷ [])
covers-merge_example = covers-merge 7 ((0, 5) ∷ (2, 9) ∷ []) (omega arith)
