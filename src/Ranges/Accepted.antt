-- ===== src/Ranges/Accepted.antt =====
-- The ranges that the parser accepts lie in the file.
use mathlib.Core.List.{map}
use rustlette.Prelude.{
  ℕ, ◌≤◌, ◌<◌, ◌≡◌, ◌≢◌, false, some, List, [], ◌∷◌, Text, any, All, arith, Bool-cases,
  Option-cases, inl, inr, split_once, strip, split,
}
use rustlette.Prelude.Exec.{ok}
use rustlette.Prelude.Int.{ℤ, to_ℕ}
use rustlette.Ranges.{
  range_end, parse_part, collect, parse_ranges, merge_one, merge_from, merge, out_of_file,
  backwards, positions, check_ranges, parse_range_header,
}

-- a range that starts in a file of a size and does not end behind it
abbrev pub IsWithin : ℕ → ℕ × ℕ → Type 0
IsWithin size (start, end) = (start < size) × (start ≤ end) × (end ≤ size)

-- an end that the parser computes is at most the size
abbrev EndsBy : ℕ → ℤ × ℤ → Type 0
EndsBy size (start, end) = to_ℕ end ≤ size

range_end-EndsBy :
    (size : ℕ) (start_str end_str : Text) (e : ℤ)
    → range_end size start_str end_str ≡ some e
    → to_ℕ e ≤ size
unfolding range_end
range_end-EndsBy size start_str end_str e h = ground arith

parse_part-EndsBy :
    (size : ℕ) (part : Text) (r : ℤ × ℤ) → parse_part size part ≡ some r → EndsBy size r
unfolding parse_part
parse_part-EndsBy size part (s, e) h = elim (Option-cases (split_once b'-' part)) [
  | inl missing ↦ ground arith
  | inr ((start_str, end_str), found) ↦
      ground (arith, range_end-EndsBy size (strip start_str) (strip end_str) e)
]

collect-EndsBy : (size : ℕ) (parts : List Text) → All (EndsBy size) (collect size parts)
unfolding collect
collect-EndsBy size [] = tt
collect-EndsBy size (part ∷ parts) = elim (Option-cases (parse_part size (strip part))) [
  | inl ignored ↦ rw (ignored, collect) (collect-EndsBy size parts)
  | inr (r, parsed) ↦
      rw (parsed, collect) (parse_part-EndsBy size (strip part) r parsed, collect-EndsBy size parts)
]

merge_one-IsWithin :
    (size : ℕ) (r : ℕ × ℕ) (result : List (ℕ × ℕ))
    → IsWithin size r
    → All (IsWithin size) result
    → All (IsWithin size) (merge_one r result)
unfolding merge_one
merge_one-IsWithin size (start, end) [] h k = (h, tt)
merge_one-IsWithin size (start, end) ((p_start, p_end) ∷ result) h (k, ks) =
    ground (arith, merge_one-IsWithin size (start, end) result h ks)

merge_from-IsWithin :
    (size : ℕ) (result ranges : List (ℕ × ℕ))
    → All (IsWithin size) result
    → All (IsWithin size) ranges
    → All (IsWithin size) (merge_from result ranges)
unfolding merge_from
merge_from-IsWithin size result [] h k = h
merge_from-IsWithin size result (r ∷ ranges) h (k, ks) =
    merge_from-IsWithin size (merge_one r result) ranges (merge_one-IsWithin size r result k h) ks

merge-IsWithin :
    (size : ℕ) (ranges : List (ℕ × ℕ))
    → All (IsWithin size) ranges
    → All (IsWithin size) (merge ranges)
unfolding merge
merge-IsWithin size [] k = tt
merge-IsWithin size (r ∷ []) k = k
merge-IsWithin size (r ∷ s ∷ ranges) k = merge_from-IsWithin size [] (r ∷ s ∷ ranges) tt k

positions-IsWithin :
    (size : ℕ) (ranges : List (ℤ × ℤ))
    → any (out_of_file size) ranges ≡ false
    → any backwards ranges ≡ false
    → All (EndsBy size) ranges
    → All (IsWithin size) (map positions ranges)
unfolding out_of_file backwards positions
positions-IsWithin size [] i b k = tt
positions-IsWithin size ((s, e) ∷ ranges) i b (k, ks) =
    (ground arith, positions-IsWithin size ranges (ground arith) (ground arith) ks)

-- no list comes out empty
merge_one-ne-nil : (r : ℕ × ℕ) (result : List (ℕ × ℕ)) → merge_one r result ≢ []
unfolding merge_one
merge_one-ne-nil (start, end) [] = cc
merge_one-ne-nil (start, end) ((p_start, p_end) ∷ result) = ground arith

merge_from-ne-nil : (result ranges : List (ℕ × ℕ)) → result ≢ [] → merge_from result ranges ≢ []
unfolding merge_from
merge_from-ne-nil result [] h = h
merge_from-ne-nil result (r ∷ ranges) h =
    merge_from-ne-nil (merge_one r result) ranges (merge_one-ne-nil r result)

merge-ne-nil : (r : ℕ × ℕ) (ranges : List (ℕ × ℕ)) → merge (r ∷ ranges) ≢ []
unfolding merge merge_from
merge-ne-nil r [] = cc
merge-ne-nil r (s ∷ ranges) =
    merge_from-ne-nil (merge_one s (merge_one r [])) ranges (merge_one-ne-nil s (merge_one r []))

check_ranges-IsWithin :
    (size : ℕ) (ranges : List (ℤ × ℤ)) {result : List (ℕ × ℕ)}
    → All (EndsBy size) ranges
    → check_ranges size ranges ≡ ok result
    → (result ≢ []) × All (IsWithin size) result
unfolding check_ranges
check_ranges-IsWithin size [] k h = absurd (ground arith)
check_ranges-IsWithin size (r ∷ ranges) {result} k h =
    elim (Bool-cases (any (out_of_file size) (r ∷ ranges))) [
      | inl outside ↦ absurd (ground arith)
      | inr inside ↦ elim (Bool-cases (any backwards (r ∷ ranges))) [
        | inl wrong ↦ absurd (ground arith)
        | inr forward ↦
            let same : merge (map positions (r ∷ ranges)) ≡ result = ground arith in
            rw (← same) (
              merge-ne-nil (positions r) (map positions ranges),
              merge-IsWithin size (map positions (r ∷ ranges))
                  (positions-IsWithin size (r ∷ ranges) inside forward k),
            )
      ]
    ]

-- A Range header that is accepted gives at least one range, and each of them starts in the file,
-- does not end before it starts and does not end behind the file.
pub parse_range_header-IsWithin :
    (http_range : Text) (size : ℕ) (ranges : List (ℕ × ℕ))
    → parse_range_header http_range size ≡ ok ranges
    → (ranges ≢ []) × All (IsWithin size) ranges
unfolding parse_range_header parse_ranges
parse_range_header-IsWithin http_range size ranges h =
    elim (Option-cases (split_once b'=' http_range)) [
      | inl missing ↦ absurd (ground arith)
      | inr ((units, range), found) ↦
          check_ranges-IsWithin size (parse_ranges range size)
            (collect-EndsBy size (split b',' range)) (ground arith)
    ]
