-- ===== src/Ranges/Merge.antt =====
-- The merge of the requested ranges.
use rustlette.Prelude.{
  ℕ, ◌≤◌, ◌<◌, ◌≡◌, refl, ◌∙◌, Bool, true, false, ◌&&◌, ◌||◌, List, [], ◌∷◌, leb, ltb, any, All,
  arith, max, min,
}
use rustlette.Ranges.{merge_one, merge_from, merge}

-- whether a range holds a position of the file
abbrev pub holds : ℕ → ℕ × ℕ → Bool
holds p (start, end) = leb start p && ltb p end

abbrev pub covers : ℕ → List (ℕ × ℕ) → Bool
covers p = any (holds p)

abbrev pub IsForward : ℕ × ℕ → Type 0
IsForward (start, end) = start ≤ end

merge_one-IsForward :
    (r : ℕ × ℕ) (result : List (ℕ × ℕ))
    → IsForward r
    → All IsForward result
    → All IsForward (merge_one r result)
unfolding merge_one
merge_one-IsForward (start, end) [] h k = (h, tt)
merge_one-IsForward (start, end) ((p_start, p_end) ∷ result) h (k, ks) =
    ground (arith, merge_one-IsForward (start, end) result h ks)

covers-merge_one :
    (p : ℕ) (r : ℕ × ℕ) (result : List (ℕ × ℕ))
    → IsForward r
    → All IsForward result
    → covers p (merge_one r result) ≡ (holds p r || covers p result)
unfolding merge_one
covers-merge_one p (start, end) [] h k = refl
covers-merge_one p (start, end) ((p_start, p_end) ∷ result) h (k, ks) =
    ground (arith, covers-merge_one p (start, end) result h ks)

or_swap : (a b c : Bool) → (a || (b || c)) ≡ (b || (a || c))
or_swap a b c = ground arith

covers-merge_from :
    (p : ℕ) (result ranges : List (ℕ × ℕ))
    → All IsForward result
    → All IsForward ranges
    → covers p (merge_from result ranges) ≡ (covers p ranges || covers p result)
unfolding merge_from
covers-merge_from p result [] h k = refl
covers-merge_from p result (r ∷ ranges) h (k, ks) =
    covers-merge_from p (merge_one r result) ranges (merge_one-IsForward r result k h) ks
    ∙ ground (arith, covers-merge_one p r result k h)

covers-merge_from_nil :
    (p : ℕ) (ranges : List (ℕ × ℕ))
    → All IsForward ranges
    → covers p (merge_from [] ranges) ≡ covers p ranges
covers-merge_from_nil p ranges k = covers-merge_from p [] ranges tt k ∙ ground arith

-- The merged ranges hold exactly the positions that the requested ranges hold, if no requested range
-- ends before it starts: no byte is lost and none is added.
pub covers-merge :
    (p : ℕ) (ranges : List (ℕ × ℕ))
    → All IsForward ranges
    → covers p (merge ranges) ≡ covers p ranges
unfolding merge
covers-merge p [] k = refl
covers-merge p (r ∷ []) k = refl
covers-merge p (r ∷ s ∷ ranges) k = covers-merge_from_nil p (r ∷ s ∷ ranges) k

-- Two ranges of the list hold a position both.
abbrev pub overlaps : List (ℕ × ℕ) → Bool
overlaps [] = false
overlaps ((start, end) ∷ l) = any (λ r. ltb (max start r.0) (min end r.1)) l || overlaps l

-- A range that reaches from one earlier range into the next is merged with the first one only: the
-- result still holds two ranges that overlap, whenever the second range starts behind the first.
pub merge-overlaps :
    (a b c d s e : ℕ)
    → a ≤ b
    → b < c
    → c < d
    → s ≤ b
    → c < e
    → overlaps (merge ((a, b) ∷ (c, d) ∷ (s, e) ∷ [])) ≡ true
unfolding merge
merge-overlaps a b c d s e h₁ h₂ h₃ h₄ h₅ = ground arith
