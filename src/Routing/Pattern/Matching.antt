-- ===== src/Routing/Pattern/Matching.antt =====
-- The matcher decides the language of the pattern.
use rustlette.Prelude.{
  subst, ℕ, zero, suc, ◌≤◌, ◌≡◌, ◌≢◌, refl, ap, ◌⊎◌, inl, inr, true, Option, none, some, List, [],
  ◌∷◌, ◌++◌, Text, text_eq, length, take, drop, length-append, arith, Option-cases,
}
use rustlette.Routing.Convertors.{Convertor, accepts}
use rustlette.Routing.Pattern.{
  Segment, literal, param, strip_prefix, at_end, attempt, try_lengths, match,
}

-- The texts of a pattern with the values of its parameters in order.
pub data Spells : List Segment → List (Text × Text) → Text → Type 0 where
  ended : Spells [] [] []
  line_ended : Spells [] [] (10 ∷ [])
  spelled :
      (t : Text) {more : List Segment} {values : List (Text × Text)} {s whole : Text}
      → whole ≡ t ++ s
      → Spells more values s
      → Spells (literal t ∷ more) values whole
  filled :
      (name : Text) (c : Convertor) (v : Text) {more : List Segment} {values : List (Text × Text)}
      {s whole : Text}
      → accepts c v ≡ true
      → whole ≡ v ++ s
      → Spells more values s
      → Spells (param name c ∷ more) ((name, v) ∷ values) whole

pub strip_prefix_complete : (p s : Text) → strip_prefix p (p ++ s) ≡ some s
unfolding strip_prefix
strip_prefix_complete [] s = refl
strip_prefix_complete (a ∷ p) s = ground (arith, strip_prefix_complete p s)

take-length : (v s : Text) → take (length v) (v ++ s) ≡ v
take-length [] s = refl
take-length (a ∷ v) s = ap (λ r. a ∷ r) (take-length v s)

drop-length : (v s : Text) → drop (length v) (v ++ s) ≡ s
drop-length [] s = refl
drop-length (a ∷ v) s = drop-length v s

module _ (c : Convertor) (name : Text) (continue : Text → Option (List (Text × Text))) where
  try_lengths_complete :
      (n k : ℕ) (s : Text)
      → k ≤ n
      → attempt c name continue k s ≢ none
      → try_lengths c name continue n s ≢ none
  unfolding try_lengths
  try_lengths_complete zero k s le h =
      let e : k ≡ 0 = omega arith in subst (λ j. attempt c name continue j s ≢ none) e h
  try_lengths_complete (suc n) k s le h = elim (Option-cases (attempt c name continue (suc n) s)) [
    | inl missed ↦
        let split : (k ≤ n) ⊎ (k ≡ suc n) = grind arith in
        rw (missed, try_lengths)
          (elim split [
            | inl less ↦ try_lengths_complete n k s less h
            | inr same ↦ absurd (subst (λ j. attempt c name continue j s ≢ none) same h missed)
          ])
    | inr (found, hit) ↦ rw (hit, try_lengths) (cc)
  ]

attempt_complete :
    (c : Convertor) (name : Text) (continue : Text → Option (List (Text × Text))) (v s : Text)
    → accepts c v ≡ true
    → continue s ≢ none
    → attempt c name continue (length v) (v ++ s) ≢ none
unfolding attempt
attempt_complete c name continue v s fits h =
    rw (take-length v s, drop-length v s, fits) (ground arith)

-- A text that the pattern spells is matched.
pub match_complete :
    {pattern : List Segment} {s : Text} {values : List (Text × Text)}
    → Spells pattern values s
    → match pattern s ≢ none
unfolding match at_end text_eq
match_complete ended = cc
match_complete line_ended = cc
match_complete (spelled t {more} {s} e h) =
    rw (e, strip_prefix_complete t s, match) (match_complete h)
match_complete (filled name c v {more} {s} fits e h) = rw e (
    try_lengths_complete c name (match more) (length (v ++ s)) (length v) (v ++ s)
      (omega (arith, length-append v s))
      (attempt_complete c name (match more) v s fits (match_complete h)))
