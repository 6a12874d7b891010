-- ===== src/Routing/Scope/RoutePath.antt =====
-- The path that is left for the routes below a root path.
use rustlette.Prelude.{
  ℕ, ◌≡◌, refl, ap, ◌∙◌, true, false, [], ◌∷◌, ◌++◌, Text, text_eq, text_eq_iff, starts_with,
  length, drop, arith, Bool-cases, inl, inr,
}
use rustlette.Routing.Scope.{Scope, get_route_path}

starts_with-append : (p s : Text) → starts_with (p ++ s) p ≡ true
unfolding starts_with
starts_with-append [] [] = refl
starts_with-append [] (c ∷ s) = refl
starts_with-append (a ∷ p) s = ground (arith, starts_with-append p s)

drop_append : (p s : Text) → drop (length p) (p ++ s) ≡ s
drop_append [] s = refl
drop_append (a ∷ p) s = drop_append p s

append-ne_self : (p : Text) (c : ℕ) (s : Text) → text_eq (p ++ c ∷ s) p ≡ false
unfolding text_eq
append-ne_self [] c s = refl
append-ne_self (a ∷ p) c s = ground (arith, append-ne_self p c s)

-- Where the path is the root path followed by a path that begins with "/", that path is what the
-- routes are matched against.
pub get_route_path_below :
    (s : Scope) (rest : Text) → s.path ≡ s.root_path ++ b'/' ∷ rest → get_route_path s ≡ b'/' ∷ rest
unfolding get_route_path
get_route_path_below s rest h = elim (Bool-cases (text_eq s.root_path [])) [
  | inl empty ↦
      let e : s.root_path ≡ [] = (text_eq_iff s.root_path []).0 empty in
      rw empty (h ∙ ap (λ r. r ++ b'/' ∷ rest) e)
  | inr other ↦ rw other (
      rw h (
        rw (
          starts_with-append s.root_path (b'/' ∷ rest),
          append-ne_self s.root_path b'/' rest,
          drop_append s.root_path (b'/' ∷ rest),
        )))
]
