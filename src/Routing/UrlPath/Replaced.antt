-- ===== src/Routing/UrlPath/Replaced.antt =====
-- What the replacement of a placeholder does to texts and to placeholders.
use rustlette.Prelude.{
  zero, suc, ◌-◌, ◌≡◌, refl, ap, ◌∙◌, subst, true, false, not, [], ◌∷◌, ◌++◌, append_assoc, Text,
  text_eq, text_eq_iff, contains_text, starts_with, length, ◌==◌, arith, Bool-cases, inl, inr,
}
use rustlette.Prelude.Strings.Laws.{lacks, all-append_both}
use rustlette.Routing.UrlPath.{replace, placeholder}

module _ (key new : Text) where
  -- `replace` passes over a text with no brace
  pub replace-append :
      (a s : Text)
      → lacks b'{' a ≡ true
      → replace zero (placeholder key) new (a ++ s) ≡ a ++ replace zero (placeholder key) new s
  unfolding replace placeholder starts_with
  replace-append [] s h = refl
  replace-append (c ∷ a) s h =
      let other : (c == b'{') ≡ false = ground arith in
      rw (replace, other) (ap (λ r. c ∷ r) (replace-append a s (ground arith)))

  replace_skip : (old x s : Text) → replace (length x) old new (x ++ s) ≡ replace zero old new s
  unfolding replace
  replace_skip old [] s = refl
  replace_skip old (c ∷ x) s = replace_skip old x s

starts_with_self : (p s : Text) → starts_with (p ++ s) p ≡ true
unfolding starts_with
starts_with_self [] s = refl
starts_with_self (c ∷ p) s = ground (arith, starts_with_self p s)

pub replace-placeholder :
    (key new s : Text)
    → replace zero (placeholder key) new (placeholder key ++ s)
      ≡ new ++ replace zero (placeholder key) new s
unfolding replace placeholder
replace-placeholder key new s =
    let x = key ++ b'}' ∷ [] in
    let count : suc (length x) - 1 ≡ length x = omega arith in
    rw (starts_with_self x s, count) (ap (λ r. new ++ r) (replace_skip key new (b'{' ∷ x) x s))

-- Two names that end in a brace and are the same up to there are the same.
eq_of_starts_with :
    (name key s : Text)
    → lacks b'}' name ≡ true
    → lacks b'}' key ≡ true
    → starts_with (name ++ b'}' ∷ s) (key ++ b'}' ∷ []) ≡ true
    → name ≡ key
unfolding starts_with
eq_of_starts_with [] [] s h h' e = refl
eq_of_starts_with [] (c ∷ key) s h h' e = ground arith
eq_of_starts_with (c ∷ name) [] s h h' e = ground arith
eq_of_starts_with (c ∷ name) (d ∷ key) s h h' e =
    let same : c ≡ d = ground arith in
    let rest = eq_of_starts_with name key s (ground arith) (ground arith) (ground arith) in
    ground (arith, same, rest)

pub replace-other :
    (name key new s : Text)
    → text_eq name key ≡ false
    → lacks b'{' name ≡ true
    → lacks b'}' name ≡ true
    → lacks b'}' key ≡ true
    → replace zero (placeholder key) new (placeholder name ++ s)
      ≡ placeholder name ++ replace zero (placeholder key) new s
unfolding replace placeholder starts_with
replace-other name key new s other open_free close_free key_free =
    let x = name ++ b'}' ∷ [] in
    let passed : lacks b'{' x ≡ true =
      all-append_both (λ a. not (a == b'{')) name (b'}' ∷ []) ∙ ground (arith, open_free) in
    elim (Bool-cases (starts_with (x ++ s) (key ++ b'}' ∷ []))) [
      | inl hit ↦
          let regrouped =
            subst (λ t. starts_with t (key ++ b'}' ∷ []) ≡ true) (append_assoc name (b'}' ∷ []) s)
              hit in
          let same = eq_of_starts_with name key s close_free key_free regrouped in
          absurd (ground (arith, (text_eq_iff name key).1 same, other))
      | inr missed ↦ rw missed (ap (λ r. b'{' ∷ r) (replace-append key new x s passed))
    ]

pub contains_text-after :
    (p a s : Text) → contains_text p s ≡ true → contains_text p (a ++ s) ≡ true
unfolding contains_text
contains_text-after p [] s h = h
contains_text-after p (c ∷ a) s h = ground (arith, contains_text-after p a s h)

pub contains_text-placeholder :
    (key s : Text) → contains_text (placeholder key) (placeholder key ++ s) ≡ true
unfolding contains_text placeholder starts_with
contains_text-placeholder key s = ground (arith, starts_with_self (key ++ b'}' ∷ []) s)
