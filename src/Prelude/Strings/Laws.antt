-- ===== src/Prelude/Strings/Laws.antt =====
-- What the methods of `str` do on texts that hold no separator and no space.
use Prim.Native.Nat.{ℕ}
use mathlib.Core.Path.{◌≡◌, refl, ap, sym, ◌∙◌}
use mathlib.Core.Bool.{Bool, true, false, not, ◌&&◌}
use mathlib.Core.List.{
  [], ◌∷◌, ◌++◌, reverse, reverse-append, reverse-cons, reverse-reverse, append_assoc, append-nil,
}
use mathlib.Core.Option.{some}
use native.Mathlib.Omega.{arith}
use mathlib.Core.Logic.{inl, inr}
use rustlette.Prelude.Tests.{◌==◌, Bool-cases}
use rustlette.Prelude.Lists.{all}
use rustlette.Prelude.Strings.{
  Text, split_from, split, split_once, is_space, drop_left, drop_right, strip,
}

module _ (c : ℕ) where
  -- `c not in s`
  abbrev pub lacks : Text → Bool
  lacks = all (λ a. not (a == c))

  split_from-append :
      (cur a s : Text)
      → lacks a ≡ true
      → split_from c cur (a ++ c ∷ s) ≡ (cur ++ a) ∷ split_from c [] s
  unfolding split_from
  split_from-append cur [] s h =
      let same : (c == c) ≡ true = ground arith in
      rw (split_from, same) (ap (λ l. l ∷ split_from c [] s) (sym (append-nil cur)))
  split_from-append cur (x ∷ a) s h =
      let other : (x == c) ≡ false = ground arith in
      rw (split_from, other)
        (split_from-append (cur ++ x ∷ []) a s (ground arith) ∙ simp append_assoc)

  split_from_last : (cur a : Text) → lacks a ≡ true → split_from c cur a ≡ (cur ++ a) ∷ []
  unfolding split_from
  split_from_last cur [] h = simp append-nil
  split_from_last cur (x ∷ a) h =
      let other : (x == c) ≡ false = ground arith in
      rw (split_from, other) (split_from_last (cur ++ x ∷ []) a (ground arith) ∙ simp append_assoc)

  pub split-append : (a s : Text) → lacks a ≡ true → split c (a ++ c ∷ s) ≡ a ∷ split c s
  unfolding split
  split-append a s h = split_from-append [] a s h

  pub split_last : (a : Text) → lacks a ≡ true → split c a ≡ a ∷ []
  unfolding split
  split_last a h = split_from_last [] a h

  pub split_once-append : (a s : Text) → lacks a ≡ true → split_once c (a ++ c ∷ s) ≡ some (a, s)
  unfolding split_once
  split_once-append [] s h = ground arith
  split_once-append (x ∷ a) s h =
      let other : (x == c) ≡ false = ground arith in
      rw (split_once, other, split_once-append a s (ground arith)) refl

-- a text with no space
abbrev pub has_no_space : Text → Bool
has_no_space = all (λ a. not (is_space a))

pub all-append_both : (p : ℕ → Bool) (s t : Text) → all p (s ++ t) ≡ all p s && all p t
all-append_both p [] t = refl
all-append_both p (a ∷ s) t = ground (arith, all-append_both p s t)

all-reverse : (p : ℕ → Bool) (s : Text) → all p (reverse s) ≡ all p s
all-reverse p [] = refl
all-reverse p (a ∷ s) =
    rw (reverse-cons a s) (ground (arith, all-append_both p (reverse s) (a ∷ []), all-reverse p s))

drop_left_none : (s : Text) → has_no_space s ≡ true → drop_left is_space s ≡ s
unfolding drop_left
drop_left_none [] h = refl
drop_left_none (a ∷ s) h = let kept : is_space a ≡ false = ground arith in rw (drop_left, kept) refl

pub strip_none : (s : Text) → has_no_space s ≡ true → strip s ≡ s
unfolding strip drop_right
strip_none s h =
    rw (drop_left_none s h, drop_left_none (reverse s) (all-reverse (λ a. not (is_space a)) s ∙ h))
      (reverse-reverse s)

pub strip_leading : (s : Text) → strip (b' ' ∷ s) ≡ strip s
unfolding strip drop_left is_space
strip_leading s = refl

module _ (p : ℕ → Bool) (b : ℕ) (kept : p b ≡ false) where
  drop_left-append : (v w : Text) → drop_left p (v ++ b ∷ w) ≡ drop_left p v ++ b ∷ w
  unfolding drop_left
  drop_left-append [] w = rw (drop_left, kept) refl
  drop_left-append (a ∷ v) w = elim (Bool-cases (p a)) [
    | inl dropped ↦ rw (drop_left, dropped) (drop_left-append v w)
    | inr stays ↦ rw (drop_left, stays) refl
  ]

  drop_right-append : (u t : Text) → drop_right p (u ++ b ∷ t) ≡ u ++ b ∷ drop_right p t
  unfolding drop_right
  drop_right-append u t =
      let turned : reverse (u ++ b ∷ t) ≡ reverse t ++ b ∷ reverse u =
        reverse-append u (b ∷ t)
        ∙ ap (λ s. s ++ reverse u) (reverse-cons b t)
        ∙ append_assoc (reverse t) (b ∷ []) (reverse u) in
      ap (λ s. reverse (drop_left p s)) turned
      ∙ ap reverse (drop_left-append (reverse t) (reverse u))
      ∙ reverse-append (drop_left p (reverse t)) (b ∷ reverse u)
      ∙ ap (λ s. s ++ reverse (drop_left p (reverse t)))
          (reverse-cons b (reverse u) ∙ ap (λ s. s ++ b ∷ []) (reverse-reverse u))
      ∙ append_assoc u (b ∷ []) (reverse (drop_left p (reverse t)))

-- Spaces are taken off behind the last other character only, if the first one is no space.
pub strip_between :
    (a : ℕ) (s : Text) (b : ℕ) (t : Text)
    → is_space a ≡ false
    → is_space b ≡ false
    → strip (a ∷ (s ++ b ∷ t)) ≡ a ∷ (s ++ b ∷ drop_right is_space t)
unfolding strip drop_left
strip_between a s b t first last =
    rw (strip, drop_left, first) (drop_right-append is_space b last (a ∷ s) t)
