-- ===== src/Url/Cutting.antt =====
-- What the cuts of `urlsplit` do on texts that hold no separator.
use mathlib.Core.List.{map}
use rustlette.Prelude.{
  lower_ascii, ℕ, ◌≡◌, refl, ap, ◌∙◌, Bool, true, false, not, ◌&&◌, none, [], ◌∷◌, ◌++◌, append-nil,
  Text, split_once, all, keep, leb, ◌==◌, arith,
}
use rustlette.Prelude.Strings.Laws.{lacks, split_once-append}
use rustlette.Url.{cut, span, before}

pub keep-all : (p : ℕ → Bool) (s : Text) → all p s ≡ true → keep p s ≡ s
keep-all p [] h = refl
keep-all p (c ∷ s) h = ground (arith, keep-all p s)

pub split_once-none : (c : ℕ) (s : Text) → lacks c s ≡ true → split_once c s ≡ none
unfolding split_once
split_once-none c [] h = refl
split_once-none c (a ∷ s) h =
    let other : (a == c) ≡ false = ground arith in
    rw (split_once, other, split_once-none c s (ground arith)) refl

pub cut-before : (c : ℕ) (a s : Text) → lacks c a ≡ true → cut c (a ++ before (c ∷ []) s) ≡ (a, s)
unfolding cut before
cut-before c a [] h =
    let whole : cut c a ≡ (a, []) = rw (cut, split_once-none c a h) refl in
    ap (λ t. cut c t) (append-nil a) ∙ whole
cut-before c a (d ∷ s) h = rw (cut, split_once-append c a (d ∷ s) h) refl

-- a text at whose beginning the test fails
abbrev pub is_end : (ℕ → Bool) → Text → Bool
is_end p [] = true
is_end p (c ∷ s) = not (p c)

span_end : (p : ℕ → Bool) (s : Text) → is_end p s ≡ true → span p s ≡ ([], s)
unfolding span
span_end p [] h = refl
span_end p (c ∷ s) h = ground arith

pub span-append :
    (p : ℕ → Bool) (a s : Text) → all p a ≡ true → is_end p s ≡ true → span p (a ++ s) ≡ (a, s)
unfolding span
span-append p [] s h e = span_end p s e
span-append p (c ∷ a) s h e =
    let here : p c ≡ true = ground arith in rw (span, span-append p a s (ground arith) e, here) refl

-- what a test says follows from a stronger test
pub all_mono :
    (p q : ℕ → Bool) (s : Text)
    → ((c : ℕ) → p c ≡ true → q c ≡ true)
    → all p s ≡ true
    → all q s ≡ true
all_mono p q [] f h = refl
all_mono p q (c ∷ s) f h = ground (arith, f c, all_mono p q s f)

pub map_lower :
    (s : Text) → all (λ a. not (leb b'A' a && leb a b'Z')) s ≡ true → map lower_ascii s ≡ s
unfolding lower_ascii
map_lower [] h = refl
map_lower (c ∷ s) h = ground (arith, map_lower s)
