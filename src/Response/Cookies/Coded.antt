-- ===== src/Response/Cookies/Coded.antt =====
-- A cookie whose value is quoted has the form in which cookies are sent.
use rustlette.Prelude.{
  is_nil, ℕ, ◌+◌, ◌/◌, ◌%◌, ◌≤◌, ◌<◌, ◌≡◌, refl, ap, ◌∙◌, Bool, true, not, ◌&&◌, ◌||◌, [], ◌∷◌,
  Text, codes, text_eq_instance, all, leb, ◌==◌, is_space, strip, contains_char, arith, Bool-cases,
  inl, inr,
}
use rustlette.Prelude.Strings.{drop_right, drop_left}
use rustlette.Prelude.Strings.Laws.{lacks, all-append_both, has_no_space, strip_none, strip_between}
use rustlette.Request.Cookies.RoundTrip.{is_plain, IsCoded}
use rustlette.Response.Cookies.{is_legal, is_unescaped, is_legal_key, escaped, escape, quote}

all_legal :
    (q : ℕ → Bool) (s : Text)
    → ((c : ℕ) → is_legal c ≡ true → q c ≡ true)
    → all is_legal s ≡ true
    → all q s ≡ true
all_legal q [] f h = refl
all_legal q (c ∷ s) f h = ground (arith, f c, all_legal q s f)

all-contains_char :
    (q : ℕ → Bool) (c : ℕ) (l : Text) → contains_char c l ≡ true → all q l ≡ true → q c ≡ true
unfolding contains_char
all-contains_char q c [] h h' = cc
all-contains_char q c (a ∷ l) h h' = elim (Bool-cases (a == c)) [
  | inl same ↦ let e : a ≡ c = ground arith in ground (arith, ap q e)
  | inr other ↦ all-contains_char q c l (ground arith) (ground arith)
]

-- what no character of a name is
is_fine : ℕ → Bool
is_fine c = leb 33 c && (leb c 126 && (not (c == b'"') && (not (c == b';') && not (c == b'='))))

fine-is_legal : (c : ℕ) → is_legal c ≡ true → is_fine c ≡ true
unfolding is_legal is_fine
fine-is_legal c h = elim (Bool-cases (contains_char c (codes "!#$%&'*+-.^_`|~:"))) [
  | inl sign ↦ all-contains_char is_fine c (codes "!#$%&'*+-.^_`|~:") sign refl
  | inr other ↦
      let ranged : ((leb b'a' c && leb c b'z')
            || (leb b'A' c && leb c b'Z')
            || (leb b'0' c && leb c b'9'))
          ≡ true =
        ground (arith, h, other) in
      ground arith
]

fine-is_plain : (c : ℕ) → is_fine c ≡ true → is_plain c ≡ true
unfolding is_space is_fine
fine-is_plain c h = ground arith

semicolon-is_unescaped : (c : ℕ) → is_unescaped c ≡ true → not (c == b';') ≡ true
unfolding is_unescaped is_fine
semicolon-is_unescaped c h = elim (Bool-cases (is_legal c)) [
  | inl legal ↦ let fine = fine-is_legal c legal in ground arith
  | inr other ↦
      all-contains_char (λ a. not (a == b';')) c (codes " ()/<=>?@[]{}") (ground (arith, h, other))
        refl
]

-- An escaped character has no semicolon.
lacks-escaped : (c : ℕ) → lacks b';' (escaped c) ≡ true
unfolding escaped
lacks-escaped c = elim (Bool-cases (c == b'"')) [
  | inl quotes ↦ rw quotes refl
  | inr no_quotes ↦ elim (Bool-cases (c == b'\\')) [
    | inl slash ↦ rw (no_quotes, slash) refl
    | inr no_slash ↦ elim (Bool-cases (is_unescaped c || leb 256 c)) [
      | inl kept ↦
          let other : not (c == b';') ≡ true = ground (arith, semicolon-is_unescaped c) in
          rw (no_quotes, no_slash, kept, other) refl
      | inr octal ↦
          let few : c / 64 ≤ 3 = (let small : c < 256 = ground arith in omega arith) in
          let a : not (48 + c / 64 == b';') ≡ true = ground arith in
          let b : not (48 + c / 8 % 8 == b';') ≡ true = ground arith in
          let d : not (48 + c % 8 == b';') ≡ true = ground arith in
          rw (no_quotes, no_slash, octal, a, b, d) refl
    ]
  ]
]

lacks-escape : (s : Text) → lacks b';' (escape s) ≡ true
unfolding escape
lacks-escape [] = refl
lacks-escape (c ∷ s) =
    all-append_both (λ a. not (a == b';')) (escaped c) (escape s)
    ∙ ground (arith, lacks-escaped c, lacks-escape s)

pub lacks-quote : (s : Text) → lacks b';' (quote s) ≡ true
unfolding quote is_legal_key
lacks-quote s = elim (Bool-cases (is_legal_key s)) [
  | inl legal ↦ rw legal (
      all_legal (λ a. not (a == b';')) s
        (λ c h. let fine = fine-is_legal c h in let plain = fine-is_plain c fine in ground arith)
        (ground arith))
  | inr other ↦ rw other (
      all-append_both (λ a. not (a == b';')) (escape s) (codes "\"")
      ∙ ground (arith, lacks-escape s))
]

-- a quoted value begins and ends with a character that is no space, or is one such character
pub legal-has_no_space : (s : Text) → all is_legal s ≡ true → has_no_space s ≡ true
legal-has_no_space s h =
    all_legal (λ a. not (is_space a)) s
      (λ c e. let plain = fine-is_plain c (fine-is_legal c e) in ground arith) h

strip-quote : (s : Text) → strip (quote s) ≡ quote s
unfolding quote is_legal_key is_space drop_right drop_left
strip-quote s = elim (Bool-cases (is_legal_key s)) [
  | inl legal ↦ rw legal (strip_none s (legal-has_no_space s (ground arith)))
  | inr other ↦ rw other (strip_between b'"' (escape s) b'"' [] refl refl)
]

pub quote-IsCoded : (key value : Text) → is_legal_key key ≡ true → IsCoded (key, quote value)
unfolding is_legal_key is_nil is_fine
quote-IsCoded [] value h = cc
quote-IsCoded (c ∷ key) value h =
    let legal : all is_legal (c ∷ key) ≡ true = ground (arith, h) in
    (
      all_legal is_plain (c ∷ key) (λ a e. fine-is_plain a (fine-is_legal a e)) legal,
      all_legal (λ a. not (a == b'=')) (c ∷ key)
          (λ a e. let fine = fine-is_legal a e in ground arith) legal,
      lacks-quote value,
      strip-quote value,
    )
