-- ===== src/Response/Cookies/Quoted.antt =====
-- A value that is quoted is read back.
use mathlib.Core.List.{reverse-append}
use rustlette.Prelude.{
  is_nil, ℕ, ◌+◌, ◌-◌, ◌*◌, ◌/◌, ◌%◌, ◌<◌, ◌≤◌, ◌≡◌, refl, ap, sym, ◌∙◌, Bool, true, false, ◌||◌,
  [], ◌∷◌, ◌++◌, Text, codes, all, leb, ltb, ◌==◌, ends_with, starts_with, length, length-append,
  take, arith, Bool-cases, inl, inr, contains_char,
}
use rustlette.Request.Cookies.{unescape, is_octal, inner, unquote}
use rustlette.Response.Cookies.{is_legal, is_unescaped, is_legal_key, escaped, escape, quote}

-- A character that is no backslash stands for itself.
unescape-other : (c : ℕ) (s : Text) → (c == b'\\') ≡ false → unescape (c ∷ s) ≡ c ∷ unescape s
unfolding unescape
unescape-other c [] h = refl
unescape-other c (d ∷ []) h = ground arith
unescape-other c (d ∷ e ∷ []) h = ground arith
unescape-other c (d ∷ e ∷ f ∷ s) h = ground arith

-- A backslash before a character that is no octal digit and no line's end stands for that character.
unescape-backslash :
    (d : ℕ) (s : Text)
    → is_octal b'3' d ≡ false
    → (d == 10) ≡ false
    → unescape (b'\\' ∷ d ∷ s) ≡ d ∷ unescape s
unfolding unescape
unescape-backslash d [] h h' = ground arith
unescape-backslash d (e ∷ []) h h' = ground arith
unescape-backslash d (e ∷ f ∷ s) h h' = ground arith

unescape-octal :
    (c : ℕ) (s : Text)
    → c < 256
    → unescape (b'\\' ∷ (b'0' + c / 64) ∷ (b'0' + c / 8 % 8) ∷ (b'0' + c % 8) ∷ s) ≡ c ∷ unescape s
unfolding unescape is_octal
unescape-octal c s small =
    let few : c / 64 ≤ 3 = omega arith in
    let middle : c / 8 % 8 ≤ 7 = omega arith in
    let low : c % 8 ≤ 7 = omega arith in
    let whole : (48 + c / 64 - 48) * 64 + (48 + c / 8 % 8 - 48) * 8 + (48 + c % 8 - 48) ≡ c =
      omega arith in
    let first : is_octal b'3' (48 + c / 64) ≡ true = ground arith in
    let second : is_octal b'7' (48 + c / 8 % 8) ≡ true = ground arith in
    let third : is_octal b'7' (48 + c % 8) ≡ true = ground arith in
    rw (unescape, first, second, third) (ap (λ d. d ∷ unescape s) whole)

unescape-escaped : (c : ℕ) (s : Text) → c < 256 → unescape (escaped c ++ s) ≡ c ∷ unescape s
unfolding escaped is_octal
unescape-escaped c s small = elim (Bool-cases (c == b'"')) [
  | inl quotes ↦
      let same : c ≡ b'"' = ground arith in
      rw (quotes) (unescape-backslash b'"' s refl refl ∙ ap (λ d. d ∷ unescape s) (sym same))
  | inr no_quotes ↦ elim (Bool-cases (c == b'\\')) [
    | inl slash ↦
        let same : c ≡ b'\\' = ground arith in
        rw (no_quotes, slash)
          (unescape-backslash b'\\' s refl refl ∙ ap (λ d. d ∷ unescape s) (sym same))
    | inr no_slash ↦ elim (Bool-cases (is_unescaped c || leb 256 c)) [
      | inl kept ↦ rw (no_quotes, no_slash, kept) (unescape-other c s no_slash)
      | inr octal ↦ rw (no_quotes, no_slash, octal) (unescape-octal c s small)
    ]
  ]
]

-- a text of Latin-1
abbrev pub is_latin : Text → Bool
is_latin = all (λ c. ltb c 256)

unescape-escape : (s : Text) → is_latin s ≡ true → unescape (escape s) ≡ s
unfolding unescape escape
unescape-escape [] h = refl
unescape-escape (c ∷ s) h =
    unescape-escaped c (escape s) (ground arith)
    ∙ ap (λ r. c ∷ r) (unescape-escape s (ground arith))

take-append : (s t : Text) → take (length s) (s ++ t) ≡ s
take-append [] t = refl
take-append (c ∷ s) t = ap (λ r. c ∷ r) (take-append s t)

inner-quotes : (s : Text) → inner (b'"' ∷ (s ++ codes "\"")) ≡ s
unfolding inner
inner-quotes s =
    let count : length (b'"' ∷ (s ++ codes "\"")) - 2 ≡ length s =
      omega (arith, length-append s (codes "\"")) in
    ap (λ n. take n (s ++ codes "\"")) count ∙ take-append s (codes "\"")

ends-quotes : (s : Text) → ends_with (s ++ codes "\"") (codes "\"") ≡ true
unfolding ends_with starts_with
ends-quotes s = rw (reverse-append s (codes "\"")) refl

unquote_quoted : (s : Text) → unquote (b'"' ∷ (s ++ codes "\"")) ≡ unescape s
unfolding unquote
unquote_quoted s =
    let some_left : leb (length (s ++ codes "\"")) 0 ≡ false =
      ground (arith, length-append s (codes "\"")) in
    rw (unquote, some_left, ends-quotes s) (ap unescape (inner-quotes s))

unquote_legal : (s : Text) → is_legal_key s ≡ true → unquote s ≡ s
unfolding unquote is_legal_key is_legal contains_char is_nil
unquote_legal [] h = refl
unquote_legal (c ∷ s) h = ground arith

-- A value of Latin-1 that is quoted for a cookie is read back.
pub unquote-quote : (s : Text) → is_latin s ≡ true → unquote (quote s) ≡ s
unfolding quote
unquote-quote s h = elim (Bool-cases (is_legal_key s)) [
  | inl legal ↦ rw legal (unquote_legal s legal)
  | inr other ↦ rw other (unquote_quoted (escape s) ∙ unescape-escape s h)
]
