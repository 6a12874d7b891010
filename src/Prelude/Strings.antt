-- ===== src/Prelude/Strings.antt =====
-- Text (`str`) and bytes as lists of code points, with the methods of `str` that the program calls.
pub mod Laws
use Prim.Native.Nat.{ℕ, ◌+◌}
use Prim.Native.Char.{code}
use Prim.Native.String.{String}
use mathlib.Core.Path.{◌≡◌, refl, ap₂}
use mathlib.Core.Logic.{◌↔◌}
use mathlib.Core.Bool.{Bool, true, false, ◌&&◌, ◌||◌}
use mathlib.Core.List.{List, [], ◌∷◌, ◌++◌, reverse}
use mathlib.Core.Option.{Option, none, some}
use native.Mathlib.Omega.{arith}
use rustlette.Prelude.Tests.{leb, ◌==◌, Eq, if◌then◌else◌}

abbrev pub Text : Type 0
Text = List ℕ

abbrev pub Bytes : Type 0
Bytes = List ℕ

-- The code points of a literal.
abbrev pub codes : String → Text
codes String.[] = []
codes (String.◌∷◌ c s) = code c ∷ codes s

unfoldable pub text_eq : Text → Text → Bool
text_eq [] [] = true
text_eq (a ∷ s) (b ∷ t) = a == b && text_eq s t
text_eq _ _ = false

eq_of_text_eq : (s t : Text) → text_eq s t ≡ true → s ≡ t
unfolding text_eq
eq_of_text_eq [] [] h = refl
eq_of_text_eq (a ∷ s) (b ∷ t) h =
    let head : a ≡ b = ground arith in
    let rest : text_eq s t ≡ true = ground arith in ap₂ ◌∷◌ head (eq_of_text_eq s t rest)
eq_of_text_eq [] (_ ∷ _) h = cc
eq_of_text_eq (_ ∷ _) [] h = cc

text_eq_refl : (s : Text) → text_eq s s ≡ true
unfolding text_eq
text_eq_refl [] = refl
text_eq_refl (a ∷ s) = ground (arith, text_eq_refl s)

pub text_eq_iff : (s t : Text) → (text_eq s t ≡ true) ↔ (s ≡ t)
text_eq_iff s t = (eq_of_text_eq s t, λ p. ground (arith, text_eq_refl s))

instance abbrev pub text_eq_instance : Eq Text
text_eq_instance = record { beq = text_eq; beq_iff = text_eq_iff }

unfoldable pub is_nil : Text → Bool
is_nil [] = true
is_nil (c ∷ s) = false

-- the lower case of a character, for a letter of ASCII
unfoldable pub lower_ascii : ℕ → ℕ
lower_ascii c = if leb b'A' c && leb c b'Z' then c + 32 else c

-- `s.startswith(p)`
unfoldable pub starts_with : Text → Text → Bool
starts_with s [] = true
starts_with [] (b ∷ p) = false
starts_with (a ∷ s) (b ∷ p) = a == b && starts_with s p

-- `s.endswith(p)`
unfoldable pub ends_with : Text → Text → Bool
unfolding starts_with
ends_with s p = starts_with (reverse s) (reverse p)

-- `c in s`, for one character
unfoldable pub contains_char : ℕ → Text → Bool
contains_char c [] = false
contains_char c (a ∷ s) = a == c || contains_char c s

-- `p in s`
unfoldable pub contains_text : Text → Text → Bool
unfolding starts_with
contains_text p [] = starts_with [] p
contains_text p (a ∷ s) = starts_with (a ∷ s) p || contains_text p s

-- `s.split(c)` for a separator of one character: the pieces are never none.
split_from : ℕ → Text → Text → List Text
split_from c cur [] = cur ∷ []
split_from c cur (a ∷ s) = elim (a == c) [
  | true ↦ cur ∷ split_from c [] s
  | false ↦ split_from c (cur ++ a ∷ []) s
]

unfoldable pub split : ℕ → Text → List Text
unfolding split_from
split c s = split_from c [] s

-- `s.split(c, 1)`: the text before the first separator and the text behind it, if there is one.
unfoldable pub split_once : ℕ → Text → Option (Text × Text)
split_once c [] = none
split_once c (a ∷ s) = elim (a == c) [
  | true ↦ some ([], s)
  | false ↦ elim (split_once c s) [ none ↦ none | some (l, r) ↦ some (a ∷ l, r) ]
]

-- Python's whitespace.
unfoldable pub is_space : ℕ → Bool
is_space c =
    (leb 9 c && leb c 13)
    || (leb 28 c && leb c 32)
    || c == 133
    || c == 160
    || c == 0x1680
    || (leb 0x2000 c && leb c 0x200A)
    || c == 0x2028
    || c == 0x2029
    || c == 0x202F
    || c == 0x205F
    || c == 0x3000

unfoldable pub drop_left : (ℕ → Bool) → Text → Text
drop_left p [] = []
drop_left p (a ∷ s) = elim (p a) [ true ↦ drop_left p s | false ↦ a ∷ s ]

unfoldable pub drop_right : (ℕ → Bool) → Text → Text
unfolding drop_left
drop_right p s = reverse (drop_left p (reverse s))

-- `s.strip()`, `s.rstrip(c)` and `s.lstrip(c)`
unfoldable pub strip : Text → Text
unfolding drop_right is_space
strip s = drop_right is_space (drop_left is_space s)

unfoldable pub rstrip : ℕ → Text → Text
unfolding drop_right
rstrip c s = drop_right (λ a. a == c) s

unfoldable pub lstrip : ℕ → Text → Text
unfolding drop_left
lstrip c s = drop_left (λ a. a == c) s

-- `sep.join(parts)`
unfoldable pub join : Text → List Text → Text
join sep [] = []
join sep (p ∷ []) = p
join sep (p ∷ q ∷ ps) = p ++ (sep ++ join sep (q ∷ ps))

-- `x in xs` for a list of texts
unfoldable pub text_in : Text → List Text → Bool
unfolding text_eq
text_in t [] = false
text_in t (x ∷ xs) = text_eq t x || text_in t xs
