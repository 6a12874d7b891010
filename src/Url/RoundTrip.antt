-- ===== src/Url/RoundTrip.antt =====
-- `urlsplit` reads what `geturl` writes.
use rustlette.Prelude.{
  is_nil, ℕ, ◌≡◌, refl, ap, ◌∙◌, Bool, true, false, not, ◌&&◌, ◌||◌, [], ◌∷◌, ◌++◌, append_assoc,
  append-nil, Text, codes, starts_with, all, keep, leb, ◌==◌, arith,
}
use rustlette.Prelude.Strings.{drop_left}
use rustlette.Prelude.Strings.Laws.{lacks, split_once-append, all-append_both}
use rustlette.Prelude.Exec.{ok}
use rustlette.Url.Cutting.{keep-all, cut-before, is_end, span-append, all_mono, map_lower}
use rustlette.Url.{
  Components, cut, is_letter, begins_with_letter, is_scheme_char, scheme_and_rest, in_netloc,
  netloc_and_rest, is_unsafe, cleaned, split_parts, after_scheme, after_netloc, after_fragment,
  after_path, before, with_netloc, with_scheme, geturl, urlsplit, checked,
}

-- a text with none of some characters, which `urlsplit` keeps
plain : (ℕ → Bool) → Text → Bool
unfolding is_unsafe
plain p = all (λ c. p c && not (is_unsafe c))

-- Components as they come from an address: a scheme in lower case, a host, and a path from the root, in
-- which no separator stands that would end them.
unfoldable pub is_plain : Components → Bool
unfolding begins_with_letter is_scheme_char plain in_netloc is_nil starts_with
is_plain c =
    begins_with_letter c.scheme
    && (plain (λ a. is_scheme_char a && not (leb b'A' a && leb a b'Z')) c.scheme
        && (not (is_nil c.netloc)
            && (plain in_netloc c.netloc
                && ((is_nil c.path || starts_with c.path (codes "/"))
                    && (plain (λ a. not (a == b'?' || a == b'#')) c.path
                        && (plain (λ a. not (a == b'#')) c.query
                            && plain (λ a. true) c.fragment))))))

-- the text of such components
unfoldable pub plain_text : Components → Text
unfolding before
plain_text c =
    c.scheme
    ++ (b':'
        ∷ b'/'
        ∷ b'/'
        ∷ (c.netloc ++ (c.path ++ (before (codes "?") c.query ++ before (codes "#") c.fragment))))

with_scheme_lem :
    (scheme rest : Text)
    → begins_with_letter scheme ≡ true
    → with_scheme scheme rest ≡ scheme ++ b':' ∷ rest
unfolding with_scheme begins_with_letter
with_scheme_lem [] rest h = cc
with_scheme_lem (c ∷ scheme) rest h = refl

with_netloc_lem :
    (scheme netloc path : Text)
    → is_nil netloc ≡ false
    → (is_nil path || starts_with path (codes "/")) ≡ true
    → with_netloc scheme netloc path ≡ b'/' ∷ b'/' ∷ (netloc ++ path)
unfolding with_netloc is_nil starts_with
with_netloc_lem scheme [] path h rooted = cc
with_netloc_lem scheme (c ∷ netloc) [] h rooted = refl
with_netloc_lem scheme (c ∷ netloc) (d ∷ path) h rooted =
    let slash : (d == b'/') ≡ true = ground arith in rw slash refl

-- What `geturl` writes for components with a scheme and a host, and a path from the root or none.
pub geturl-plain :
    (c : Components)
    → begins_with_letter c.scheme ≡ true
    → is_nil c.netloc ≡ false
    → (is_nil c.path || starts_with c.path (codes "/")) ≡ true
    → geturl c ≡ plain_text c
unfolding geturl plain_text
geturl-plain c lettered hosted rooted =
    let end = before (codes "?") c.query ++ before (codes "#") c.fragment in
    ap (λ t. with_scheme c.scheme (t ++ end))
      (with_netloc_lem c.scheme c.netloc c.path hosted rooted)
    ∙ with_scheme_lem c.scheme (b'/' ∷ b'/' ∷ (c.netloc ++ c.path ++ end)) lettered
    ∙ simp append_assoc

scheme_and_rest_lem :
    (scheme rest : Text)
    → begins_with_letter scheme ≡ true
    → all (λ a. is_scheme_char a && not (leb b'A' a && leb a b'Z')) scheme ≡ true
    → scheme_and_rest (scheme ++ b':' ∷ rest) ≡ (scheme, rest)
unfolding scheme_and_rest is_scheme_char is_letter
scheme_and_rest_lem scheme rest lettered h =
    let no_colon : lacks b':' scheme ≡ true = all_mono _ _ scheme (λ c e. ground arith) h in
    let valid : all is_scheme_char scheme ≡ true = all_mono _ _ scheme (λ c e. ground arith) h in
    let low = all_mono _ (λ a. not (leb b'A' a && leb a b'Z')) scheme (λ c e. ground arith) h in
    rw
      (
        scheme_and_rest,
        split_once-append b':' scheme rest no_colon,
        lettered,
        valid,
        map_lower scheme low,
      )
      refl

netloc_and_rest_lem :
    (netloc rest : Text)
    → all in_netloc netloc ≡ true
    → is_end in_netloc rest ≡ true
    → netloc_and_rest (b'/' ∷ b'/' ∷ (netloc ++ rest)) ≡ (netloc, rest)
unfolding netloc_and_rest starts_with
netloc_and_rest_lem netloc rest h e = span-append in_netloc netloc rest h e

-- the path, the query and the fragment
tail : Components → Text
unfolding before
tail c = c.path ++ (before (codes "?") c.query ++ before (codes "#") c.fragment)

tail-is_end :
    (path query fragment : Text)
    → (is_nil path || starts_with path (codes "/")) ≡ true
    → is_end in_netloc (path ++ (before (codes "?") query ++ before (codes "#") fragment)) ≡ true
unfolding before in_netloc is_nil starts_with
tail-is_end (c ∷ path) query fragment rooted = ground arith
tail-is_end [] (c ∷ query) fragment rooted = refl
tail-is_end [] [] (c ∷ fragment) rooted = refl
tail-is_end [] [] [] rooted = refl

lacks-before :
    (path query : Text)
    → lacks b'#' path ≡ true
    → lacks b'#' query ≡ true
    → lacks b'#' (path ++ before (codes "?") query) ≡ true
unfolding before
lacks-before path [] h h' = rw append-nil h
lacks-before path (c ∷ query) h h' =
    all-append_both (λ a. not (a == b'#')) path (b'?' ∷ c ∷ query) ∙ ground arith

all-plain : (p : ℕ → Bool) (s : Text) → plain p s ≡ true → all p s ≡ true
unfolding plain
all-plain p s h = all_mono (λ c. p c && not (is_unsafe c)) p s (λ c e. ground arith) h

-- how two of the tests follow from the one of a path
not_mark : (s : Text) → all (λ a. not (a == b'?' || a == b'#')) s ≡ true → lacks b'?' s ≡ true
not_mark s h =
    all_mono (λ a. not (a == b'?' || a == b'#')) (λ a. not (a == b'?')) s (λ a e. ground arith) h

not_hash : (s : Text) → all (λ a. not (a == b'?' || a == b'#')) s ≡ true → lacks b'#' s ≡ true
not_hash s h =
    all_mono (λ a. not (a == b'?' || a == b'#')) (λ a. not (a == b'#')) s (λ a e. ground arith) h

split_parts-plain : (c : Components) → is_plain c ≡ true → split_parts (plain_text c) ≡ c
unfolding split_parts plain_text after_scheme after_netloc after_fragment after_path is_plain plain
    tail
split_parts-plain c h =
    let rooted : (is_nil c.path || starts_with c.path (codes "/")) ≡ true = ground arith in
    let scheme_ok =
      all-plain (λ a. is_scheme_char a && not (leb b'A' a && leb a b'Z')) c.scheme (ground arith) in
    let netloc_ok = all-plain in_netloc c.netloc (ground arith) in
    let path_ok = all-plain (λ a. not (a == b'?' || a == b'#')) c.path (ground arith) in
    let query_ok = all-plain (λ a. not (a == b'#')) c.query (ground arith) in
    let before_fragment = c.path ++ before (codes "?") c.query in
    let regrouped : tail c ≡ before_fragment ++ before (codes "#") c.fragment = simp append_assoc in
    ap after_scheme
      (scheme_and_rest_lem c.scheme (b'/' ∷ b'/' ∷ (c.netloc ++ tail c)) (ground arith) scheme_ok)
    ∙ ap (after_netloc c.scheme) (
        netloc_and_rest_lem c.netloc (tail c) netloc_ok
          (tail-is_end c.path c.query c.fragment rooted))
    ∙ ap (λ t. after_fragment c.scheme c.netloc (cut b'#' t)) regrouped
    ∙ ap (after_fragment c.scheme c.netloc) (
        cut-before b'#' before_fragment c.fragment
          (lacks-before c.path c.query (not_hash c.path path_ok) query_ok))
    ∙ ap (after_path c.scheme c.netloc c.fragment)
        (cut-before b'?' c.path c.query (not_mark c.path path_ok))

-- every character of a text is kept
safe : Text → Bool
unfolding is_unsafe
safe = all (λ c. not (is_unsafe c))

safe-append : (s t : Text) → safe s ≡ true → safe t ≡ true → safe (s ++ t) ≡ true
unfolding safe
safe-append s t h h' = ground (arith, all-append_both (λ c. not (is_unsafe c)) s t)

safe-plain : (p : ℕ → Bool) (s : Text) → plain p s ≡ true → safe s ≡ true
unfolding plain safe
safe-plain p s h =
    all_mono (λ c. p c && not (is_unsafe c)) (λ c. not (is_unsafe c)) s (λ c e. ground arith) h

safe-before :
    (c : ℕ) (s : Text) → is_unsafe c ≡ false → safe s ≡ true → safe (before (c ∷ []) s) ≡ true
unfolding safe before
safe-before c [] e h = refl
safe-before c (a ∷ s) e h = rw e h

safe-plain_text : (c : Components) → is_plain c ≡ true → safe (plain_text c) ≡ true
unfolding is_plain plain_text safe
safe-plain_text c h =
    let scheme_ok =
      safe-plain (λ a. is_scheme_char a && not (leb b'A' a && leb a b'Z')) c.scheme
        (ground arith) in
    let netloc_ok = safe-plain in_netloc c.netloc (ground arith) in
    let path_ok = safe-plain (λ a. not (a == b'?' || a == b'#')) c.path (ground arith) in
    let query_ok = safe-plain (λ a. not (a == b'#')) c.query (ground arith) in
    let fragment_ok = safe-plain (λ a. true) c.fragment (ground arith) in
    let end = before (codes "?") c.query ++ before (codes "#") c.fragment in
    let end_ok =
      safe-append (before (codes "?") c.query) (before (codes "#") c.fragment)
        (safe-before b'?' c.query refl query_ok) (safe-before b'#' c.fragment refl fragment_ok) in
    safe-append c.scheme (b':' ∷ b'/' ∷ b'/' ∷ (c.netloc ++ (c.path ++ end))) scheme_ok (
      safe-append (codes "://") (c.netloc ++ (c.path ++ end)) refl
        (safe-append c.netloc (c.path ++ end) netloc_ok (safe-append c.path end path_ok end_ok)))

-- no character is dropped from the front
drop_left_lettered :
    (s rest : Text)
    → begins_with_letter s ≡ true
    → drop_left (λ c. leb c 32) (s ++ rest) ≡ s ++ rest
unfolding drop_left begins_with_letter is_letter
drop_left_lettered [] rest h = cc
drop_left_lettered (c ∷ s) rest h = ground arith

cleaned-plain_text : (c : Components) → is_plain c ≡ true → cleaned (plain_text c) ≡ plain_text c
unfolding cleaned is_plain safe plain_text tail
cleaned-plain_text c h =
    let rest = b':' ∷ b'/' ∷ b'/' ∷ (c.netloc ++ tail c) in
    ap (λ s. keep (λ a. not (is_unsafe a)) s) (drop_left_lettered c.scheme rest (ground arith))
    ∙ keep-all (λ a. not (is_unsafe a)) (plain_text c) (safe-plain_text c h)

pub geturl-is_plain : (c : Components) → is_plain c ≡ true → geturl c ≡ plain_text c
unfolding is_plain
geturl-is_plain c h = geturl-plain c (ground arith) (ground arith) (ground arith)

-- Components with a lower-case scheme, a host, and a path from the root or none, none of which has a
-- character that would end it, are read back from the text that is written for them.
pub urlsplit-geturl :
    (is_netloc : Text → Bool) (c : Components)
    → is_plain c ≡ true
    → is_netloc c.netloc ≡ true
    → urlsplit is_netloc (geturl c) ≡ ok c
unfolding urlsplit checked
urlsplit-geturl is_netloc c h valid =
    ap (urlsplit is_netloc) (geturl-is_plain c h)
    ∙ ap (λ t. checked is_netloc (split_parts t)) (cleaned-plain_text c h)
    ∙ ap (checked is_netloc) (split_parts-plain c h)
    ∙ rw valid refl
