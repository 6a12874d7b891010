-- ===== src/Routing/Pattern/Formatted.antt =====
-- The format of a compiled path is its pattern, written with the names of the parameters in braces.
use rustlette.Prelude.{
  ◌≡◌, refl, ap, ◌∙◌, sym, subst, length, Bool, true, false, not, List, [], ◌∷◌, ◌++◌, append_assoc,
  append-nil, Text, codes, starts_with, Bool-cases, inl, inr,
}
use rustlette.Prelude.Exec.{Result, ok, err}
use rustlette.Routing.Pattern.{
  Segment, literal, param, CompileError, pieces, segments, convertors, has_duplicate, format,
  Compiled, finish, finish_parts, compile_path,
}

format-append : (xs ys : List Segment) → format (xs ++ ys) ≡ format xs ++ format ys
unfolding format
format-append [] ys = refl
format-append (literal s ∷ xs) ys = ap (λ t. s ++ t) (format-append xs ys) ∙ simp append_assoc
format-append (param name c ∷ xs) ys =
    ap (λ t. codes "{" ++ (name ++ (codes "}" ++ t))) (format-append xs ys) ∙ simp append_assoc

convertors-append :
    (xs : List Segment) (s : Text) → convertors (xs ++ literal s ∷ []) ≡ convertors xs
convertors-append [] s = refl
convertors-append (literal t ∷ xs) s = convertors-append xs s
convertors-append (param name c ∷ xs) s = ap (λ l. (name, c) ∷ l) (convertors-append xs s)

finish-format :
    (parts : List Segment) (tail : Text) (c : Compiled)
    → finish false parts tail ≡ ok c
    → (c.path_format ≡ format c.regex) × (c.param_convertors ≡ convertors c.regex)
unfolding finish
finish-format parts tail c h = elim (Bool-cases (has_duplicate (convertors parts))) [
  | inl twice ↦ absurd (let failed = rw (finish, twice) at h in cc)
  | inr once ↦
      let built : Compiled = record {
        regex = parts ++ literal tail ∷ [];
        path_format = format parts ++ tail;
        param_convertors = convertors parts;
      } in
      let done : ok built ≡ ok c = rw (finish, once) at h in
      let same : built ≡ c = cc in
      subst (λ c. (c.path_format ≡ format c.regex) × (c.param_convertors ≡ convertors c.regex)) same
        (
          sym (
              format-append parts (literal tail ∷ [])
              ∙ ap (λ t. format parts ++ t) (append-nil tail)),
          sym (convertors-append parts tail),
        )
]

finish_parts-format :
    (is_host : Bool) (r : Result CompileError (List Segment × Text)) (c : Compiled)
    → is_host ≡ false
    → finish_parts is_host r ≡ ok c
    → (c.path_format ≡ format c.regex) × (c.param_convertors ≡ convertors c.regex)
unfolding finish_parts
finish_parts-format true r c e h = cc
finish_parts-format false (err x) c e h = cc
finish_parts-format false (ok (parts, tail)) c e h = finish-format parts tail c h

-- A path from the root that compiles has its pattern as its format, and its parameters with their
-- convertors.
pub compile_path-format :
    (path : Text) (c : Compiled)
    → starts_with path (codes "/") ≡ true
    → compile_path path ≡ ok c
    → (c.path_format ≡ format c.regex) × (c.param_convertors ≡ convertors c.regex)
unfolding compile_path
compile_path-format path c rooted h =
    finish_parts-format (not (starts_with path (codes "/")))
      (segments (pieces (length path) path) []) c (ap not rooted) h
