-- ===== src/Routing/UrlPath/Led.antt =====
-- The path of a named route leads to the route: the route's own pattern matches it.
use mathlib.Core.List.{map}
use rustlette.Prelude.{
  zero, ◌≡◌, ◌≢◌, refl, ap, ◌∙◌, sym, subst, Bool, true, false, ◌||◌, Option, none, some, List, [],
  ◌∷◌, ◌++◌, append_assoc, Text, codes, text_eq, text_eq_iff, text_eq_instance, text_in,
  contains_text, starts_with, if◌then◌else◌, all, All, arith, Bool-cases, inl, inr,
}
use rustlette.Prelude.Strings.Laws.{lacks}
use rustlette.Prelude.Exec.{ok}
use rustlette.MultiDict.Dict
use rustlette.Routing.Convertors.{Convertor, Value, accepts, to_string}
use rustlette.Routing.Pattern.{
  Compiled, Segment, literal, param, format, convertors, compile_path, match,
}
use rustlette.Routing.Pattern.Formatted.{compile_path-format}
use rustlette.Routing.Pattern.Matching.{Spells, ended, spelled, filled, match_complete}
use rustlette.Routing.UrlPath.Replaced.{
  replace-append, replace-placeholder, replace-other, contains_text-after,
  contains_text-placeholder,
}
use rustlette.Routing.UrlPath.{
  replace, placeholder, printed, replace_items, replace_params, same_keys, path_of,
  route_url_path_for,
}

-- the names of the parameters of a pattern
names : List Segment → List Text
names parts = map (λ j. j.0) (convertors parts)

-- no key twice, and none of those that are done
unfoldable pub IsFresh : List Text → List (Text × Value) → Type 0
unfolding text_in
IsFresh done [] = Unit
IsFresh done ((key, v) ∷ items) = (text_in key done ≡ false) × IsFresh (key ∷ done) items

-- the names that are done behind the items
added : List Text → List (Text × Value) → List Text
added done [] = done
added done ((key, v) ∷ items) = added (key ∷ done) items

text_in-added :
    (name : Text) (done : List Text) (items : List (Text × Value))
    → (text_in name (map (λ i. i.0) items) || text_in name done) ≡ true
    → text_in name (added done items) ≡ true
unfolding added text_in
text_in-added name done [] h = h
text_in-added name done ((key, v) ∷ items) h =
    text_in-added name (key ∷ done) items (ground (arith, h))

all-added :
    (items : List (Text × Value)) (convs : List (Text × Convertor))
    → all (λ j. text_in j.0 (map (λ i. i.0) items)) convs ≡ true
    → all (λ n. text_in n (added [] items)) (map (λ j. j.0) convs) ≡ true
unfolding text_in
all-added items [] h = refl
all-added items ((name, c) ∷ convs) h =
    ground (arith, all-added items convs (ground (arith, h)), text_in-added name [] items)

-- the texts of the parameters, by their names
module _ (values : Text → Text) where
  -- the text of a pattern in which the parameters of some names are filled in
  text : List Text → List Segment → Text
  unfolding text_in placeholder
  text done [] = []
  text done (literal t ∷ more) = t ++ text done more
  text done (param name c ∷ more) =
      (if text_in name done then values name else placeholder name) ++ text done more

  -- Names have no braces, and neither have the literal texts nor the values; each value is one that the
  -- convertor of its parameter accepts.
  unfoldable pub IsFillable : List Segment → Type 0
  unfolding accepts
  IsFillable [] = Unit
  IsFillable (literal t ∷ more) = (lacks b'{' t ≡ true) × IsFillable more
  IsFillable (param name c ∷ more) =
      (lacks b'{' name ≡ true)
      × (lacks b'}' name ≡ true)
      × (lacks b'{' (values name) ≡ true)
      × (accepts c (values name) ≡ true)
      × IsFillable more

  text-format : (parts : List Segment) → text [] parts ≡ format parts
  unfolding text format text_in placeholder
  text-format [] = refl
  text-format (literal t ∷ more) = ap (λ s. t ++ s) (text-format more)
  text-format (param name c ∷ more) =
      ap (λ s. placeholder name ++ s) (text-format more) ∙ simp append_assoc

  -- What a replacement does to a parameter that is filled in already, or not.
  replace-part :
      (key name s : Text) (filled_in same : Bool)
      → text_eq name key ≡ same
      → lacks b'}' key ≡ true
      → lacks b'{' name ≡ true
      → lacks b'}' name ≡ true
      → lacks b'{' (values name) ≡ true
      → replace zero
          (placeholder key)
          (values key)
          ((if filled_in then values name else placeholder name) ++ s)
        ≡ (if same || filled_in then values name else placeholder name)
          ++ replace zero (placeholder key) (values key) s
  unfolding replace
  replace-part key name s true true e k l r v = replace-append key (values key) (values name) s v
  replace-part key name s true false e k l r v = replace-append key (values key) (values name) s v
  replace-part key name s false true e k l r v =
      subst
        (λ n.
          replace zero (placeholder key) (values key) (placeholder n ++ s)
          ≡ values n ++ replace zero (placeholder key) (values key) s)
        (sym ((text_eq_iff name key).0 e)) (replace-placeholder key (values key) s)
  replace-part key name s false false e k l r v = replace-other name key (values key) s e l r k

  -- One replacement fills in the parameters of one more name.
  replace-text :
      (key : Text) (done : List Text) (parts : List Segment)
      → lacks b'}' key ≡ true
      → text_in key done ≡ false
      → IsFillable parts
      → replace zero (placeholder key) (values key) (text done parts) ≡ text (key ∷ done) parts
  unfolding text IsFillable text_in replace
  replace-text key done [] h fresh f = refl
  replace-text key done (literal t ∷ more) h fresh (l, f) =
      replace-append key (values key) t (text done more) l
      ∙ ap (λ s. t ++ s) (replace-text key done more h fresh f)
  replace-text key done (param name c ∷ more) h fresh (l, r, v, a, f) =
      replace-part key name (text done more) (text_in name done) (text_eq name key) refl h l r v
      ∙ ap (λ s. (if text_in name (key ∷ done) then values name else placeholder name) ++ s)
          (replace-text key done more h fresh f)

  -- A parameter that is not filled in is still there to be replaced.
  contains_text-text :
      (key : Text) (done : List Text) (parts : List Segment)
      → text_in key (names parts) ≡ true
      → text_in key done ≡ false
      → contains_text (placeholder key) (text done parts) ≡ true
  unfolding text names text_in
  contains_text-text key done [] h fresh = cc
  contains_text-text key done (literal t ∷ more) h fresh =
      contains_text-after (placeholder key) t (text done more)
        (contains_text-text key done more h fresh)
  contains_text-text key done (param name c ∷ more) h fresh =
      let part : Text = if text_in name done then values name else placeholder name in
      elim (Bool-cases (text_eq key name)) [
        | inl same ↦
            let e = (text_eq_iff key name).0 same in
            let empty = subst (λ n. text_in n done ≡ false) e fresh in
            subst (λ n. contains_text (placeholder n) (part ++ text done more) ≡ true) (sym e)
              (rw empty (contains_text-placeholder name (text done more)))
        | inr other ↦
            contains_text-after (placeholder key) part (text done more)
              (contains_text-text key done more (ground (arith, h, other)) fresh)
      ]

  module _ (float_text : Text → Option Text) where
    -- An item whose convertor prints its value as the text of its name.
    unfoldable pub IsPrinted : List (Text × Convertor) → Text × Value → Type 0
    unfolding to_string Dict.get
    IsPrinted convs (key, v) =
        (c : Convertor) × (Dict.get key convs ≡ some c)
        × (to_string float_text c v ≡ some (values key))
        × (lacks b'}' key ≡ true)

    -- The loop over the items fills in all of them.
    replace_items-text :
        (convs : List (Text × Convertor)) (parts : List Segment) (left items : List (Text × Value))
        (done : List Text)
        → IsFillable parts
        → All (IsPrinted convs) items
        → all (λ i. text_in i.0 (names parts)) items ≡ true
        → IsFresh done items
        → replace_items float_text convs (text done parts) left items
          ≡ ok (text (added done items) parts, left)
    unfolding replace_items IsPrinted IsFresh added printed
    replace_items-text convs parts left [] done f p n d = refl
    replace_items-text convs parts left ((key, v) ∷ items) done f ((c, found, prints, k), p) n
          (new, d) =
        rw
          (
            contains_text-text key done parts (ground (arith, n)) new,
            found,
            prints,
            replace-text key done parts k new f,
          )
          (replace_items-text convs parts left items (key ∷ done) f p (ground (arith, n)) d)

  -- the parameters with their texts
  unfoldable pub captures : List Segment → List (Text × Text)
  captures [] = []
  captures (literal t ∷ more) = captures more
  captures (param name c ∷ more) = (name, values name) ∷ captures more

  spells-text :
      (done : List Text) (parts : List Segment)
      → IsFillable parts
      → all (λ n. text_in n done) (names parts) ≡ true
      → Spells parts (captures parts) (text done parts)
  unfolding text captures names IsFillable text_in
  spells-text done [] f h = ended
  spells-text done (literal t ∷ more) (l, f) h = spelled t refl (spells-text done more f h)
  spells-text done (param name c ∷ more) (l, r, v, a, f) h =
      let there : text_in name done ≡ true = ground (arith, h) in
      filled name c (values name) a (rw there refl) (spells-text done more f (ground (arith, h)))

module _ (float_text : Text → Option Text) (values : Text → Text) where
  -- Where the names of a route's parameters and the texts around them have no braces, and the convertor
  -- of each parameter prints the value that is given for it as a text with no opening brace which it
  -- accepts, the route has a path for exactly these parameters: it is the path of the route with the
  -- texts in the places of the parameters, and the route's own pattern matches it.
  pub match-route_url_path_for :
      (path_of_route own : Text) (c : Compiled) (params : List (Text × Value))
      → starts_with path_of_route (codes "/") ≡ true
      → compile_path path_of_route ≡ ok c
      → IsFillable values c.regex
      → All (IsPrinted values float_text c.param_convertors) params
      → IsFresh [] params
      → same_keys params c.param_convertors ≡ true
      → (path : Text) × (route_url_path_for float_text c own own params ≡ ok path)
        × Spells c.regex (captures values c.regex) path
        × (match c.regex path ≢ none)
  unfolding route_url_path_for replace_params path_of same_keys text_in names
  match-route_url_path_for path_of_route own c params rooted compiled fillable prints fresh keys =
      let (formatted, listed) = compile_path-format path_of_route c rooted compiled in
      let known =
        subst (λ l. all (λ i. text_in i.0 (map (λ j. j.0) l)) params ≡ true) listed
          (ground (arith, keys)) in
      let given =
        subst (λ l. all (λ j. text_in j.0 (map (λ i. i.0) params)) l ≡ true) listed
          (ground (arith, keys)) in
      let done = added [] params in
      let filled_in =
        ap (λ t. replace_items float_text c.param_convertors t [] params)
          (formatted ∙ sym (text-format values c.regex))
        ∙ replace_items-text values float_text c.param_convertors c.regex [] params [] fillable
            prints known fresh in
      let named : text_eq own own ≡ true = (text_eq_iff own own).1 refl in
      let spells =
        spells-text values done c.regex fillable (all-added params (convertors c.regex) given) in
      (text values done c.regex, rw (named, keys, filled_in) refl, spells, match_complete spells)
