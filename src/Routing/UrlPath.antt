-- ===== src/Routing/UrlPath.antt =====
-- rustlette/routing.py: `replace_params` and the path of a named route. `float_text` is the printing
-- of floats that `to_string` takes.
pub mod Named
pub mod Replaced
pub mod Led
mod Tests
use rustlette.Prelude.{
  ℕ, zero, suc, ◌-◌, Bool, true, false, not, ◌&&◌, Option, none, some, List, [], ◌∷◌, ◌++◌, Text,
  codes, text_eq, text_eq_instance, text_in, contains_text, starts_with, if◌then◌else◌, length, all,
}
use mathlib.Core.List.{map}
use rustlette.Prelude.Exec.{Result, ok, err}
use rustlette.MultiDict.Dict
use rustlette.Routing.Convertors.{Convertor, Value, to_string}
use rustlette.Routing.Pattern.{Compiled}

pub data UrlError : Type 0 where
  no_match_found key_error assertion_error : UrlError

-- `text.replace(old, new)` for a text `old` that is not empty; the first argument is how many
-- characters of a place that was replaced are still to be passed over
unfoldable pub replace : ℕ → Text → Text → Text → Text
unfolding starts_with
replace skip old new [] = []
replace (suc skip) old new (c ∷ s) = replace skip old new s
replace zero old new (c ∷ s) =
    let kept = replace zero old new s in
    let passed = replace (length old - 1) old new s in
    if starts_with (c ∷ s) old then new ++ passed else c ∷ kept

-- `"{" + key + "}"`
unfoldable pub placeholder : Text → Text
placeholder key = codes "{" ++ (key ++ codes "}")

-- two dicts have the same keys
unfoldable pub same_keys : {A B : Type 0} → List (Text × A) → List (Text × B) → Bool
unfolding text_in
same_keys d d' =
    all (λ i. text_in i.0 (map (λ j. j.0) d')) d && all (λ j. text_in j.0 (map (λ i. i.0) d)) d'

module _ (float_text : Text → Option Text) where
  -- `param_convertors[key].to_string(value)`
  printed : List (Text × Convertor) → Text → Value → Result UrlError Text
  unfolding to_string Dict.get
  printed convertors key value = elim (Dict.get key convertors) [
    | none ↦ err key_error
    | some c ↦ elim (to_string float_text c value) [ none ↦ err assertion_error | some s ↦ ok s ]
  ]

  -- The loop of `replace_params` over the items of `path_params`; what it does not pop is `left`.
  replace_items :
      List (Text × Convertor)
      → Text
      → (left items : List (Text × Value)) → Result UrlError (Text × List (Text × Value))
  unfolding replace placeholder printed contains_text
  replace_items convertors path left [] = ok (path, left)
  replace_items convertors path left ((key, value) ∷ items) =
      let kept = replace_items convertors path (left ++ (key, value) ∷ []) items in
      if contains_text (placeholder key) path
      then elim (printed convertors key value) [
        | err e ↦ err e
        | ok s ↦ replace_items convertors (replace zero (placeholder key) s path) left items
      ]
      else kept

  unfoldable pub replace_params :
      Text
      → List (Text × Convertor)
      → List (Text × Value)
      → Result UrlError (Text × List (Text × Value))
  unfolding replace_items
  replace_params path convertors params = replace_items convertors path [] params

  -- `assert not remaining_params`
  path_of : Result UrlError (Text × List (Text × Value)) → Result UrlError Text
  path_of (err e) = err e
  path_of (ok (path, [])) = ok path
  path_of (ok (path, p ∷ ps)) = err assertion_error

  -- `url_path_for` of a `Route` or a `WebSocketRoute`
  unfoldable pub route_url_path_for :
      Compiled → (route_name name : Text) → List (Text × Value) → Result UrlError Text
  unfolding same_keys path_of replace_params text_eq
  route_url_path_for c route_name name params =
      if text_eq name route_name && same_keys params c.param_convertors
      then path_of (replace_params c.path_format c.param_convertors params)
      else err no_match_found
