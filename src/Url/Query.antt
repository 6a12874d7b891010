-- ===== src/Url/Query.antt =====
-- rustlette/datastructures.py: `include_query_params`, `replace_query_params` and `remove_query_params` of
-- `URL`. `parse_qsl` and `urlencode` of Python's urllib are parameters, on pairs of texts; a value is
-- given as its text.
pub mod Removed
use mathlib.Core.List.{map}
use rustlette.Prelude.{
  ◌≡◌, refl, ap, ◌∙◌, Bool, true, false, not, Option, none, some, List, [], ◌∷◌, ◌++◌, Text,
  text_eq_instance, keep, text_in, text_eq,
}
use rustlette.Prelude.Exec.{Result, ok, err}
use rustlette.MultiDict.{MultiDict, from_items, update, pop, getlist}
use rustlette.MultiDict.Dict
use rustlette.Url.{Components, UrlError, urlsplit}
use rustlette.Url.Replace.{Changes, no_changes, replace, and_then}

-- `for key in keys: params.pop(key, None)`
pop_each : List Text → MultiDict Text Text → MultiDict Text Text
unfolding pop
pop_each [] m = m
pop_each (key ∷ keys) m = pop_each keys (pop key [] m).1

module _ (is_netloc : Text → Bool) (parse_qsl : Text → List (Text × Text))
    (urlencode : List (Text × Text) → Text) where
  with_query : Text → (query : Text) → Result UrlError Text
  unfolding replace
  with_query url query = replace is_netloc (record no_changes { query = some query }) url

  -- `MultiDict(parse_qsl(self.query, keep_blank_values=True))`
  params_of : Components → MultiDict Text Text
  unfolding from_items
  params_of c = from_items (parse_qsl c.query)

  unfoldable pub include_query_params : List (Text × Text) → Text → Result UrlError Text
  unfolding with_query params_of urlsplit update Dict.update
  include_query_params items url =
      and_then (urlsplit is_netloc url)
        (λ c. with_query url (urlencode ((update (Dict.update [] items) (params_of c)).list)))

  unfoldable pub replace_query_params : List (Text × Text) → Text → Result UrlError Text
  unfolding with_query
  replace_query_params items url = with_query url (urlencode items)

  unfoldable pub remove_query_params : List Text → Text → Result UrlError Text
  unfolding with_query params_of urlsplit pop_each
  remove_query_params keys url =
      and_then (urlsplit is_netloc url)
        (λ c. with_query url (urlencode ((pop_each keys (params_of c)).list)))
