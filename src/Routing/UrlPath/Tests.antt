-- ===== src/Routing/UrlPath/Tests.antt =====
-- Runs of the paths of named routes, and of the convertor of integers.
use rustlette.Prelude.{
  ◌≡◌, ◌≢◌, if◌then◌else◌, List, refl, Option, none, some, [], ◌∷◌, Text, codes, text_eq, text_in,
  starts_with, contains_text, contains_char,
}
use rustlette.Prelude.Exec.{ok, err}
use rustlette.Routing.Convertors.{
  Value, string_convertor, integer_convertor, path_convertor, text_value, int_value, to_string,
}
use rustlette.Prelude.Decimal.{str}
use rustlette.Routing.Pattern.{Compiled, literal, param, match}
use rustlette.Routing.Pattern.Matching.{Spells}
use rustlette.Routing.UrlPath.Led.{captures, match-route_url_path_for}
use rustlette.Routing.UrlPath.Named.{
  named_route, named_mount, no_routes, then_routes, routes_url_path_for,
}
use rustlette.Routing.UrlPath.{route_url_path_for, no_match_found}

abbrev no_floats : Text → Option Text
no_floats s = none

abbrev pair : Compiled
pair = record {
  regex =
      literal (codes "/")
      ∷ param (codes "a") string_convertor
      ∷ literal (codes "/")
      ∷ param (codes "b") integer_convertor
      ∷ literal []
      ∷ [];
  path_format = codes "/{a}/{b}";
  param_convertors = (codes "a", string_convertor) ∷ (codes "b", integer_convertor) ∷ [];
}

filled :
    route_url_path_for no_floats pair
      (codes "n")
      (codes "n")
      ((codes "a", text_value (codes "x")) ∷ (codes "b", int_value 12) ∷ [])
    ≡ ok (codes "/x/12")
unfolding route_url_path_for to_string text_eq text_in starts_with contains_text contains_char str
filled = refl

missing :
    route_url_path_for no_floats pair
      (codes "n")
      (codes "n")
      ((codes "a", text_value (codes "x")) ∷ [])
    ≡ err no_match_found
unfolding route_url_path_for text_eq text_in
missing = refl

-- A value that is spelled like a later placeholder is replaced as well.
replaced_value :
    route_url_path_for no_floats pair
      (codes "n")
      (codes "n")
      ((codes "a", text_value (codes "{b}")) ∷ (codes "b", int_value 12) ∷ [])
    ≡ ok (codes "/12/12")
unfolding route_url_path_for to_string text_eq text_in starts_with contains_text contains_char str
replaced_value = refl

-- The name of a route below a mount.
abbrev api : Compiled
api = record {
  regex = literal (codes "/api/") ∷ param (codes "path") path_convertor ∷ literal [] ∷ [];
  path_format = codes "/api/{path}";
  param_convertors = (codes "path", path_convertor) ∷ [];
}

below_mount :
    routes_url_path_for no_floats
      (then_routes
        (named_mount api
          (some (codes "api"))
          (then_routes (named_route pair (codes "n") (codes "http")) no_routes))
        no_routes)
      (codes "api:n")
      ((codes "a", text_value (codes "x")) ∷ (codes "b", int_value 12) ∷ [])
    ≡ ok (record { path = codes "/api/x/12"; protocol = codes "http"; host = [] })
unfolding routes_url_path_for to_string text_eq text_in starts_with contains_text contains_char str
below_mount = refl

abbrev texts : Text → Text
texts name = if text_eq name (codes "a") then codes "x" else codes "12"

abbrev given : List (Text × Value)
given = (codes "b", int_value 12) ∷ (codes "a", text_value (codes "x")) ∷ []

match-route_url_path_for_example :
    (path : Text) × (route_url_path_for no_floats pair (codes "n") (codes "n") given ≡ ok path)
    × Spells pair.regex (captures texts pair.regex) path
    × (match pair.regex path ≢ none)
unfolding starts_with rustlette.Routing.Pattern.compile_path
    rustlette.Routing.UrlPath.Led.IsFillable rustlette.Routing.UrlPath.Led.IsPrinted contains_char
    rustlette.Routing.UrlPath.Led.IsFresh rustlette.Routing.UrlPath.same_keys
match-route_url_path_for_example =
    match-route_url_path_for no_floats texts (codes "/{a}/{b:int}") (codes "n") pair given refl refl
      (refl, (refl, refl, refl, refl, (refl, (refl, refl, refl, refl, (refl, tt)))))
      ((integer_convertor, refl, refl, refl), ((string_convertor, refl, refl, refl), tt))
      (refl, (refl, tt)) refl
