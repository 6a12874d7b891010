-- ===== src/Routing/Pattern/Tests.antt =====
-- Runs of the path patterns, and their theorems at concrete inputs.
use rustlette.Prelude.{◌≡◌, refl, List, [], ◌∷◌, Text, codes, text_eq, starts_with}
use rustlette.Prelude.Exec.{ok, err}
use rustlette.Routing.Convertors.{integer_convertor, path_convertor, accepts}
use rustlette.Routing.Pattern.{
  Segment, literal, param, compile_path, duplicated_param, unknown_convertor,
}
use rustlette.Routing.Pattern.Matching.{Spells, ended, spelled, filled}

abbrev users : List Segment
users =
    literal (codes "/users/")
    ∷ param (codes "id") integer_convertor
    ∷ literal (codes "/")
    ∷ param (codes "rest") path_convertor
    ∷ literal []
    ∷ []

compiled :
    compile_path (codes "/users/{id:int}/{rest:path}")
    ≡ ok (record {
      regex = users;
      path_format = codes "/users/{id}/{rest}";
      param_convertors = (codes "id", integer_convertor) ∷ (codes "rest", path_convertor) ∷ [];
    })
unfolding compile_path text_eq starts_with
compiled = refl

compiled_twice : compile_path (codes "/{a}/{a}") ≡ err duplicated_param
unfolding compile_path text_eq starts_with
compiled_twice = refl

compiled_unknown : compile_path (codes "/{a:b}") ≡ err (unknown_convertor (codes "b"))
unfolding compile_path text_eq starts_with
compiled_unknown = refl

abbrev values : List (Text × Text)
values = (codes "id", codes "42") ∷ (codes "rest", codes "a/b") ∷ []

spells : Spells users values (codes "/users/42/a/b")
unfolding accepts
spells = spelled (codes "/users/") refl (
    filled (codes "id") integer_convertor (codes "42") {s = codes "/a/b"} refl refl (
      spelled (codes "/") refl (
        filled (codes "rest") path_convertor (codes "a/b") {s = []} refl refl
          (spelled [] refl ended))))
