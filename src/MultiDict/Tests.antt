-- ===== src/MultiDict/Tests.antt =====
-- Runs of `MultiDict`, and its theorems at concrete inputs.
use rustlette.Prelude.{ℕ, ◌≡◌, refl, List, [], ◌∷◌, Text, codes, text_eq_instance, text_eq}
use rustlette.MultiDict.{set_item, append, delete_item, popitem, from_items, get_item}
use rustlette.MultiDict.Dict
use rustlette.MultiDict.Laws.{last_value}
use rustlette.MultiDict.Methods.{
  Method, append_method, set_method, popitem_method, delete_method, calls, get_item-calls,
}

abbrev items : List (Text × ℕ)
items = (codes "a", 1) ∷ (codes "b", 2) ∷ (codes "a", 3) ∷ []

abbrev script : List (Method Text ℕ)
script =
    append_method (codes "b") 4
    ∷ delete_method (codes "c")
    ∷ popitem_method
    ∷ set_method (codes "c") 5
    ∷ []

calls_test :
    (calls script (from_items items)).list ≡ (codes "a", 1) ∷ (codes "a", 3) ∷ (codes "c", 5) ∷ []
unfolding calls from_items set_item append delete_item popitem text_eq Dict.get Dict.set Dict.delete
    Dict.last Dict.update
calls_test = refl

get_item-calls_example :
    get_item (codes "a") (calls script (from_items items))
    ≡ last_value (codes "a") (calls script (from_items items)).list
get_item-calls_example = get_item-calls items script (codes "a")
