-- ===== src/MultiDict.antt =====
-- rustlette/datastructures.py: `ImmutableMultiDict` and `MultiDict`, with the two fields that their
-- methods keep in step: `_list` of all pairs, and `_dict` with one value for each key.
-- A Python dictionary is an association list in insertion order, with each key once.
pub mod Dict
pub mod Laws
pub mod Methods
mod Tests
use mathlib.Core.List.{map}
use rustlette.Prelude.{
  Bool, true, false, not, Option, none, some, List, [], ◌∷◌, ◌++◌, Eq, if◌then◌else◌, keep,
}
use rustlette.MultiDict.Dict

pub record MultiDict {ℓ} (K V : Type ℓ) : Type ℓ where
  pub dict : List (K × V)
  pub list : List (K × V)

module _ {ℓ} {K V : Type ℓ} ⦃e : Eq K⦄ where
  -- `ImmutableMultiDict.__init__` behind the conversion of its argument to a list of pairs
  unfoldable pub from_items : List (K × V) → MultiDict K V
  from_items items = record { dict = Dict.update [] items; list = items }

  unfoldable pub getlist : K → MultiDict K V → List V
  getlist key m = map (λ i. i.1) (keep (λ i. e.beq i.0 key) m.list)

  -- `m[key]`, with `none` for the `KeyError`, and `m.get(key)`
  unfoldable pub get_item : K → MultiDict K V → Option V
  get_item key m = Dict.get key m.dict

  -- `key in m`
  unfoldable pub contains : K → MultiDict K V → Bool
  contains key m = elim (Dict.get key m.dict) [ none ↦ false | some v ↦ true ]

  -- `[(k, v) for k, v in self._list if k != key]`
  without : K → List (K × V) → List (K × V)
  without key = keep (λ i. not (e.beq i.0 key))

  -- `pop(key, default)`; without a default it is `None`
  unfoldable pub pop : K → V → MultiDict K V → V × MultiDict K V
  unfolding without
  pop key default m = (
    elim (Dict.get key m.dict) [ none ↦ default | some v ↦ v ],
    record { dict = Dict.delete key m.dict; list = without key m.list },
  )

  -- `del m[key]`: the list is rebuilt before `del self._dict[key]` may raise `KeyError`, which is
  -- the result `false`
  unfoldable pub delete_item : K → MultiDict K V → Bool × MultiDict K V
  unfolding without
  delete_item key m = elim (Dict.get key m.dict) [
    | none ↦ (false, record m { list = without key m.list })
    | some v ↦ (true, record { dict = Dict.delete key m.dict; list = without key m.list })
  ]

  -- `popitem()`: the item that `dict.popitem` takes is the last; `none` is its `KeyError`
  unfoldable pub popitem : MultiDict K V → Option (K × V) × MultiDict K V
  unfolding without
  popitem m = elim (Dict.last m.dict) [
    | none ↦ (none, m)
    | some (key, value) ↦
        (some (key, value), record { dict = Dict.delete key m.dict; list = without key m.list })
  ]

  unfoldable pub poplist : K → MultiDict K V → List V × MultiDict K V
  unfolding getlist without
  poplist key m =
      (getlist key m, record { dict = Dict.delete key m.dict; list = without key m.list })

  unfoldable pub clear : MultiDict K V → MultiDict K V
  clear m = record { dict = []; list = [] }

  unfoldable pub setdefault : K → V → MultiDict K V → MultiDict K V
  setdefault key default m = elim (Dict.get key m.dict) [
    | none ↦ record { dict = Dict.set key default m.dict; list = m.list ++ (key, default) ∷ [] }
    | some v ↦ m
  ]

  -- `setlist(key, values)`
  unfoldable pub setlist : K → List V → MultiDict K V → MultiDict K V
  unfolding without
  setlist key [] m = record { dict = Dict.delete key m.dict; list = without key m.list }
  setlist key (v ∷ values) m = record {
    dict = Dict.set key (Dict.last_of v values) m.dict;
    list = without key m.list ++ map (λ value. (key, value)) (v ∷ values);
  }

  -- `m[key] = value`
  unfoldable pub set_item : K → V → MultiDict K V → MultiDict K V
  unfolding setlist
  set_item key value m = setlist key (value ∷ []) m

  unfoldable pub append : K → V → MultiDict K V → MultiDict K V
  append key value m = record {
    dict = Dict.set key value m.dict;
    list = m.list ++ (key, value) ∷ [];
  }

  -- the pairs whose key is none of the keys of `other`
  absent : List (K × V) → List (K × V) → List (K × V)
  absent other = keep (λ i. elim (Dict.get i.0 other) [ none ↦ true | some v ↦ false ])

  -- `update(items)`; the argument becomes a `MultiDict` first
  unfoldable pub update : List (K × V) → MultiDict K V → MultiDict K V
  unfolding from_items absent
  update items m =
      let value : MultiDict K V = from_items items in
      record { dict = Dict.update m.dict value.dict; list = absent value.dict m.list ++ value.list }
