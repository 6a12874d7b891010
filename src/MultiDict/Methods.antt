-- ===== src/MultiDict/Methods.antt =====
-- Every sequence of methods, and what the reading methods give behind the writing ones.
use mathlib.Core.List.{map}
use rustlette.Prelude.{
  ◌≡◌, refl, ap, none, some, List, [], ◌∷◌, ◌++◌, Eq, if◌then◌else◌, keep, append-nil, arith,
  Bool-cases, inl, inr,
}
use rustlette.MultiDict.Dict
use rustlette.MultiDict.{
  MultiDict, from_items, getlist, get_item, without, pop, delete_item, popitem, poplist, clear,
  setdefault, setlist, set_item, append, absent, update,
}
use rustlette.MultiDict.Laws.{
  get-update, IsConsistent, last_value, from_items-IsConsistent, setlist-IsConsistent,
  append-IsConsistent, setdefault-IsConsistent, pop-IsConsistent, poplist-IsConsistent,
  update-IsConsistent, delete_item-IsConsistent, popitem-IsConsistent,
}

-- The methods that change a multidict, with their arguments.
pub data Method {ℓ} (K V : Type ℓ) : Type ℓ where
  set_method append_method setdefault_method pop_method : K → V → Method K V
  delete_method poplist_method : K → Method K V
  setlist_method : K → List V → Method K V
  update_method : List (K × V) → Method K V
  popitem_method clear_method : Method K V

module _ {ℓ} {K V : Type ℓ} ⦃e : Eq K⦄ where
  -- One call, with its exception caught.
  unfoldable pub call : Method K V → MultiDict K V → MultiDict K V
  call (set_method key value) m = set_item key value m
  call (append_method key value) m = append key value m
  call (setdefault_method key value) m = setdefault key value m
  call (pop_method key default) m = (pop key default m).1
  call (delete_method key) m = (delete_item key m).1
  call (poplist_method key) m = (poplist key m).1
  call (setlist_method key values) m = setlist key values m
  call (update_method items) m = update items m
  call popitem_method m = (popitem m).1
  call clear_method m = clear m

  unfoldable pub calls : List (Method K V) → MultiDict K V → MultiDict K V
  unfolding call
  calls [] m = m
  calls (c ∷ cs) m = calls cs (call c m)

  call-IsConsistent :
      (c : Method K V) (m : MultiDict K V) → IsConsistent m → IsConsistent (call c m)
  unfolding call set_item clear Dict.get
  call-IsConsistent (set_method key value) m h = setlist-IsConsistent h key (value ∷ [])
  call-IsConsistent (append_method key value) m h = append-IsConsistent h key value
  call-IsConsistent (setdefault_method key value) m h = setdefault-IsConsistent h key value
  call-IsConsistent (pop_method key default) m h = pop-IsConsistent h key default
  call-IsConsistent (delete_method key) m h = delete_item-IsConsistent h key
  call-IsConsistent (poplist_method key) m h = poplist-IsConsistent h key
  call-IsConsistent (setlist_method key values) m h = setlist-IsConsistent h key values
  call-IsConsistent (update_method items) m h = update-IsConsistent h items
  call-IsConsistent popitem_method m h = popitem-IsConsistent h
  call-IsConsistent clear_method m h = record { agree = λ key. refl }

  calls-IsConsistent :
      (cs : List (Method K V)) (m : MultiDict K V) → IsConsistent m → IsConsistent (calls cs m)
  unfolding calls
  calls-IsConsistent [] m h = h
  calls-IsConsistent (c ∷ cs) m h = calls-IsConsistent cs (call c m) (call-IsConsistent c m h)

  -- Whatever methods are called on a multidict that was built from pairs, the value that it gives
  -- for a key is the last one in its list of pairs, and a key is missing exactly if it is in no pair.
  pub get_item-calls :
      (items : List (K × V)) (cs : List (Method K V)) (key : K)
      → get_item key (calls cs (from_items items))
        ≡ last_value key (calls cs (from_items items)).list
  unfolding get_item
  get_item-calls items cs key =
      (calls-IsConsistent cs (from_items items) (from_items-IsConsistent items)).agree key

  -- the values of a key in a list of pairs
  abbrev values_of : K → List (K × V) → List V
  values_of key l = map (λ i. i.1) (keep (λ i. e.beq i.0 key) l)

  values_of-append :
      (key : K) (xs ys : List (K × V))
      → values_of key (xs ++ ys) ≡ values_of key xs ++ values_of key ys
  values_of-append key [] ys = refl
  values_of-append key ((k, v) ∷ xs) ys = ground (arith, values_of-append key xs ys)

  values_of-without :
      (key j : K) (l : List (K × V))
      → values_of j (without key l) ≡ (if e.beq key j then [] else values_of j l)
  unfolding without
  values_of-without key j [] = ground arith
  values_of-without key j ((k, v) ∷ l) =
      ground (arith, values_of-without key j l, e.beq_iff k key, e.beq_iff k j, e.beq_iff key j)

  values_of-pairs :
      (key j : K) (values : List V)
      → values_of j (map (λ value. (key, value)) values) ≡ (if e.beq key j then values else [])
  values_of-pairs key j [] = ground arith
  values_of-pairs key j (v ∷ values) = ground (arith, values_of-pairs key j values)

  -- `setlist` replaces the values of its key, all of them, and leaves those of the other keys alone,
  -- in their order; an empty list of values removes the key.
  pub getlist-setlist :
      (key j : K) (values : List V) (m : MultiDict K V)
      → getlist j (setlist key values m) ≡ (if e.beq key j then values else getlist j m)
  unfolding getlist setlist
  getlist-setlist key j [] m = values_of-without key j m.list
  getlist-setlist key j (v ∷ values) m = ground (
    arith,
    values_of-append j (without key m.list) (map (λ value. (key, value)) (v ∷ values)),
    values_of-without key j m.list,
    values_of-pairs key j (v ∷ values),
    append-nil (values_of j m.list),
  )

  values_of-absent :
      (j : K) (other l : List (K × V))
      → values_of j (absent other l)
        ≡ elim (Dict.get j other) [ none ↦ values_of j l | some v ↦ [] ]
  unfolding absent
  values_of-absent j other [] = ground arith
  values_of-absent j other ((k, v) ∷ l) = elim (Bool-cases (e.beq k j)) [
    | inl same ↦
        let p = (e.beq_iff k j).0 same in
        ground (arith, values_of-absent j other l, ap (λ x. Dict.get x other) p)
    | inr differ ↦ ground (arith, values_of-absent j other l)
  ]

  values_of-missing : (j : K) (l : List (K × V)) → last_value j l ≡ none → values_of j l ≡ []
  values_of-missing j [] h = refl
  values_of-missing j ((k, v) ∷ l) h = ground (arith, values_of-missing j l)

  -- `update` replaces the values of every key that it brings by the values that it brings, and leaves
  -- those of the other keys alone.
  pub getlist-update :
      (items : List (K × V)) (j : K) (m : MultiDict K V)
      → getlist j (update items m)
        ≡ elim (last_value j items) [ none ↦ getlist j m | some v ↦ getlist j (from_items items) ]
  unfolding getlist update from_items Dict.get
  getlist-update items j m =
      let value = Dict.update [] items in
      ground (
        arith,
        values_of-append j (absent value m.list) items,
        values_of-absent j value m.list,
        values_of-missing j items,
        get-update j [] items,
        append-nil (values_of j m.list),
      )
