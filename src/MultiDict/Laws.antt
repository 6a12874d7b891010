-- ===== src/MultiDict/Laws.antt =====
-- The invariant of `MultiDict`: `_dict` holds, for each key, the last value that `_list` has for it.
use mathlib.Core.List.{map}
use rustlette.Prelude.{
  ◌≡◌, refl, ap, ◌∙◌, Option, none, some, List, [], ◌∷◌, ◌++◌, Eq, if◌then◌else◌, not, keep, arith,
  Bool-cases, Option-cases, inl, inr,
}
use rustlette.MultiDict.Dict
use rustlette.MultiDict.Dict.{get-set, get-delete}
use rustlette.MultiDict.{
  MultiDict, from_items, without, pop, delete_item, popitem, poplist, setdefault, setlist, append,
  absent, update,
}

abbrev pub or_else {ℓ} : {A : Type ℓ} → Option A → Option A → Option A
or_else none b = b
or_else (some a) b = some a

or_else-none {ℓ} : {A : Type ℓ} (a : Option A) → or_else a none ≡ a
or_else-none none = refl
or_else-none (some a) = refl

module _ {ℓ} {K V : Type ℓ} ⦃e : Eq K⦄ where
  -- the last value under a key in a list of pairs
  abbrev pub last_value : K → List (K × V) → Option V
  last_value key [] = none
  last_value key ((k, v) ∷ l) = or_else (last_value key l) (if e.beq k key then some v else none)

  -- `_dict` and `_list` agree
  pub record IsConsistent (m : MultiDict K V) : Type ℓ where
    pub agree : (key : K) → Dict.get key m.dict ≡ last_value key m.list

  last_value-append :
      (key : K) (xs ys : List (K × V))
      → last_value key (xs ++ ys) ≡ or_else (last_value key ys) (last_value key xs)
  last_value-append key [] ys = ground arith
  last_value-append key ((k, v) ∷ xs) ys = ground (arith, last_value-append key xs ys)

  last_value-without :
      (key j : K) (l : List (K × V))
      → last_value j (without key l) ≡ (if e.beq key j then none else last_value j l)
  unfolding without
  last_value-without key j [] = ground arith
  last_value-without key j ((k, v) ∷ l) =
      ground (arith, last_value-without key j l, e.beq_iff k key, e.beq_iff k j, e.beq_iff key j)

  last_value-values :
      (key j : K) (v : V) (values : List V)
      → last_value j (map (λ value. (key, value)) (v ∷ values))
        ≡ (if e.beq key j then some (Dict.last_of v values) else none)
  last_value-values key j v [] = ground arith
  last_value-values key j v (w ∷ values) = ground (arith, last_value-values key j w values)

  pub get-update :
      (key : K) (d items : List (K × V))
      → Dict.get key (Dict.update d items) ≡ or_else (last_value key items) (Dict.get key d)
  unfolding Dict.update
  get-update key d [] = refl
  get-update key d ((k, v) ∷ items) =
      ground (arith, get-update key (Dict.set k v d) items, get-set k key v d)

  -- a dictionary has each key once
  abbrev IsUnique : List (K × V) → Type ℓ
  IsUnique [] = Unit
  IsUnique ((k, v) ∷ d) = (Dict.get k d ≡ none) × IsUnique d

  set-IsUnique :
      (key : K) (value : V) (d : List (K × V)) → IsUnique d → IsUnique (Dict.set key value d)
  unfolding Dict.set Dict.get
  set-IsUnique key value [] h = (refl, tt)
  set-IsUnique key value ((k, v) ∷ d) (new, h) = elim (Bool-cases (e.beq k key)) [
    | inl same ↦ rw same (new, h)
    | inr differ ↦ rw differ (
      ground (arith, get-set key k value d, e.beq_iff key k, e.beq_iff k key),
      set-IsUnique key value d h,
    )
  ]

  update-IsUnique : (d items : List (K × V)) → IsUnique d → IsUnique (Dict.update d items)
  unfolding Dict.update
  update-IsUnique d [] h = h
  update-IsUnique d ((k, v) ∷ items) h =
      update-IsUnique (Dict.set k v d) items (set-IsUnique k v d h)

  last_value_of_IsUnique :
      (key : K) (d : List (K × V)) → IsUnique d → last_value key d ≡ Dict.get key d
  unfolding Dict.get
  last_value_of_IsUnique key [] h = refl
  last_value_of_IsUnique key ((k, v) ∷ d) (new, h) = elim (Bool-cases (e.beq k key)) [
    | inl same ↦
        let p = (e.beq_iff k key).0 same in
        ground (arith, last_value_of_IsUnique key d h, ap (λ x. Dict.get x d) p)
    | inr differ ↦ ground (arith, last_value_of_IsUnique key d h)
  ]

  last_value-absent :
      (j : K) (other l : List (K × V))
      → last_value j (absent other l)
        ≡ elim (Dict.get j other) [ none ↦ last_value j l | some v ↦ none ]
  unfolding absent
  last_value-absent j other [] = ground arith
  last_value-absent j other ((k, v) ∷ l) = elim (Bool-cases (e.beq k j)) [
    | inl same ↦
        let p = (e.beq_iff k j).0 same in
        ground (arith, last_value-absent j other l, ap (λ x. Dict.get x other) p)
    | inr differ ↦ ground (arith, last_value-absent j other l)
  ]

  -- A multidict that is built from a list of pairs is consistent.
  pub from_items-IsConsistent : (items : List (K × V)) → IsConsistent (from_items items)
  unfolding from_items Dict.get
  from_items-IsConsistent items = record {
    agree = λ key. get-update key [] items ∙ or_else-none (last_value key items);
  }

  pub list-pop :
      (key : K) (default : V) (m : MultiDict K V)
      → (pop key default m).1.list ≡ keep (λ i. not (e.beq i.0 key)) m.list
  unfolding pop without
  list-pop key default m = refl

  module _ {m : MultiDict K V} (h : IsConsistent m) where
    delete-agree :
        (key j : K) → Dict.get j (Dict.delete key m.dict) ≡ last_value j (without key m.list)
    delete-agree key j =
        ground (arith, get-delete key j m.dict, last_value-without key j m.list, h.agree j)

    pub setlist-IsConsistent : (key : K) (values : List V) → IsConsistent (setlist key values m)
    unfolding setlist
    setlist-IsConsistent key [] = record { agree = delete-agree key }
    setlist-IsConsistent key (v ∷ values) = record {
      agree = λ j. ground (
        arith,
        get-set key j (Dict.last_of v values) m.dict,
        last_value-append j (without key m.list) (map (λ value. (key, value)) (v ∷ values)),
        last_value-values key j v values,
        last_value-without key j m.list,
        h.agree j,
      );
    }

    pub append-IsConsistent : (key : K) (value : V) → IsConsistent (append key value m)
    unfolding append
    append-IsConsistent key value = record {
      agree = λ j. ground (
        arith,
        get-set key j value m.dict,
        last_value-append j m.list ((key, value) ∷ []),
        h.agree j,
      );
    }

    pub setdefault-IsConsistent : (key : K) (value : V) → IsConsistent (setdefault key value m)
    unfolding setdefault
    setdefault-IsConsistent key value = record {
      agree = λ j. ground (
        arith,
        get-set key j value m.dict,
        last_value-append j m.list ((key, value) ∷ []),
        h.agree j,
      );
    }

    pub pop-IsConsistent : (key : K) (default : V) → IsConsistent (pop key default m).1
    unfolding pop
    pop-IsConsistent key default = record { agree = delete-agree key }

    pub poplist-IsConsistent : (key : K) → IsConsistent (poplist key m).1
    unfolding poplist
    poplist-IsConsistent key = record { agree = delete-agree key }

    pub update-IsConsistent : (items : List (K × V)) → IsConsistent (update items m)
    unfolding update Dict.get
    update-IsConsistent items = record {
      agree = λ j.
          let value = Dict.update [] items in
          ground (
            arith,
            get-update j m.dict value,
            get-update j [] items,
            last_value_of_IsUnique j value (update-IsUnique [] items tt),
            last_value-append j (absent value m.list) items,
            last_value-absent j value m.list,
            h.agree j,
          );
    }

    pub delete_item-IsConsistent : (key : K) → IsConsistent (delete_item key m).1
    unfolding delete_item
    delete_item-IsConsistent key = elim (Option-cases (Dict.get key m.dict)) [
      | inl missing ↦
          rw (missing, delete_item)
            (record {
              agree = λ j. ground (
                arith,
                last_value-without key j m.list,
                h.agree j,
                h.agree key,
                missing,
                e.beq_iff key j,
                λ (p : key ≡ j). ap (λ x. last_value x m.list) p,
              );
            })
      | inr (v, found) ↦ rw (found, delete_item) (record { agree = delete-agree key })
    ]

    pub popitem-IsConsistent : IsConsistent (popitem m).1
    unfolding popitem
    popitem-IsConsistent = elim (Option-cases (Dict.last m.dict)) [
      | inl empty ↦ rw (empty, popitem) h
      | inr ((key, value), found) ↦ rw (found, popitem) (record { agree = delete-agree key })
    ]
