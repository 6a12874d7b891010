-- ===== src/Headers.antt =====
-- rustlette/datastructures.py: `Headers` and `MutableHeaders`, over the list of raw pairs `_list`.
-- Names and values are bytes; text is encoded as Latin-1, which may raise `UnicodeEncodeError`.
pub mod Laws
pub mod Encoding
mod Tests
use mathlib.Core.List.{map}
use rustlette.Prelude.{
  ℕ, zero, suc, ◌+◌, ◌≡◌, Bool, true, false, not, ◌&&◌, Option, none, some, List, [], ◌∷◌, ◌++◌,
  Text, Bytes, codes, text_eq, leb, ltb, ◌==◌, if◌then◌else◌, set, keep, any, length,
}
use rustlette.Prelude.Exec.{Result, ok, err}

abbrev pub RawHeaders : Type 0
RawHeaders = List (Bytes × Bytes)

pub data HeaderError : Type 0 where
  key_error unicode_encode_error : HeaderError

-- The operations behind the encoding, on a name that is in lower case already.
module _ (name : Bytes) where
  -- `__getitem__` and `get`, with `None` for a missing name
  unfoldable pub get_raw : RawHeaders → Option Bytes
  get_raw [] = none
  get_raw ((k, v) ∷ l) = if text_eq k name then some v else get_raw l

  unfoldable pub getlist_raw : RawHeaders → List Bytes
  getlist_raw [] = []
  getlist_raw ((k, v) ∷ l) = let rest = getlist_raw l in if text_eq k name then v ∷ rest else rest

  -- `__contains__`
  unfoldable pub contains_raw : RawHeaders → Bool
  contains_raw [] = false
  contains_raw ((k, v) ∷ l) = if text_eq k name then true else contains_raw l

  -- the loop that collects `found_indexes` and `pop_indexes`, from index `idx` on
  found_indexes : ℕ → RawHeaders → List ℕ
  found_indexes idx [] = []
  found_indexes idx ((k, v) ∷ l) =
      let rest = found_indexes (suc idx) l in if text_eq k name then idx ∷ rest else rest

-- `del l[idx]`
delete_at {ℓ} : {A : Type ℓ} → ℕ → List A → List A
delete_at i [] = []
delete_at zero (x ∷ l) = l
delete_at (suc i) (x ∷ l) = x ∷ delete_at i l

-- `for idx in reversed(indexes): del l[idx]`: the last index goes first.
delete_each {ℓ} : {A : Type ℓ} → List ℕ → List A → List A
unfolding delete_at
delete_each [] l = l
delete_each (i ∷ indexes) l = delete_at i (delete_each indexes l)

set_found : Bytes → Bytes → List ℕ → RawHeaders → RawHeaders
unfolding delete_each
set_found name value [] l = l ++ (name, value) ∷ []
set_found name value (idx ∷ indexes) l = set (delete_each indexes l) idx (name, value)

-- `MutableHeaders.__setitem__`
unfoldable pub set_raw : Bytes → Bytes → RawHeaders → RawHeaders
unfolding set_found found_indexes
set_raw name value l = set_found name value (found_indexes name 0 l) l

-- `MutableHeaders.__delitem__`
unfoldable pub delete_raw : Bytes → RawHeaders → RawHeaders
unfolding delete_each found_indexes
delete_raw name l = delete_each (found_indexes name 0 l) l

-- `MutableHeaders.setdefault`: the value that is returned, and the headers behind it
unfoldable pub setdefault_raw : Bytes → Bytes → RawHeaders → Bytes × RawHeaders
unfolding get_raw
setdefault_raw name value l = elim (get_raw name l) [
  | some found ↦ (found, l)
  | none ↦ (value, l ++ (name, value) ∷ [])
]

-- `MutableHeaders.append`
unfoldable pub append_raw : Bytes → Bytes → RawHeaders → RawHeaders
append_raw name value l = l ++ (name, value) ∷ []

-- `MutableHeaders.update` from the items of a mapping
unfoldable pub update_raw : List (Bytes × Bytes) → RawHeaders → RawHeaders
unfolding set_raw
update_raw [] l = l
update_raw ((name, value) ∷ items) l = update_raw items (set_raw name value l)

-- `MutableHeaders.add_vary_header`
unfoldable pub add_vary_header : Bytes → RawHeaders → RawHeaders
unfolding get_raw set_raw
add_vary_header vary l = elim (get_raw (codes "vary") l) [
  | some existing ↦ set_raw (codes "vary") (existing ++ (codes ", " ++ vary)) l
  | none ↦ set_raw (codes "vary") vary l
]
