-- ===== src/Headers/Laws.antt =====
-- `MutableHeaders` against plain descriptions: the loops over indexes replace the first pair of a
-- name and drop its others.
use mathlib.Core.List.{map}
use rustlette.Prelude.{
  Option-cases, ℕ, suc, ◌≡◌, ◌≢◌, refl, ap, ◌∙◌, not, Option, none, some, List, [], ◌∷◌, ◌++◌,
  Bytes, codes, text_eq, text_eq_iff, if◌then◌else◌, keep, arith, Bool-cases, inl, inr,
}
use rustlette.Headers.{
  RawHeaders, get_raw, getlist_raw, found_indexes, delete_each, set_found, set_raw, delete_raw,
  setdefault_raw, update_raw, add_vary_header,
}

-- The pairs of the other names, in their order.
abbrev pub others : Bytes → RawHeaders → RawHeaders
others name = keep (λ h. not (text_eq h.0 name))

-- The pair in the place of the first one of its name, and the others of the name gone; at the end
-- if the name is new.
abbrev pub put : Bytes → Bytes → RawHeaders → RawHeaders
put name value [] = (name, value) ∷ []
put name value ((k, v) ∷ l) =
    let rest = put name value l in
    if text_eq k name then (name, value) ∷ others name l else (k, v) ∷ rest

module _ (name : Bytes) where
  found_indexes-suc :
      (n : ℕ) (l : RawHeaders) → found_indexes name (suc n) l ≡ map suc (found_indexes name n l)
  unfolding found_indexes
  found_indexes-suc n [] = refl
  found_indexes-suc n ((k, v) ∷ l) = ground (arith, found_indexes-suc (suc n) l)

  delete_each-suc :
      (indexes : List ℕ) (h : Bytes × Bytes) (l : RawHeaders)
      → delete_each (map suc indexes) (h ∷ l) ≡ h ∷ delete_each indexes l
  unfolding delete_each
  delete_each-suc [] h l = refl
  delete_each-suc (i ∷ indexes) h l = rw (delete_each-suc indexes h l)

  delete_each-found : (l : RawHeaders) → delete_each (found_indexes name 0 l) l ≡ others name l
  unfolding found_indexes delete_each
  delete_each-found [] = refl
  delete_each-found ((k, v) ∷ l) = elim (Bool-cases (text_eq k name)) [
    | inl same ↦ rw same (
        rw (found_indexes-suc 0 l)
          (rw (delete_each-suc (found_indexes name 0 l) (k, v) l) (delete_each-found l)))
    | inr other ↦ rw other (
        rw (found_indexes-suc 0 l)
          (rw (delete_each-suc (found_indexes name 0 l) (k, v) l) (rw (delete_each-found l))))
  ]

  set_found-suc :
      (value : Bytes) (indexes : List ℕ) (h : Bytes × Bytes) (l : RawHeaders)
      → set_found name value (map suc indexes) (h ∷ l) ≡ h ∷ set_found name value indexes l
  unfolding set_found
  set_found-suc value [] h l = refl
  set_found-suc value (i ∷ indexes) h l = rw (delete_each-suc indexes h l)

  set_found-head :
      (value : Bytes) (indexes : List ℕ) (h : Bytes × Bytes) (l : RawHeaders)
      → set_found name value (0 ∷ map suc indexes) (h ∷ l) ≡ (name, value) ∷ delete_each indexes l
  unfolding set_found
  set_found-head value indexes h l = rw (delete_each-suc indexes h l)

  -- Deleting a header keeps exactly the pairs of the other names, in their order.
  pub delete_raw-eq-others : (l : RawHeaders) → delete_raw name l ≡ others name l
  unfolding delete_raw
  delete_raw-eq-others l = delete_each-found l

  set_found-put :
      (value : Bytes) (l : RawHeaders)
      → set_found name value (found_indexes name 0 l) l ≡ put name value l
  unfolding found_indexes
  set_found-put value [] = unfold set_found in refl
  set_found-put value ((k, v) ∷ l) = elim (Bool-cases (text_eq k name)) [
    | inl same ↦ rw same (
        rw (found_indexes-suc 0 l)
          (rw (set_found-head value (found_indexes name 0 l) (k, v) l) (rw (delete_each-found l))))
    | inr other ↦ rw other (
        rw (found_indexes-suc 0 l)
          (rw (set_found-suc value (found_indexes name 0 l) (k, v) l) (rw (set_found-put value l))))
  ]

  -- Setting a header puts the pair in the place of the first one of its name (at the end if there
  -- is none), drops the other pairs of the name, and keeps all other pairs in their order.
  pub set_raw-eq-put : (value : Bytes) (l : RawHeaders) → set_raw name value l ≡ put name value l
  unfolding set_raw
  set_raw-eq-put value l = set_found-put value l

  get_raw-others : (j : Bytes) (l : RawHeaders) → name ≢ j → get_raw j (others name l) ≡ get_raw j l
  unfolding get_raw
  get_raw-others j [] h = refl
  get_raw-others j ((k, v) ∷ l) h =
      ground (arith, get_raw-others j l h, text_eq_iff k name, text_eq_iff k j)

  getlist_raw-others : (l : RawHeaders) → getlist_raw name (others name l) ≡ []
  unfolding getlist_raw
  getlist_raw-others [] = refl
  getlist_raw-others ((k, v) ∷ l) = ground (arith, getlist_raw-others l)

  get_raw-put :
      (value j : Bytes) (l : RawHeaders)
      → get_raw j (put name value l) ≡ (if text_eq name j then some value else get_raw j l)
  unfolding get_raw
  get_raw-put value j [] = refl
  get_raw-put value j ((k, v) ∷ l) = ground (
    arith,
    get_raw-put value j l,
    text_eq_iff k name,
    text_eq_iff k j,
    text_eq_iff name j,
    get_raw-others j l,
  )

  getlist_raw-put :
      (value : Bytes) (l : RawHeaders) → getlist_raw name (put name value l) ≡ value ∷ []
  unfolding getlist_raw
  getlist_raw-put value [] = ground (arith, text_eq_iff name name)
  getlist_raw-put value ((k, v) ∷ l) =
      ground (arith, getlist_raw-put value l, getlist_raw-others l, text_eq_iff name name)

-- After a header is set, a lookup of its name gives the value, and any other lookup what it gave.
pub get_raw-set_raw :
    (name value j : Bytes) (l : RawHeaders)
    → get_raw j (set_raw name value l) ≡ (if text_eq name j then some value else get_raw j l)
get_raw-set_raw name value j l = rw (set_raw-eq-put name value l) (get_raw-put name value j l)

-- After a header is set, the list of its values has that value alone.
pub getlist_raw-set_raw :
    (name value : Bytes) (l : RawHeaders) → getlist_raw name (set_raw name value l) ≡ value ∷ []
getlist_raw-set_raw name value l = rw (set_raw-eq-put name value l) (getlist_raw-put name value l)

-- The value that `update` leaves under a name: the last item's, or what was there.
abbrev pub updated : Bytes → List (Bytes × Bytes) → Option Bytes → Option Bytes
updated j [] found = found
updated j ((name, value) ∷ items) found =
    updated j items (if text_eq name j then some value else found)

get_raw-update_raw :
    (j : Bytes) (items : List (Bytes × Bytes)) (l : RawHeaders)
    → get_raw j (update_raw items l) ≡ updated j items (get_raw j l)
unfolding update_raw
get_raw-update_raw j [] l = refl
get_raw-update_raw j ((name, value) ∷ items) l =
    get_raw-update_raw j items (set_raw name value l)
    ∙ ap (updated j items) (get_raw-set_raw name value j l)

get_raw-append :
    (j name value : Bytes) (l : RawHeaders)
    → get_raw j l ≡ none
    → get_raw j (l ++ (name, value) ∷ []) ≡ (if text_eq name j then some value else none)
unfolding get_raw
get_raw-append j name value [] h = refl
get_raw-append j name value ((k, v) ∷ l) h = ground (arith, get_raw-append j name value l)

-- `setdefault` returns the value that a later lookup gives, and changes nothing if the name is there.
pub setdefault_raw_lem :
    (name value : Bytes) (l : RawHeaders)
    → (get_raw name (setdefault_raw name value l).1 ≡ some (setdefault_raw name value l).0)
      × (get_raw name l ≢ none → (setdefault_raw name value l).1 ≡ l)
unfolding setdefault_raw
setdefault_raw_lem name value l =
    ground (arith, get_raw-append name name value l, text_eq_iff name name)

abbrev pub with_vary : Bytes → Option Bytes → Bytes
with_vary vary none = vary
with_vary vary (some existing) = existing ++ (codes ", " ++ vary)

pub add_vary_header-eq-set :
    (vary : Bytes) (l : RawHeaders)
    → add_vary_header vary l ≡ set_raw (codes "vary") (with_vary vary (get_raw (codes "vary") l)) l
unfolding add_vary_header
add_vary_header-eq-set vary l = elim (Option-cases (get_raw (codes "vary") l)) [
  | inl missing ↦ rw (missing, add_vary_header)
  | inr (v, found) ↦ rw (found, add_vary_header)
]

-- `add_vary_header` leaves one Vary header: the old value, a comma and the new one, or the new one
-- alone; the lookup of every other header stays what it was.
pub add_vary_header_lem :
    (vary j : Bytes) (l : RawHeaders)
    → (getlist_raw (codes "vary") (add_vary_header vary l)
        ≡ with_vary vary (get_raw (codes "vary") l) ∷ [])
      × (codes "vary" ≢ j → get_raw j (add_vary_header vary l) ≡ get_raw j l)
add_vary_header_lem vary j l =
    let value = with_vary vary (get_raw (codes "vary") l) in
    rw (add_vary_header-eq-set vary l) (
      getlist_raw-set_raw (codes "vary") value l,
      λ other.
          ground (arith, get_raw-set_raw (codes "vary") value j l, text_eq_iff (codes "vary") j),
    )
