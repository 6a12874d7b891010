-- ===== src/MultiDict/Dict.antt =====
-- Python's `dict` as an association list in insertion order.
use rustlette.Prelude.{◌≡◌, refl, Option, none, some, List, [], ◌∷◌, ◌++◌, Eq, if◌then◌else◌, arith}

-- `values[-1]` of the values `v ∷ values`
abbrev pub last_of {ℓ} : {V : Type ℓ} → V → List V → V
last_of v [] = v
last_of v (w ∷ values) = last_of w values

unfoldable pub last {ℓ} : {A : Type ℓ} → List A → Option A
last [] = none
last (a ∷ []) = some a
last (a ∷ b ∷ l) = last (b ∷ l)

module _ {ℓ} {K V : Type ℓ} ⦃e : Eq K⦄ where
  unfoldable pub get : K → List (K × V) → Option V
  get key [] = none
  get key ((k, v) ∷ d) = if e.beq k key then some v else get key d

  -- `d[key] = value` keeps the place of a key that is there
  unfoldable pub set : K → V → List (K × V) → List (K × V)
  set key value [] = (key, value) ∷ []
  set key value ((k, v) ∷ d) =
      let rest = set key value d in if e.beq k key then (k, value) ∷ d else (k, v) ∷ rest

  unfoldable pub delete : K → List (K × V) → List (K × V)
  delete key [] = []
  delete key ((k, v) ∷ d) = let rest = delete key d in if e.beq k key then rest else (k, v) ∷ rest

  -- `d.update(items)`, and the dict display over items, from the empty one
  unfoldable pub update : List (K × V) → List (K × V) → List (K × V)
  unfolding set
  update d [] = d
  update d ((k, v) ∷ items) = update (set k v d) items

  pub get-set :
      (key j : K) (value : V) (d : List (K × V))
      → get j (set key value d) ≡ (if e.beq key j then some value else get j d)
  unfolding get set
  get-set key j value [] = refl
  get-set key j value ((k, v) ∷ d) =
      ground (arith, get-set key j value d, e.beq_iff k key, e.beq_iff k j, e.beq_iff key j)

  pub get-delete :
      (key j : K) (d : List (K × V))
      → get j (delete key d) ≡ (if e.beq key j then none else get j d)
  unfolding get delete
  get-delete key j [] = ground arith
  get-delete key j ((k, v) ∷ d) =
      ground (arith, get-delete key j d, e.beq_iff k key, e.beq_iff k j, e.beq_iff key j)

  pub update-append : (d xs ys : List (K × V)) → update d (xs ++ ys) ≡ update (update d xs) ys
  unfolding update
  update-append d [] ys = refl
  update-append d ((k, v) ∷ xs) ys = update-append (set k v d) xs ys
