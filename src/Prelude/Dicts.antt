-- ===== src/Prelude/Dicts.antt =====
-- Python's `dict`: pairs in the order of insertion.
use mathlib.Core.Path.{◌≡◌, refl, ap}
use mathlib.Core.Bool.{Bool, true, false, ◌||◌}
use mathlib.Core.Option.{Option, none, some}
use mathlib.Core.List.{List, [], ◌∷◌, ◌++◌}
use native.Mathlib.Omega.{arith}
use osm_polygon_wikidata_onl.Prelude.Tests.{if◌then◌else◌, is_some}
use osm_polygon_wikidata_onl.Prelude.Equality.{Eq, ◌==◌, ==_iff}
use osm_polygon_wikidata_onl.Prelude.Lists.{contains, distinct}

abbrev pub Dict {ℓ κ} : Type ℓ → Type κ → Type (ℓ ⊔ κ)
Dict K V = List (K × V)

module _ {ℓ κ} {K : Type ℓ} {V : Type κ} where
  abbrev pub keys : Dict K V → List K
  keys [] = []
  keys ((j, v) ∷ d) = j ∷ keys d

  abbrev pub values : Dict K V → List V
  values [] = []
  values ((j, v) ∷ d) = v ∷ values d

module _ {ℓ κ} {K : Type ℓ} {V : Type κ} ⦃e : Eq K⦄ where
  -- `d.get(k)`
  abbrev pub get : K → Dict K V → Option V
  get k [] = none
  get k ((j, v) ∷ d) = if j == k then some v else get k d

  -- `k in d`
  abbrev pub has : K → Dict K V → Bool
  has k [] = false
  has k ((j, v) ∷ d) = j == k || has k d

  -- `d[k] = v`: in its place, or at the end
  abbrev pub put : K → V → Dict K V → Dict K V
  put k v [] = (k, v) ∷ []
  put k v ((j, w) ∷ d) = if j == k then (j, v) ∷ d else (j, w) ∷ put k v d

  -- `del d[k]`, and `d.pop(k, None)`
  abbrev pub erase : K → Dict K V → Dict K V
  erase k [] = []
  erase k ((j, w) ∷ d) = let rest = erase k d in if j == k then rest else (j, w) ∷ rest

  -- `d.setdefault(k, v)`
  abbrev pub set_default : K → V → Dict K V → Dict K V
  set_default k v d = if has k d then d else d ++ ((k, v) ∷ [])

  pub get-put :
      (k j : K) (v : V) (d : Dict K V) → get j (put k v d) ≡ (if k == j then some v else get j d)
  get-put k j v [] = refl
  get-put k j v ((i, w) ∷ d) = ground (arith, get-put k j v d, ==_iff i k, ==_iff i j, ==_iff k j)

  pub get-erase : (k j : K) (d : Dict K V) → get j (erase k d) ≡ (if k == j then none else get j d)
  get-erase k j [] = ground arith
  get-erase k j ((i, w) ∷ d) = ground (arith, get-erase k j d, ==_iff i k, ==_iff i j, ==_iff k j)

  pub has-put : (k j : K) (v : V) (d : Dict K V) → has j (put k v d) ≡ (k == j || has j d)
  has-put k j v [] = refl
  has-put k j v ((i, w) ∷ d) = ground (arith, has-put k j v d, ==_iff i k, ==_iff i j, ==_iff k j)

  pub contains-keys : (k : K) (d : Dict K V) → contains (keys d) k ≡ has k d
  contains-keys k [] = refl
  contains-keys k ((j, v) ∷ d) = ground (arith, contains-keys k d)

  -- A key is in the dictionary exactly when it has a value.
  pub has-get : (k : K) (d : Dict K V) → has k d ≡ is_some (get k d)
  has-get k [] = refl
  has-get k ((j, w) ∷ d) = ground (arith, has-get k d)

  -- Writing a key keeps the keys distinct.
  pub put-distinct :
      (k : K) (v : V) (d : Dict K V) → distinct (keys d) ≡ true → distinct (keys (put k v d)) ≡ true
  put-distinct k v [] h = refl
  put-distinct k v ((j, w) ∷ d) h = ground (
    arith,
    put-distinct k v d,
    contains-keys j d,
    contains-keys j (put k v d),
    has-put k j v d,
    ==_iff j k,
    ==_iff k j,
  )

  get-snoc :
      (k j : K) (v : V) (d : Dict K V)
      → get j (d ++ ((k, v) ∷ [])) ≡ (if has j d then get j d else if k == j then some v else none)
  get-snoc k j v [] = refl
  get-snoc k j v ((i, w) ∷ d) = ground (arith, get-snoc k j v d)

  -- `setdefault` keeps the value of a key that is there, and all other keys.
  get-set_default :
      (k j : K) (v : V) (d : Dict K V)
      → get j (set_default k v d)
        ≡ (if has k d then get j d else if k == j then some v else get j d)
  get-set_default k j v d = ground (
    arith,
    get-snoc k j v d,
    has-get j d,
    has-get k d,
    ==_iff k j,
    ap (λ (i : K). has i d) {x = k} {y = j},
  )

  pub get-set_default-other :
      (k j : K) (v : V) (d : Dict K V) → (k == j) ≡ false → get j (set_default k v d) ≡ get j d
  get-set_default-other k j v d h = ground (arith, get-set_default k j v d, h)

  pub get-set_default-kept :
      (k : K) (v w : V) (d : Dict K V) → get k d ≡ some w → get k (set_default k v d) ≡ some w
  get-set_default-kept k v w d h = ground (arith, get-set_default k k v d, has-get k d, h)
