-- ===== src/Prelude/Entries.antt =====
-- The entries of a dictionary with distinct keys, and how `sorted` moves them.
use mathlib.Core.Path.{◌≡◌, refl, sym, ap, ap₂, ◌∙◌}
use mathlib.Core.Logic.{inl, inr}
use mathlib.Core.Bool.{Bool, true, false, ◌||◌, ◌&&◌}
use mathlib.Core.Option.{some}
use mathlib.Core.List.{List, [], ◌∷◌, map}
use native.Mathlib.Omega.{arith}
use osm_polygon_wikidata_onl.Prelude.Tests.{Bool-cases}
use osm_polygon_wikidata_onl.Prelude.Equality.{Eq, ◌==◌, ==_iff, ==_refl, pair_eq}
use osm_polygon_wikidata_onl.Prelude.Lists.{contains, distinct, all}
use osm_polygon_wikidata_onl.Prelude.Sort.{insert, sort, is_sorted, all-insert, sort-is_sorted}
use osm_polygon_wikidata_onl.Prelude.Dicts.{Dict, get, keys, values, has, has-get, contains-keys}

module _ {ℓ} {A : Type ℓ} (leb : A → A → Bool) where
  pub all-sort : (p : A → Bool) (xs : List A) → all p (sort leb xs) ≡ all p xs
  all-sort p [] = refl
  all-sort p (x ∷ xs) = all-insert leb p x (sort leb xs) ∙ ap (λ b. p x && b) (all-sort p xs)

module _ {ℓ κ} {K : Type ℓ} {V : Type κ} ⦃e : Eq K⦄ where
  -- A key of a later entry is not that of the first one.
  later_key :
      (j k : K) (w v : V) (d : Dict K V)
      → distinct (keys ((j, w) ∷ d)) ≡ true
      → get k d ≡ some v
      → (j == k) ≡ false
  later_key j k w v d u p =
      ground
        (arith, contains-keys j d, has-get k d, ==_iff j k, ap (λ (i : K). has i d) {x = j} {y = k})

module _ {ℓ κ} {K : Type ℓ} {V : Type κ} ⦃e : Eq K⦄ ⦃f : Eq V⦄ where
  pub get_of_entry :
      (k : K) (v : V) (d : Dict K V)
      → distinct (keys d) ≡ true
      → contains d (k, v) ≡ true
      → get k d ≡ some v
  get_of_entry k v [] u m = cc
  get_of_entry k v ((j, w) ∷ d) u m =
      ground (arith, get_of_entry k v d, later_key j k w v d u, ==_iff j k, ==_iff w v)

  -- A value stands under some key.
  pub get_of_value :
      (v : V) (d : Dict K V)
      → distinct (keys d) ≡ true
      → contains (values d) v ≡ true
      → (k : K) × (get k d ≡ some v)
  get_of_value v [] u m = absurd (cc m)
  get_of_value v ((j, w) ∷ d) u m = elim (Bool-cases (w == v)) [
    | inl same ↦ (j, ground (arith, ==_iff w v, ==_refl j))
    | inr other ↦
        let (k, p) = get_of_value v d (ground arith) (ground arith) in
        (k, ground (arith, later_key j k w v d u p))
  ]

  pub value_of_get :
      (k : K) (v : V) (d : Dict K V) → get k d ≡ some v → contains (values d) v ≡ true
  value_of_get k v [] p = cc
  value_of_get k v ((j, w) ∷ d) p = ground (arith, value_of_get k v d, ==_iff w v)

  contains-values-insert :
      (leb : K × V → K × V → Bool) (x : K × V) (d : Dict K V) (v : V)
      → contains (values (insert leb x d)) v ≡ (x.1 == v || contains (values d) v)
  contains-values-insert leb x [] v = refl
  contains-values-insert leb x (y ∷ d) v = ground (arith, contains-values-insert leb x d v)

  pub contains-values-sort :
      (leb : K × V → K × V → Bool) (d : Dict K V) (v : V)
      → contains (values (sort leb d)) v ≡ contains (values d) v
  contains-values-sort leb [] v = refl
  contains-values-sort leb (x ∷ d) v =
      contains-values-insert leb x (sort leb d) v
      ∙ ap (λ b. x.1 == v || b) (contains-values-sort leb d v)

module _ {ℓ κ} {K : Type ℓ} {V : Type κ} ⦃e : Eq K⦄ where
  contains-keys-insert :
      (leb : K × V → K × V → Bool) (x : K × V) (d : Dict K V) (k : K)
      → contains (keys (insert leb x d)) k ≡ (x.0 == k || contains (keys d) k)
  contains-keys-insert leb x [] k = refl
  contains-keys-insert leb x (y ∷ d) k = ground (arith, contains-keys-insert leb x d k)

  distinct-keys-insert :
      (leb : K × V → K × V → Bool) (x : K × V) (d : Dict K V)
      → distinct (keys (insert leb x d)) ≡ distinct (keys (x ∷ d))
  distinct-keys-insert leb x [] = refl
  distinct-keys-insert leb x (y ∷ d) = ground (
    arith,
    distinct-keys-insert leb x d,
    contains-keys-insert leb x d y.0,
    ==_iff x.0 y.0,
    ==_iff y.0 x.0,
  )

  pub contains-keys-sort :
      (leb : K × V → K × V → Bool) (d : Dict K V) (k : K)
      → contains (keys (sort leb d)) k ≡ contains (keys d) k
  contains-keys-sort leb [] k = refl
  contains-keys-sort leb (x ∷ d) k =
      contains-keys-insert leb x (sort leb d) k
      ∙ ap (λ b. x.0 == k || b) (contains-keys-sort leb d k)

  pub distinct-keys-sort :
      (leb : K × V → K × V → Bool) (d : Dict K V) → distinct (keys (sort leb d)) ≡ distinct (keys d)
  distinct-keys-sort leb [] = refl
  distinct-keys-sort leb (x ∷ d) = ground (
    arith,
    distinct-keys-insert leb x (sort leb d),
    distinct-keys-sort leb d,
    contains-keys-sort leb d x.0,
  )

-- Each value stands under its own key.
module _ {ℓ κ} {K : Type ℓ} {V : Type κ} ⦃e : Eq K⦄ (key : V → K) where
  abbrev pub indexed : Dict K V → Bool
  indexed d = all (λ (x : K × V). x.0 == key x.1) d

  pub keys_of_indexed : (d : Dict K V) → indexed d ≡ true → keys d ≡ map key (values d)
  keys_of_indexed [] h = refl
  keys_of_indexed ((k, v) ∷ d) h =
      ap₂ (λ (a : K) (t : List K). a ∷ t) ((==_iff k (key v)).0 (ground arith))
        (keys_of_indexed d (ground arith))

  pub all-values_of_indexed :
      (leb : K → K → Bool) (k : K) (d : Dict K V)
      → indexed d ≡ true
      → all (λ (x : K × V). leb k x.0) d ≡ all (λ v. leb k (key v)) (values d)
  all-values_of_indexed leb k [] h = refl
  all-values_of_indexed leb k ((j, v) ∷ d) h =
      ground
        (arith, all-values_of_indexed leb k d, ==_iff j (key v), ap (leb k) {x = j} {y = key v})

  -- Entries in order of their keys have their values in order.
  pub values-is_sorted :
      (leb : K → K → Bool) (d : Dict K V)
      → indexed d ≡ true
      → is_sorted (λ (x y : K × V). leb x.0 y.0) d
        ≡ is_sorted (λ v w. leb (key v) (key w)) (values d)
  values-is_sorted leb [] h = refl
  values-is_sorted leb ((j, v) ∷ d) h = ground (
    arith,
    values-is_sorted leb d,
    all-values_of_indexed leb j d,
    ==_iff j (key v),
    ap (λ (i : K). all (λ w. leb i (key w)) (values d)) {x = j} {y = key v},
  )

-- The values of a dictionary, sorted by their keys.
module _ {ℓ κ} {K : Type ℓ} {V : Type κ} ⦃e : Eq K⦄ (key : V → K) (leb : K → K → Bool)
    (d : Dict K V) (in_place : indexed key d ≡ true) where
  abbrev entry_order : K × V → K × V → Bool
  entry_order x y = leb x.0 y.0

  pub sort-indexed : indexed key (sort entry_order d) ≡ true
  sort-indexed = all-sort entry_order (λ (x : K × V). x.0 == key x.1) d ∙ in_place

  pub sorted_values :
      ((a b : K) → (leb a b || leb b a) ≡ true)
      → ((a b c : K) → leb a b ≡ true → leb b c ≡ true → leb a c ≡ true)
      → is_sorted (λ v w. leb (key v) (key w)) (values (sort entry_order d)) ≡ true
  sorted_values total trans =
      sym (values-is_sorted key leb (sort entry_order d) sort-indexed)
      ∙ sort-is_sorted entry_order (λ x y. total x.0 y.0) (λ x y z. trans x.0 y.0 z.0) d

  pub sorted_values-distinct :
      distinct (keys d) ≡ true → distinct (map key (values (sort entry_order d))) ≡ true
  sorted_values-distinct u =
      ap distinct (sym (keys_of_indexed key (sort entry_order d) sort-indexed))
      ∙ distinct-keys-sort entry_order d
      ∙ u
