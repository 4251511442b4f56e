-- ===== src/Prelude/Fresh.antt =====
-- When the filling of a dictionary does not raise, and what it is over distinct keys.
use mathlib.Core.Path.{◌≡◌, refl, sym, ap, ap₂, ◌∙◌}
use mathlib.Core.Logic.{inl, inr}
use mathlib.Core.Bool.{true, false, ◌||◌}
use mathlib.Core.Option.{none, some}
use mathlib.Core.List.{List, [], ◌∷◌, ◌++◌, append-nil, append_assoc}
use native.Mathlib.Omega.{arith}
use osm_polygon_wikidata_onl.Prelude.Tests.{Bool-cases}
use osm_polygon_wikidata_onl.Prelude.Equality.{Eq, ◌==◌, ==_iff, ==_refl}
use osm_polygon_wikidata_onl.Prelude.Lists.{contains, distinct, all}
use osm_polygon_wikidata_onl.Prelude.Dicts.{
  Dict, get, put, keys, values, has, has-get, contains-keys,
}
use osm_polygon_wikidata_onl.Prelude.Results.{Result, ok, traverse, ◌>>=◌, >>=-eq-ok}
use osm_polygon_wikidata_onl.Prelude.Entries.{indexed}
use osm_polygon_wikidata_onl.Prelude.Keyed.{
  insert_new, insert_new_ok, insert_new_of_new, get-insert_new, collect,
}

module _ {ℓ κ} {K : Type ℓ} {V : Type κ} ⦃e : Eq K⦄ where
  pub put_of_new : (k : K) (v : V) (d : Dict K V) → has k d ≡ false → put k v d ≡ d ++ ((k, v) ∷ [])
  put_of_new k v [] h = refl
  put_of_new k v ((j, w) ∷ d) h = ground (arith, put_of_new k v d)

  get_of_not_has : (k : K) (d : Dict K V) → has k d ≡ false → get k d ≡ none
  get_of_not_has k d h = ground (arith, has-get k d)

  has-append : (k : K) (d d' : Dict K V) → has k (d ++ d') ≡ (has k d || has k d')
  has-append k [] d' = refl
  has-append k ((j, w) ∷ d) d' = ground (arith, has-append k d d')

  pub fresh_key :
      (d d' : Dict K V) (k : K) (v : V)
      → distinct (keys (d ++ ((k, v) ∷ d'))) ≡ true
      → has k d ≡ false
  fresh_key [] d' k v u = refl
  fresh_key ((j, w) ∷ d) d' k v u = ground (
    arith,
    fresh_key d d' k v,
    contains-keys j (d ++ ((k, v) ∷ d')),
    has-append j d ((k, v) ∷ d'),
    ==_iff j k,
    ==_iff k j,
  )

module _ {ℓ κ} {K : Type ℓ} {V : Type κ} (key : V → K) where
  abbrev pub entries : List V → Dict K V
  entries [] = []
  entries (v ∷ vs) = (key v, v) ∷ entries vs

-- Each row is read as the value at its place.
pub data Reads {κ μ} {R : Type μ} {V : Type κ} (read : R → Result V)
    : List R → List V → Type (κ ⊔ μ) where
  all_read : Reads read [] []
  reads :
      {r : R} {v : V} {rs : List R} {vs : List V}
      → read r ≡ ok v
      → Reads read rs vs
      → Reads read (r ∷ rs) (v ∷ vs)

module _ {κ μ} {R : Type μ} {V : Type κ} (read : R → Result V) where
  pub Reads-of_traverse :
      (raws : List R) (rows : List V) → traverse read raws ≡ ok rows → Reads read raws rows
  Reads-of_traverse [] [] h = all_read
  Reads-of_traverse [] (v ∷ vs) h = cc
  Reads-of_traverse (r ∷ raws) [] h =
      let (v, was_read, more) =
        >>=-eq-ok (read r) (λ y. traverse read raws >>= λ ys. ok (y ∷ ys)) h in
      let (vs, all, whole) = >>=-eq-ok (traverse read raws) (λ ys. ok (v ∷ ys)) more in cc whole
  Reads-of_traverse (r ∷ raws) (w ∷ ws) h =
      let (v, was_read, more) =
        >>=-eq-ok (read r) (λ y. traverse read raws >>= λ ys. ok (y ∷ ys)) h in
      let (vs, all, whole) = >>=-eq-ok (traverse read raws) (λ ys. ok (v ∷ ys)) more in
      reads (was_read ∙ ap ok (ground (arith, whole)))
        (Reads-of_traverse raws ws (all ∙ ap ok (ground (arith, whole))))

module _ {ℓ κ μ} {R : Type μ} {K : Type ℓ} {V : Type κ} ⦃e : Eq K⦄ ⦃f : Eq V⦄ (read : R → Result V)
    (key : V → K) where
  after_insert :
      (v : V) (vs : List V) (d m : Dict K V)
      → insert_new (key v) v d ≡ ok m
      → ((x y : V)
          → contains (v ∷ vs) x ≡ true
          → contains (v ∷ vs) y ≡ true
          → key x ≡ key y
          → x ≡ y)
      → ((x w : V) → contains (v ∷ vs) x ≡ true → get (key x) d ≡ some w → w ≡ x)
      → (x w : V) → contains vs x ≡ true
      → get (key x) m ≡ some w
      → w ≡ x
  after_insert v vs d m inserted one old x w p q = ground (
    arith,
    get-insert_new (key v) v d m (key x) inserted,
    ==_iff (key v) (key x),
    ==_refl v,
    one v x,
    old x w,
  )

  -- Rows that can all be read, with one row at most under each key, are collected.
  pub collect_ok :
      {raws : List R} {rows : List V} (d : Dict K V)
      → Reads read raws rows
      → ((v w : V) → contains rows v ≡ true → contains rows w ≡ true → key v ≡ key w → v ≡ w)
      → ((v w : V) → contains rows v ≡ true → get (key v) d ≡ some w → w ≡ v)
      → (d' : Dict K V) × (collect read key d raws ≡ ok d')
  unfolding collect
  collect_ok d all_read one old = (d, refl)
  collect_ok d (reads {v = v} {vs = vs} was_read more) one old =
      let (m, inserted) =
        insert_new_ok (key v) v d (λ w p. old v w (ground (arith, ==_refl v)) p) in
      let (d', looped) =
        collect_ok m more (λ x y p q. one x y (ground (arith, p)) (ground (arith, q)))
          (after_insert v vs d m inserted one old) in
      (d', rw was_read (rw inserted looped))

  -- Rows with distinct keys are collected in their order.
  pub collect_of_distinct :
      {raws : List R} {rows : List V} (d : Dict K V)
      → Reads read raws rows
      → distinct (keys (d ++ entries key rows)) ≡ true
      → collect read key d raws ≡ ok (d ++ entries key rows)
  unfolding collect
  collect_of_distinct d all_read u = rw append-nil
  collect_of_distinct d (reads {v = v} {vs = vs} was_read more) u =
      let fresh = fresh_key d (entries key vs) (key v) v u in
      let d' : Dict K V = d ++ ((key v, v) ∷ []) in
      let inserted : insert_new (key v) v d ≡ ok d' =
        insert_new_of_new (key v) v d (get_of_not_has (key v) d fresh)
        ∙ ap ok (put_of_new (key v) v d fresh) in
      let regrouped : d' ++ entries key vs ≡ d ++ entries key (v ∷ vs) =
        append_assoc d ((key v, v) ∷ []) (entries key vs) in
      rw was_read (
        rw inserted (
          collect_of_distinct d' more (ap (λ t. distinct (keys t)) regrouped ∙ u)
          ∙ ap ok regrouped))

module _ {κ μ} {R : Type μ} {V : Type κ} ⦃f : Eq V⦄ (read : R → Result V) where
  -- What was read was read from some row.
  pub row_of_member :
      {raws : List R} {rows : List V} (v : V)
      → Reads read raws rows
      → contains rows v ≡ true
      → (r : R) × (read r ≡ ok v)
  row_of_member v all_read m = absurd (cc m)
  row_of_member v (reads {r = r} {v = w} was_read more) m = elim (Bool-cases (w == v)) [
    | inl same ↦ (r, was_read ∙ ap ok ((==_iff w v).0 same))
    | inr other ↦ row_of_member v more (ground arith)
  ]

module _ {ℓ κ} {K : Type ℓ} {V : Type κ} ⦃e : Eq K⦄ (key : V → K) where
  pub entries_of_indexed : (d : Dict K V) → indexed key d ≡ true → entries key (values d) ≡ d
  entries_of_indexed [] h = refl
  entries_of_indexed ((k, v) ∷ d) h =
      ap₂ (λ (j : K) (t : Dict K V). (j, v) ∷ t) (sym ((==_iff k (key v)).0 (ground arith)))
        (entries_of_indexed d (ground arith))
