-- ===== src/Prelude/Keyed.antt =====
-- A dictionary filled from a list of rows, in which two different rows under one key are an error.
use mathlib.Core.Path.{◌≡◌, refl, ap}
use mathlib.Core.Logic.{◌⊎◌, inl}
use mathlib.Core.Bool.{true}
use mathlib.Core.Option.{Option, none, some}
use mathlib.Core.List.{List, [], ◌∷◌}
use native.Mathlib.Omega.{arith}
use osm_polygon_wikidata_onl.Prelude.Tests.{if◌then◌else◌}
use osm_polygon_wikidata_onl.Prelude.Equality.{Eq, ◌==◌, ==_iff, ==_refl}
use osm_polygon_wikidata_onl.Prelude.Lists.{contains, distinct}
use osm_polygon_wikidata_onl.Prelude.Dicts.{Dict, get, put, get-put, keys, put-distinct}
use osm_polygon_wikidata_onl.Prelude.Results.{
  Result, ok, err, value_error, traverse, ◌>>=◌, >>=-eq-ok,
}

module _ {ℓ κ} {K : Type ℓ} {V : Type κ} ⦃e : Eq K⦄ ⦃f : Eq V⦄ where
  insert_at : K → V → Dict K V → Option V → Result (Dict K V)
  insert_at k v d none = ok (put k v d)
  insert_at k v d (some w) = if w == v then ok d else err value_error

  unfoldable pub insert_new : K → V → Dict K V → Result (Dict K V)
  unfolding insert_at
  insert_new k v d = insert_at k v d (get k d)

  get-insert_at :
      (k : K) (v : V) (d d' : Dict K V) (o : Option V) (j : K)
      → get k d ≡ o
      → insert_at k v d o ≡ ok d'
      → get j d' ≡ (if k == j then some v else get j d)
  unfolding insert_at
  get-insert_at k v d d' none j old h = ground (arith, get-put k j v d)
  get-insert_at k v d d' (some w) j old h =
      ground (arith, ==_iff w v, ==_iff k j, ap (λ (i : K). get i d) {x = k} {y = j})

  -- An insertion that returns has put the value under its key and left all else.
  pub get-insert_new :
      (k : K) (v : V) (d d' : Dict K V) (j : K)
      → insert_new k v d ≡ ok d'
      → get j d' ≡ (if k == j then some v else get j d)
  unfolding insert_new
  get-insert_new k v d d' j h = get-insert_at k v d d' (get k d) j refl h

  insert_at_same :
      (k : K) (v w : V) (d d' : Dict K V) (o : Option V)
      → insert_at k v d o ≡ ok d'
      → o ≡ some w
      → w ≡ v
  unfolding insert_at
  insert_at_same k v w d d' none h p = cc
  insert_at_same k v w d d' (some u) h p = ground (arith, ==_iff u v)

  -- What stood under a key before is still there.
  pub insert_new-kept :
      (k : K) (v : V) (d d' : Dict K V) (j : K) (w : V)
      → insert_new k v d ≡ ok d'
      → get j d ≡ some w
      → get j d' ≡ some w
  unfolding insert_new
  insert_new-kept k v d d' j w h p = ground (
    arith,
    get-insert_at k v d d' (get k d) j refl h,
    insert_at_same k v w d d' (get k d) h,
    ==_iff k j,
    ap (λ (i : K). get i d) {x = k} {y = j},
  )

  insert_at_ok :
      (k : K) (v : V) (d : Dict K V) (o : Option V)
      → ((w : V) → o ≡ some w → w ≡ v)
      → (d' : Dict K V) × (insert_at k v d o ≡ ok d')
  unfolding insert_at
  insert_at_ok k v d none h = (put k v d, refl)
  insert_at_ok k v d (some w) h = (d, rw ((==_iff w v).1 (h w refl)))

  -- It returns if no other value stands there.
  pub insert_new_ok :
      (k : K) (v : V) (d : Dict K V)
      → ((w : V) → get k d ≡ some w → w ≡ v)
      → (d' : Dict K V) × (insert_new k v d ≡ ok d')
  unfolding insert_new
  insert_new_ok k v d h = insert_at_ok k v d (get k d) h

  -- It puts a value under a new key at the end.
  pub insert_new_of_new :
      (k : K) (v : V) (d : Dict K V) → get k d ≡ none → insert_new k v d ≡ ok (put k v d)
  unfolding insert_new
  insert_new_of_new k v d h = ap (insert_at k v d) h

  insert_at-distinct :
      (k : K) (v : V) (d d' : Dict K V) (o : Option V)
      → insert_at k v d o ≡ ok d'
      → distinct (keys d) ≡ true
      → distinct (keys d') ≡ true
  unfolding insert_at
  insert_at-distinct k v d d' none h u = ground (arith, put-distinct k v d u)
  insert_at-distinct k v d d' (some w) h u = ground arith

  pub insert_new-distinct :
      (k : K) (v : V) (d d' : Dict K V)
      → insert_new k v d ≡ ok d'
      → distinct (keys d) ≡ true
      → distinct (keys d') ≡ true
  unfolding insert_new
  insert_new-distinct k v d d' h u = insert_at-distinct k v d d' (get k d) h u

module _ {ℓ κ μ} {R : Type μ} {K : Type ℓ} {V : Type κ} ⦃e : Eq K⦄ ⦃f : Eq V⦄ (read : R → Result V)
    (key : V → K) where
  -- the loop: a row is read, then inserted
  unfoldable pub collect : Dict K V → List R → Result (Dict K V)
  collect d [] = ok d
  collect d (r ∷ rest) = do v ← read r; d' ← insert_new (key v) v d; collect d' rest

  -- What the loop has done when it returns.
  pub record Collected (d : Dict K V) (raws : List R) (d' : Dict K V) : Type (ℓ ⊔ κ ⊔ μ) where
    pub rows : List V
    pub all_read : traverse read raws ≡ ok rows
    pub kept : (k : K) (v : V) → get k d ≡ some v → get k d' ≡ some v
    pub stored : (v : V) → contains rows v ≡ true → get (key v) d' ≡ some v
    pub found :
        (k : K) (v : V)
        → get k d' ≡ some v
        → (get k d ≡ some v) ⊎ ((contains rows v ≡ true) × (key v ≡ k))
    pub unique : distinct (keys d) ≡ true → distinct (keys d') ≡ true

  after_step :
      (d : Dict K V) (r : R) (rest : List R) (d' : Dict K V) (v : V) (m : Dict K V)
      → read r ≡ ok v
      → insert_new (key v) v d ≡ ok m
      → Collected m rest d'
      → Collected d (r ∷ rest) d'
  after_step d r rest d' v m was_read inserted ih = record {
    rows = v ∷ ih.rows;
    all_read = rw was_read (rw ih.all_read);
    kept = λ k w p. ih.kept k w (insert_new-kept (key v) v d m k w inserted p);
    stored = λ w p. ground (
      arith,
      ih.stored w,
      ih.kept (key v) v,
      get-insert_new (key v) v d m (key v) inserted,
      ==_refl (key v),
      ==_iff v w,
      ap (λ (u : V). get (key u) d') {x = v} {y = w},
    );
    found = λ k w p. ground (
      arith,
      ih.found k w p,
      get-insert_new (key v) v d m k inserted,
      ==_iff (key v) k,
      ==_refl v,
      ap key {x = v} {y = w},
      ap (λ (u : V). v == u) {x = v} {y = w},
    );
    unique = λ u. ih.unique (insert_new-distinct (key v) v d m inserted u);
  }

  pub collect-Collected :
      (d : Dict K V) (raws : List R) (d' : Dict K V) → collect d raws ≡ ok d' → Collected d raws d'
  unfolding collect
  collect-Collected d [] d' h = record {
    rows = [];
    all_read = refl;
    kept = λ k v p. ground arith;
    stored = λ v p. cc;
    found = λ k v p. inl (ground arith);
    unique = λ u. ground arith;
  }
  collect-Collected d (r ∷ rest) d' h =
      let (v, was_read, more) =
        >>=-eq-ok (read r) (λ v. insert_new (key v) v d >>= λ m. collect m rest) h in
      let (m, inserted, looped) = >>=-eq-ok (insert_new (key v) v d) (λ m. collect m rest) more in
      after_step d r rest d' v m was_read inserted (collect-Collected m rest d' looped)
