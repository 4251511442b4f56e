-- ===== src/Hf/Reconciliation/Partition.antt =====
-- How a plan divides the stems into those to publish and those to augment.
use osm_polygon_wikidata_onl.Prelude.{
  ◌≡◌, refl, sym, ap, ap₂, ◌∙◌, Bool, true, false, ◌&&◌, ◌||◌, not, List, [], ◌∷◌, ◌++◌, map,
  if◌then◌else◌, filter, all, contains, is_empty, Str, codes, str_eq, ◌==◌, ==_iff, str_leq, sort,
  get, Result, ok, value_error, ◌>>◌, guard, traverse, >>=-eq-ok, ok_injective, arith,
  contains-sort, Bool-cases, inl, inr,
}
use mathlib.Core.Path.{subst}
use osm_polygon_wikidata_onl.Hf.Reconciliation.{
  Stores, StemReconciliation, ReconciliationPlan, canonical_region_paths, corpus_of, core_files,
  resolve_augmentation_status, expected_region_paths, collect_region_presence, plan_present,
  plan_stem, plan, or_else, nothing_planned,
}

-- whether both core files of a stem are there
abbrev pub has_core : Stores → Str → Bool
has_core stores stem =
    stores.is_file (codes "polygons/" ++ (stem ++ codes ".parquet"))
    && stores.is_file (codes "polygon_articles/" ++ (stem ++ codes ".parquet"))

-- whether a stem's augmentation is current, as far as it is known, else as it is found
abbrev pub is_augmented : Stores → Str → Bool
is_augmented stores stem = or_else (get stem stores.augmentation_current) (stores.is_current stem)

abbrev pub is_remote : Stores → Str → Bool
is_remote stores stem = all (contains stores.inventory) (canonical_region_paths stem)

-- A region is published when its core is there, its augmentation is current and some artifact is not
-- remote; it is augmented when its core is there and its augmentation is not current.
abbrev pub needs_publication : Stores → Str → Bool
needs_publication stores stem =
    has_core stores stem && (is_augmented stores stem && not (is_remote stores stem))

abbrev pub needs_augmentation : Stores → Str → Bool
needs_augmentation stores stem = has_core stores stem && not (is_augmented stores stem)

missing_none :
    (stem : Str) (inventory paths : List Str)
    → is_empty (collect_region_presence stem inventory paths).1 ≡ all (contains inventory) paths
unfolding collect_region_presence
missing_none stem inventory [] = refl
missing_none stem inventory (path ∷ paths) = elim (Bool-cases (contains inventory path)) [
  | inl remote ↦ rw remote (missing_none stem inventory paths)
  | inr absent ↦ rw absent refl
]

filter_all : (p : Str → Bool) (xs : List Str) → filter (λ x. p x || true) xs ≡ xs
filter_all p [] = refl
filter_all p (x ∷ xs) = ground (arith, filter_all p xs)

record IsPlanned (stores : Stores) (stem : Str) (r : StemReconciliation) : Type 0 where
  same_stem : r.stem ≡ stem
  publishes : r.publish ≡ needs_publication stores stem
  augments : r.augment ≡ needs_augmentation stores stem

is_core_path : Str → Bool
is_core_path path = contains (codes "polygons" ∷ codes "polygon_articles" ∷ []) (corpus_of path)

expected_of_augmented : (stem : Str) → expected_region_paths stem true ≡ canonical_region_paths stem
unfolding expected_region_paths is_core_path
expected_of_augmented stem = filter_all is_core_path (canonical_region_paths stem)

publish_of : (b c : Bool) → b ≡ c → (not b && true) ≡ not c
publish_of b c h = ground (arith, h)

no_publish : (b : Bool) → (not b && false) ≡ false
no_publish b = ground arith

plan_present_publish :
    (stores : Stores) (stem : Str) (augmented : Bool)
    → (plan_present stores stem augmented).publish ≡ (augmented && not (is_remote stores stem))
unfolding plan_present
plan_present_publish stores stem true =
    publish_of
      (is_empty (collect_region_presence stem stores.inventory (expected_region_paths stem true)).1)
      (is_remote stores stem)
      (missing_none stem stores.inventory (expected_region_paths stem true)
        ∙ ap (all (contains stores.inventory)) (expected_of_augmented stem))
plan_present_publish stores stem false =
    no_publish (
      is_empty (collect_region_presence stem stores.inventory (expected_region_paths stem false)).1)

guarded_ok :
    {A : Type 0} (test : Bool) (m : Result A) {a : A}
    → (guard test value_error >> m) ≡ ok a
    → m ≡ ok a
guarded_ok true m h = h
guarded_ok false m h = cc

IsPlanned-of :
    (stores : Stores) (stem : Str) (files augmented : Bool)
    → files ≡ has_core stores stem
    → augmented ≡ is_augmented stores stem
    → IsPlanned stores stem
        (if files then plan_present stores stem augmented else nothing_planned stem)
unfolding plan_present
IsPlanned-of stores stem true augmented f a = record {
  same_stem = refl;
  publishes =
      plan_present_publish stores stem augmented
      ∙ ap₂ (λ b c. b && (c && not (is_remote stores stem))) f a;
  augments = ap₂ (λ b c. b && not c) f a;
}
IsPlanned-of stores stem false augmented f a = record {
  same_stem = refl;
  publishes = ap (λ b. b && (is_augmented stores stem && not (is_remote stores stem))) f;
  augments = ap (λ b. b && not (is_augmented stores stem)) f;
}

plan_stem-IsPlanned :
    (stores : Stores) (stem : Str) (r : StemReconciliation)
    → plan_stem stores stem ≡ ok r
    → IsPlanned stores stem r
unfolding plan_stem core_files resolve_augmentation_status
plan_stem-IsPlanned stores stem r h =
    let (files, core, h1) = >>=-eq-ok (core_files stores stem) _ h in
    let (augmented, status, h2) = >>=-eq-ok (resolve_augmentation_status stores stem) _ h1 in
    subst (IsPlanned stores stem) (ok_injective h2) (
      IsPlanned-of stores stem files augmented (sym (ok_injective (guarded_ok _ _ core)))
        (sym (ok_injective (guarded_ok _ _ status))))

taken_first :
    (need : Str → Bool) (stem s : Str) (rest c : Bool)
    → true ≡ need stem
    → rest ≡ (c && need s)
    → (stem == s || rest) ≡ ((stem == s || c) && need s)
taken_first need stem s rest c n h = ground (arith, h, n, ==_iff stem s, ap need {x = stem} {y = s})

left_first :
    (need : Str → Bool) (stem s : Str) (rest c : Bool)
    → false ≡ need stem
    → rest ≡ (c && need s)
    → rest ≡ ((stem == s || c) && need s)
left_first need stem s rest c n h = ground (arith, h, n, ==_iff stem s, ap need {x = stem} {y = s})

abbrev chosen : (StemReconciliation → Bool) → List StemReconciliation → List Str
chosen flag results = map (λ (r : StemReconciliation). r.stem) (filter flag results)

module _ (stores : Stores) (flag : StemReconciliation → Bool) (need : Str → Bool)
    (agree : (stem : Str) (r : StemReconciliation)
      → plan_stem stores stem ≡ ok r
      → (r.stem ≡ stem) × (flag r ≡ need stem)) where
  first_chosen :
      (r : StemReconciliation) (rs : List StemReconciliation) (stem : Str) (stems : List Str)
      (s : Str)
      → r.stem ≡ stem
      → flag r ≡ need stem
      → contains (chosen flag rs) s ≡ (contains stems s && need s)
      → contains (chosen flag (r ∷ rs)) s ≡ (contains (stem ∷ stems) s && need s)
  first_chosen r rs stem stems s same flagged later = elim (Bool-cases (flag r)) [
    | inl taken ↦ rw taken (rw same (taken_first need stem s _ _ (sym taken ∙ flagged) later))
    | inr left ↦ rw left (left_first need stem s _ _ (sym left ∙ flagged) later)
  ]

  contains-chosen :
      (stems : List Str) (results : List StemReconciliation)
      → traverse (plan_stem stores) stems ≡ ok results
      → (s : Str) → contains (chosen flag results) s ≡ (contains stems s && need s)
  contains-chosen [] results h s = rw (sym (ok_injective h)) refl
  contains-chosen (stem ∷ stems) results h s =
      let (r, planned, h1) = >>=-eq-ok (plan_stem stores stem) _ h in
      let (rs, rest, h2) = >>=-eq-ok (traverse (plan_stem stores) stems) _ h1 in
      let agreed = agree stem r planned in
      subst (λ found. contains (chosen flag found) s ≡ (contains (stem ∷ stems) s && need s))
        (ok_injective h2)
        (first_chosen r rs stem stems s agreed.0 agreed.1 (contains-chosen stems rs rest s))

-- A plan publishes exactly the given stems whose core is there, whose augmentation is current and of
-- which some artifact is not remote, and augments exactly those whose core is there and whose
-- augmentation is not current; so it never does both to one stem.
pub plan_lem :
    (stores : Stores) (stems : List Str) (p : ReconciliationPlan)
    → plan stores stems ≡ ok p
    → (s : Str)
    → (contains p.stems_to_publish s ≡ (contains stems s && needs_publication stores s))
      × (contains p.stems_to_augment s ≡ (contains stems s && needs_augmentation stores s))
unfolding plan
plan_lem stores stems p h s =
    let (results, planned, found) =
      >>=-eq-ok (traverse (plan_stem stores) (sort str_leq stems)) _ h in
    let members = contains-sort str_leq stems s in
    let publish =
      contains-chosen stores (λ r. r.publish) (needs_publication stores)
        (λ stem r k. let i = plan_stem-IsPlanned stores stem r k in (i.same_stem, i.publishes))
        (sort str_leq stems) results planned s in
    let augment =
      contains-chosen stores (λ r. r.augment) (needs_augmentation stores)
        (λ stem r k. let i = plan_stem-IsPlanned stores stem r k in (i.same_stem, i.augments))
        (sort str_leq stems) results planned s in
    subst
      (λ (q : ReconciliationPlan).
        (contains q.stems_to_publish s ≡ (contains stems s && needs_publication stores s))
        × (contains q.stems_to_augment s ≡ (contains stems s && needs_augmentation stores s)))
      (ok_injective found)
      (
        publish ∙ ap (λ b. b && needs_publication stores s) members,
        augment ∙ ap (λ b. b && needs_augmentation stores s) members,
      )
