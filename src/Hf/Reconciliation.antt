-- ===== src/Hf/Reconciliation.antt =====
-- hf/reconciliation.py: the plan that reconciles the remote dataset with the local one. The data root is
-- the test whether a path below it is a file; the inventory is the remote files.
pub mod Partition
use osm_polygon_wikidata_onl.Prelude.{
  Bool, true, false, ◌&&◌, ◌||◌, not, List, [], ◌∷◌, ◌++◌, map, if◌then◌else◌, filter, contains,
  is_empty, Str, codes, str_eq, ◌==◌, pair_eq, str_leq, str_ord, pair_leq, pair_ord, sort, Option,
  none, some, Dict, get, Result, ok, err, value_error, ◌>>=◌, ◌>>◌, guard, traverse,
}
use osm_polygon_wikidata_onl.Domain.Chars.{split, join}

-- a stem and the corpus of one of its artifacts
abbrev pub Artifact : Type 0
Artifact = Str × Str

pub record ReconciliationPlan : Type 0 where
  pub present : List Artifact
  pub missing : List Artifact
  pub stems_to_publish : List Str
  pub stems_to_augment : List Str

pub record StemReconciliation : Type 0 where
  pub stem : Str
  pub present : List Artifact
  pub missing : List Artifact
  pub publish : Bool
  pub augment : Bool

-- What the planner reads.
pub record Stores : Type 0 where
  pub is_file : Str → Bool
  pub inventory : List Str
  pub manifest_entries : List Str
  pub augmentation_manifest : List Str
  pub augmentation_current : Dict Str Bool
  -- `augmentation_is_current`
  pub is_current : Str → Bool

-- `canonical_region_paths`, whose remote paths are the local ones
unfoldable pub canonical_region_paths : Str → List Str
canonical_region_paths stem =
    map (λ corpus. corpus ++ (codes "/" ++ (stem ++ codes ".parquet")))
      (codes "polygons"
        ∷ codes "polygon_articles"
        ∷ codes "wikipedia/documents"
        ∷ codes "wikipedia/sections"
        ∷ codes "wikivoyage/documents"
        ∷ codes "wikivoyage/sections"
        ∷ codes "wikidata/facts"
        ∷ [])

abbrev without_last : List Str → List Str
without_last [] = []
without_last (part ∷ []) = []
without_last (part ∷ next ∷ parts) = part ∷ without_last (next ∷ parts)

-- `"/".join(path.split("/")[:-1])`
unfoldable pub corpus_of : Str → Str
corpus_of path = joined (without_last (split b'/' path))
  where
    joined : List Str → Str
    joined [] = []
    joined (part ∷ parts) = join b'/' (part ∷ parts)

-- `_core_state` and `_validate_core_state`: whether the two core files are there
unfoldable pub core_files : Stores → Str → Result Bool
core_files stores stem =
    let manifest_exists = contains stores.manifest_entries (stem ++ codes ".osm.pbf") in
    let polygons_exists = stores.is_file (codes "polygons/" ++ (stem ++ codes ".parquet")) in
    let links_exists = stores.is_file (codes "polygon_articles/" ++ (stem ++ codes ".parquet")) in
    let any_exists = manifest_exists || (polygons_exists || links_exists) in
    guard (not any_exists || (manifest_exists && (polygons_exists && links_exists))) value_error
    >> ok (polygons_exists && links_exists)

abbrev or_else : Option Bool → Bool → Bool
or_else none default = default
or_else (some found) default = found

-- `_resolve_augmentation_status`
unfoldable pub resolve_augmentation_status : Stores → Str → Result Bool
resolve_augmentation_status stores stem =
    guard
      (not (contains stores.augmentation_manifest stem)
        || stores.is_file (codes "wikipedia/documents/" ++ (stem ++ codes ".parquet")))
      value_error
    >> ok (or_else (get stem stores.augmentation_current) (stores.is_current stem))

unfoldable pub expected_region_paths : Str → Bool → List Str
unfolding canonical_region_paths corpus_of
expected_region_paths stem augmented =
    filter
      (λ path.
        contains (codes "polygons" ∷ codes "polygon_articles" ∷ []) (corpus_of path) || augmented)
      (canonical_region_paths stem)

-- `_collect_region_presence`: what is there, and what is not
unfoldable pub collect_region_presence : Str → List Str → List Str → List Artifact × List Artifact
collect_region_presence stem inventory [] = ([], [])
collect_region_presence stem inventory (path ∷ paths) =
    let (present, missing) = collect_region_presence stem inventory paths in
    if contains inventory path
    then ((stem, corpus_of path) ∷ present, missing)
    else (present, (stem, corpus_of path) ∷ missing)

abbrev nothing_planned : Str → StemReconciliation
nothing_planned stem = record {
  stem = stem;
  present = [];
  missing = [];
  publish = false;
  augment = false;
}

unfoldable pub plan_present : Stores → Str → Bool → StemReconciliation
unfolding expected_region_paths collect_region_presence
plan_present stores stem augmented =
    let (present, missing) =
      collect_region_presence stem stores.inventory (expected_region_paths stem augmented) in
    record {
      stem = stem;
      present = present;
      missing = missing;
      publish = not (is_empty missing) && augmented;
      augment = not augmented;
    }

unfoldable pub plan_stem : Stores → Str → Result StemReconciliation
unfolding core_files resolve_augmentation_status plan_present
plan_stem stores stem = core_files stores stem >>= λ files_exist.
    resolve_augmentation_status stores stem >>= λ augmented.
    ok (if files_exist then plan_present stores stem augmented else nothing_planned stem)

abbrev concat : {A : Type 0} → List (List A) → List A
concat [] = []
concat (xs ∷ xss) = xs ++ concat xss

-- `ReconciliationPlanner.plan`, of the stems in order; the repository's own files are left out
unfoldable pub plan : Stores → List Str → Result ReconciliationPlan
unfolding plan_stem
plan stores stems = traverse (plan_stem stores) (sort str_leq stems) >>= λ results. ok (record {
  present = sort pair_leq (concat (map (λ (r : StemReconciliation). r.present) results));
  missing = sort pair_leq (concat (map (λ (r : StemReconciliation). r.missing) results));
  stems_to_publish =
      map (λ (r : StemReconciliation). r.stem)
        (filter (λ (r : StemReconciliation). r.publish) results);
  stems_to_augment =
      map (λ (r : StemReconciliation). r.stem)
        (filter (λ (r : StemReconciliation). r.augment) results);
})
