-- ===== src/Examples/Remote.antt =====
-- A region whose sections are not remote, and a manifest that grows by one region.
use osm_polygon_wikidata_onl.Prelude.{
  ◌≡◌, ◌↔◌, refl, Bool, true, false, ◌&&◌, List, [], ◌∷◌, Option, none, some, Str, codes, contains,
  str_eq, ok, ◌==◌, ==_iff, Dict, map, arith, pair_eq,
}
use osm_polygon_wikidata_onl.Hf.Reconciliation.{Stores, ReconciliationPlan, plan}
use osm_polygon_wikidata_onl.Hf.Reconciliation.Partition.{
  needs_publication, needs_augmentation, plan_lem,
}
use osm_polygon_wikidata_onl.Grid5000.Manifest.{
  JsonView, manifest_invariant_keys, Mapping, validate_manifest_extension,
}
use osm_polygon_wikidata_onl.Grid5000.Manifest.Extension.{Extends, validate_manifest_extension_iff}

abbrev stores : Stores
stores = record {
  is_file = λ path. true;
  inventory = codes "polygons/fr.parquet" ∷ [];
  manifest_entries = codes "fr.osm.pbf" ∷ [];
  augmentation_manifest = codes "fr" ∷ [];
  augmentation_current = (codes "fr", true) ∷ [];
  is_current = λ stem. false;
}

planned : (p : ReconciliationPlan) × (plan stores (codes "fr" ∷ []) ≡ ok p)
unfolding plan
planned = (_, refl)

plan_lem_example :
    (contains planned.0.stems_to_publish (codes "fr")
      ≡ (contains (codes "fr" ∷ []) (codes "fr") && needs_publication stores (codes "fr")))
    × (contains planned.0.stems_to_augment (codes "fr")
        ≡ (contains (codes "fr" ∷ []) (codes "fr") && needs_augmentation stores (codes "fr")))
plan_lem_example = plan_lem stores (codes "fr" ∷ []) planned.0 planned.1 (codes "fr")

-- What JSON a manifest needs: a text, or a list of regions, each of a stem and a project.
data Json : Type 0 where
  text : Str → Json
  region : Str → Str → Json
  regions : List (Str × Str) → Json

abbrev pairs_beq : List (Str × Str) → List (Str × Str) → Bool
pairs_beq [] [] = true
pairs_beq (x ∷ xs) (y ∷ ys) = x == y && pairs_beq xs ys
pairs_beq _ _ = false

pairs_beq_iff : (a b : List (Str × Str)) → (pairs_beq a b ≡ true) ↔ (a ≡ b)
pairs_beq_iff [] [] = ground arith
pairs_beq_iff [] (y ∷ ys) = ground arith
pairs_beq_iff (x ∷ xs) [] = ground arith
pairs_beq_iff (x ∷ xs) (y ∷ ys) = ground (arith, ==_iff x y, pairs_beq_iff xs ys)

abbrev json_beq : Json → Json → Bool
json_beq (text a) (text b) = a == b
json_beq (region a p) (region b q) = (a == b) && (p == q)
json_beq (regions a) (regions b) = pairs_beq a b
json_beq _ _ = false

json_beq_iff : (a b : Json) → (json_beq a b ≡ true) ↔ (a ≡ b)
json_beq_iff (text a) (text b) = ground (arith, ==_iff a b)
json_beq_iff (text a) (region b q) = ground arith
json_beq_iff (text a) (regions b) = ground arith
json_beq_iff (region a p) (text b) = ground arith
json_beq_iff (region a p) (region b q) = ground (arith, ==_iff a b, ==_iff p q)
json_beq_iff (region a p) (regions b) = ground arith
json_beq_iff (regions a) (text b) = ground arith
json_beq_iff (regions a) (region b q) = ground arith
json_beq_iff (regions a) (regions b) = ground (arith, pairs_beq_iff a b)

abbrev list_view : Json → Option (List Json)
list_view (regions rs) = some (map (λ (r : Str × Str). region r.0 r.1) rs)
list_view _ = none

abbrev mapping_view : Json → Option (Dict Str Json)
mapping_view (region stem project) =
    some ((codes "stem", text stem) ∷ (codes "project", text project) ∷ [])
mapping_view _ = none

abbrev str_view : Json → Option Str
str_view (text s) = some s
str_view _ = none

abbrev view : JsonView
view = record {
  Json = Json;
  equal = record { beq = json_beq; beq_iff = json_beq_iff };
  as_list = list_view;
  as_mapping = mapping_view;
  as_str = str_view;
}

abbrev manifest : List (Str × Str) → Mapping view
manifest rs =
    (codes "regions", regions rs) ∷ map (λ key. (key, text (codes "v1"))) manifest_invariant_keys

abbrev local_regions : List (Str × Str)
local_regions = (codes "fr", codes "wikipedia") ∷ []

abbrev incoming_regions : List (Str × Str)
incoming_regions = (codes "de", codes "wikipedia") ∷ local_regions

validate_manifest_extension_iff_example :
    (validate_manifest_extension view
        (manifest local_regions)
        (manifest incoming_regions)
        (codes "de" ∷ [])
      ≡ ok tt)
    ↔ Extends view (manifest local_regions) (manifest incoming_regions) (codes "de" ∷ [])
validate_manifest_extension_iff_example =
    validate_manifest_extension_iff view (manifest local_regions) (manifest incoming_regions)
      (codes "de" ∷ [])

-- The manifest that grows by a region is accepted.
accepted :
    validate_manifest_extension view
      (manifest local_regions)
      (manifest incoming_regions)
      (codes "de" ∷ [])
    ≡ ok tt
unfolding validate_manifest_extension
accepted = refl
