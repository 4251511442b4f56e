-- ===== src/Examples/Plans.antt =====
-- Three regions: a new one, a stale one and a finished one.
use osm_polygon_wikidata_onl.Prelude.{
  ◌≡◌, true, false, List, [], ◌∷◌, none, Str, codes, all, map, filter, is_sorted,
}
use osm_polygon_wikidata_onl.Pipeline.SyncPlanner.{
  SyncAction, FilePath, plan_sync_states, remove_suffix,
}
use osm_polygon_wikidata_onl.Pipeline.SyncPlanner.Laws.{
  plan_sync_states_lem, precedes, is_of, region, wanted,
}
use osm_polygon_wikidata_onl.Pipeline.SyncPlanning.{
  PlanInputs, plan_prepared_sync, set_of, current_augmentation_for_plan,
}
use osm_polygon_wikidata_onl.Pipeline.SyncPlanning.Actions.{as_expected, plan_prepared_sync_lem}

abbrev file : Str → FilePath
file name = codes "data" ∷ name ∷ []

abbrev pbfs : List FilePath
pbfs = file (codes "new.osm.pbf") ∷ file (codes "stale.osm.pbf") ∷ file (codes "done.osm.pbf") ∷ []

abbrev core : List Str
core = codes "stale" ∷ codes "done" ∷ []

abbrev current : List Str
current = codes "done" ∷ []

plan_sync_states_lem_example :
    (is_sorted precedes (plan_sync_states pbfs core current false [] []) ≡ true)
    × ((action : SyncAction) (stem : Str)
        → filter (is_of action stem) (plan_sync_states pbfs core current false [] [])
          ≡ map (region action) (filter (wanted core current false [] [] action stem) pbfs))
plan_sync_states_lem_example = plan_sync_states_lem core current false [] [] pbfs

abbrev inputs : PlanInputs
inputs = record {
  manifest_names = codes "stale.osm.pbf" ∷ codes "done.osm.pbf" ∷ [];
  augmentation_current = (codes "done", true) ∷ (codes "stale", false) ∷ [];
  local_current = [];
  pending = codes "done" ∷ [];
  stems_with_gaps = [];
  reconciliation_missing = none;
  link_stems = [];
}

plan_prepared_sync_lem_example :
    all
      (as_expected false
        (set_of (map (remove_suffix (codes ".osm.pbf")) inputs.manifest_names))
        (current_augmentation_for_plan true inputs.augmentation_current inputs.local_current))
      (plan_prepared_sync pbfs inputs false true).states
    ≡ true
plan_prepared_sync_lem_example = plan_prepared_sync_lem pbfs inputs false true
