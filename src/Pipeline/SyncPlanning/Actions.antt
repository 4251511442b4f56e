-- ===== src/Pipeline/SyncPlanning/Actions.antt =====
-- The action that a run plans for each region.
use osm_polygon_wikidata_onl.Prelude.{
  ◌≡◌, refl, ◌∙◌, Bool, true, false, ◌||◌, ◌&&◌, not, List, [], ◌∷◌, ◌++◌, map, if◌then◌else◌, all,
  contains, str_eq, ==_iff, str_leq, Str, codes, arith, contains-append, contains-filter,
  contains-sort, all-sort, all_of_contains,
}
use osm_polygon_wikidata_onl.Pipeline.SyncPlanner.{
  SyncAction, recovery, augment, process, publish, complete, FilePath, stem_of, remove_suffix,
  RegionSyncState, plan_sync_states, classify, runs_before, action_for_stem,
  action_for_existing_stem,
}
use osm_polygon_wikidata_onl.Pipeline.SyncPlanning.{
  set_of, recovery_audit_stems, plan_sync_states_with_recovery, PlanInputs, plan_prepared_sync,
  current_augmentation_for_plan, pending_stems_for_plan, link_recovery_stems,
}

pub contains-set_of : (xs : List Str) (a : Str) → contains (set_of xs) a ≡ contains xs a
unfolding set_of
contains-set_of [] a = refl
contains-set_of (x ∷ xs) a = ground (arith, contains-set_of xs a, contains-set_of xs x, ==_iff x a)

-- a region's action, when its stem is one of the run's: by whether it is forced, and by which of its
-- artifacts are current
abbrev pub expected : Bool → List Str → List Str → Str → SyncAction
expected force core current stem =
    if force || not (contains core stem)
    then process
    else if contains current stem
    then recovery
    else augment

abbrev pub same_action : SyncAction → SyncAction → Bool
same_action recovery recovery = true
same_action augment augment = true
same_action process process = true
same_action publish publish = true
same_action complete complete = true
same_action _ _ = false

same_action_refl : (a : SyncAction) → same_action a a ≡ true
same_action_refl recovery = refl
same_action_refl augment = refl
same_action_refl process = refl
same_action_refl publish = refl
same_action_refl complete = refl

contains-recovery_audit_stems :
    (input core current : List Str) (stem : Str)
    → contains (recovery_audit_stems input core current false) stem
      ≡ (contains input stem && (contains core stem && contains current stem))
unfolding recovery_audit_stems
contains-recovery_audit_stems input core current stem =
    contains-sort str_leq _ stem
    ∙ contains-filter (λ s. contains core s && contains current s) input stem

-- A stem of the run with current artifacts is always among those to recover.
action_for_stem-expected :
    (input core current pending recoveries links : List Str) (force : Bool) (stem : Str)
    → contains input stem ≡ true
    → action_for_stem stem core current force pending
        (recoveries ++ recovery_audit_stems input core current force ++ links)
      ≡ expected force core current stem
unfolding action_for_stem action_for_existing_stem
action_for_stem-expected input core current pending recoveries links true stem m = refl
action_for_stem-expected input core current pending recoveries links false stem m = ground (
  arith,
  m,
  contains-append (recoveries ++ recovery_audit_stems input core current false) links stem,
  contains-append recoveries (recovery_audit_stems input core current false) stem,
  contains-recovery_audit_stems input core current stem,
)

abbrev pub as_expected : Bool → List Str → List Str → RegionSyncState → Bool
as_expected force core current s = same_action s.action (expected force core current s.stem)

classified-expected :
    (input core current pending recoveries links : List Str) (force : Bool) (pbfs : List FilePath)
    → all (contains input) (map stem_of pbfs) ≡ true
    → all (as_expected force core current) (
        map
          (classify core current force pending
            (recoveries ++ recovery_audit_stems input core current force ++ links))
          pbfs)
      ≡ true
unfolding classify
classified-expected input core current pending recoveries links force [] h = refl
classified-expected input core current pending recoveries links force (pbf ∷ pbfs) h =
    rw
      (action_for_stem-expected input core current pending recoveries links force (stem_of pbf)
        (ground (arith, h)))
      (rw (same_action_refl (expected force core current (stem_of pbf))) (
        classified-expected input core current pending recoveries links force pbfs
          (ground (arith, h))))

-- A run plans one of three actions for each region: to process it when forced or when its core is
-- missing, else to augment it when its augmentation is not current, else to recover it; so it never plans
-- to publish a region or to leave it as complete.
pub plan_prepared_sync_lem :
    (pbfs : List FilePath) (inputs : PlanInputs) (force push_enabled : Bool)
    → let core = set_of (map (remove_suffix (codes ".osm.pbf")) inputs.manifest_names) in
      let current =
        current_augmentation_for_plan push_enabled inputs.augmentation_current
          inputs.local_current in
      all
        (as_expected force core current)
        (plan_prepared_sync pbfs inputs force push_enabled).states
      ≡ true
unfolding plan_prepared_sync plan_sync_states_with_recovery plan_sync_states
plan_prepared_sync_lem pbfs inputs force push_enabled =
    let input = set_of (map stem_of pbfs) in
    let core = set_of (map (remove_suffix (codes ".osm.pbf")) inputs.manifest_names) in
    let current =
      current_augmentation_for_plan push_enabled inputs.augmentation_current inputs.local_current in
    all-sort runs_before (as_expected force core current) _
    ∙ classified-expected input core current
        (pending_stems_for_plan inputs.pending inputs.stems_with_gaps push_enabled) []
        (link_recovery_stems inputs.link_stems) force pbfs
        (all_of_contains (contains input) (map stem_of pbfs)
          (λ a m. contains-set_of (map stem_of pbfs) a ∙ m))
