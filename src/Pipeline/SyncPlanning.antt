-- ===== src/Pipeline/SyncPlanning.antt =====
-- pipeline/sync_planning.py: the sets of stems that a run plans with. What the stores hold, and the plan
-- of the link migration, which the code is handed as a function, are arguments.
pub mod Actions
use osm_polygon_wikidata_onl.Prelude.{
  Bool, true, false, ◌||◌, ◌&&◌, not, List, [], ◌∷◌, ◌++◌, map, if◌then◌else◌, filter, any,
  contains, distinct, str_eq, ◌==◌, pair_eq, str_leq, sort, Str, codes, Option, none, some, Dict,
  keys, is_empty, Result, ok, err, runtime_error,
}
use osm_polygon_wikidata_onl.Pipeline.SyncPlanner.{
  SyncAction, recovery, augment, process, publish, complete, FilePath, stem_of, remove_suffix,
  RegionSyncState, plan_sync_states,
}

pub data MigrationOperation : Type 0 where
  create_missing upgrade_legacy already_canonical blocked : MigrationOperation

pub record MigrationStem : Type 0 where
  pub stem : Str
  pub operation : MigrationOperation

pub data StemClassification : Type 0 where
  migratable canonical blocked_stem : StemClassification

pub record LinkStem : Type 0 where
  pub stem : Str
  pub classification : StemClassification

pub record StemInventory : Type 0 where
  pub input_stems : List Str
  pub core_stems : List Str
  pub current_augmentation : List Str

pub record RecoveryAuditRegion : Type 0 where
  pub stem : Str
  pub blocked_reason : Option Str

-- `set.add` for each element in turn
unfoldable pub set_of : List Str → List Str
set_of [] = []
set_of (x ∷ xs) = let rest = set_of xs in if contains rest x then rest else x ∷ rest

unfoldable pub recovery_audit_stems : List Str → List Str → List Str → Bool → List Str
recovery_audit_stems input_stems core_stems current_augmentation force =
    if force
    then []
    else sort str_leq (
        filter (λ stem. contains core_stems stem && contains current_augmentation stem) input_stems)

-- whether a reason is given: neither `None` nor an empty text
abbrev has_reason : Option Str → Bool
has_reason none = false
has_reason (some reason) = not (is_empty reason)

unfoldable pub ensure_recovery_audit_unblocked : List RecoveryAuditRegion → Result (Unit {0})
ensure_recovery_audit_unblocked regions =
    if any (λ (r : RecoveryAuditRegion). has_reason r.blocked_reason) regions
    then err runtime_error
    else ok tt

unfoldable pub active_pbfs : List FilePath → List Str → List FilePath
active_pbfs pbfs retired_children =
    filter (λ pbf. not (contains retired_children (stem_of pbf))) pbfs

unfoldable pub must_publish : MigrationOperation → Bool
must_publish create_missing = true
must_publish upgrade_legacy = true
must_publish already_canonical = false
must_publish blocked = false

unfoldable pub migration_stems_to_persist : List MigrationStem → List Str
unfolding set_of must_publish
migration_stems_to_persist stems = set_of (
    map (λ (m : MigrationStem). m.stem)
      (filter (λ (m : MigrationStem). must_publish m.operation) stems))

-- `remote_current` and the local validation are dictionaries from a stem to whether it is current
unfoldable pub current_augmentation_for_plan : Bool → Dict Str Bool → Dict Str Bool → List Str
current_augmentation_for_plan push_enabled remote_current local_current =
    keys (filter (λ (e : Str × Bool). e.1) (if push_enabled then remote_current else local_current))

unfoldable pub pending_stems_for_plan : List Str → List Str → Bool → List Str
unfolding set_of
pending_stems_for_plan pending stems_with_gaps push_enabled =
    if push_enabled then set_of (pending ++ stems_with_gaps) else pending

unfoldable pub is_canonical : StemClassification → Bool
is_canonical canonical = true
is_canonical migratable = false
is_canonical blocked_stem = false

unfoldable pub link_recovery_stems : List LinkStem → List Str
unfolding is_canonical
link_recovery_stems stems =
    map (λ (l : LinkStem). l.stem)
      (filter (λ (l : LinkStem). not (is_canonical l.classification)) stems)

unfoldable pub plan_sync_states_with_recovery :
    List FilePath
    → StemInventory
    → Bool
    → List Str
    → List Str
    → List LinkStem
    → List RegionSyncState
unfolding recovery_audit_stems link_recovery_stems plan_sync_states
plan_sync_states_with_recovery pbfs inventory force pending_stems recovery_stems link_stems =
    plan_sync_states pbfs inventory.core_stems inventory.current_augmentation force pending_stems (
      recovery_stems
      ++ recovery_audit_stems inventory.input_stems inventory.core_stems
          inventory.current_augmentation force
      ++ link_recovery_stems link_stems)

-- whether an action changes core artifacts, given whether some are missing
unfoldable pub repairs_core : SyncAction → Bool → Bool
repairs_core process gap = true
repairs_core publish gap = gap
repairs_core augment gap = gap
repairs_core recovery gap = false
repairs_core complete gap = false

-- pipeline/sync_reconciliation.py: a missing artifact is a stem and the name of its corpus
unfoldable pub core_repair_required : SyncAction → Str → List (Str × Str) → Bool
unfolding repairs_core
core_repair_required action stem missing =
    repairs_core action (
      contains missing (stem, codes "polygons")
      || contains missing (stem, codes "polygon_articles"))

-- `reconciliation_plan` is the missing artifacts of the remote's plan, where there is one
unfoldable pub core_will_be_repaired :
    List RegionSyncState → Option (List (Str × Str)) → Bool → Bool
unfolding core_repair_required
core_will_be_repaired states none push_enabled = false
core_will_be_repaired states (some missing) push_enabled =
    push_enabled
    && any (λ (s : RegionSyncState). core_repair_required s.action s.stem missing) states

-- What the stores and the remote say to a run.
pub record PlanInputs : Type 0 where
  pub manifest_names : List Str
  pub augmentation_current : Dict Str Bool
  pub local_current : Dict Str Bool
  pub pending : List Str
  pub stems_with_gaps : List Str
  pub reconciliation_missing : Option (List (Str × Str))
  pub link_stems : List LinkStem

pub record PreparedSyncPlan : Type 0 where
  pub input_stems : List Str
  pub all_pending_stems : List Str
  pub states : List RegionSyncState
  pub core_repaired : Bool

-- `_prepare_local_inputs` derives the input stems from the active files, and `_plan_prepared_sync` the
-- states
unfoldable pub plan_prepared_sync : List FilePath → PlanInputs → Bool → Bool → PreparedSyncPlan
unfolding set_of current_augmentation_for_plan pending_stems_for_plan plan_sync_states_with_recovery
    core_will_be_repaired
plan_prepared_sync pbfs inputs force push_enabled =
    let input_stems = set_of (map stem_of pbfs) in
    let core_stems = set_of (map (remove_suffix (codes ".osm.pbf")) inputs.manifest_names) in
    let current =
      current_augmentation_for_plan push_enabled inputs.augmentation_current inputs.local_current in
    let all_pending = pending_stems_for_plan inputs.pending inputs.stems_with_gaps push_enabled in
    let states =
      plan_sync_states_with_recovery pbfs
        (record {
          input_stems = input_stems;
          core_stems = core_stems;
          current_augmentation = current;
        })
        force all_pending [] inputs.link_stems in
    record {
      input_stems = input_stems;
      all_pending_stems = all_pending;
      states = states;
      core_repaired = core_will_be_repaired states inputs.reconciliation_missing push_enabled;
    }
