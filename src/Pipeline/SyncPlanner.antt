-- ===== src/Pipeline/SyncPlanner.antt =====
-- pipeline/sync_planner.py: one action for each region, in the order of execution. A set of stems is a
-- list that is only asked for its members.
pub mod Laws
use osm_polygon_wikidata_onl.Prelude.{
  ℕ, Bool, true, false, ◌||◌, not, List, [], ◌∷◌, map, if◌then◌else◌, contains, nat_eq, str_eq,
  ◌==◌, str_ord, leb, str_leq, nat_beq, sort, Str, codes,
}

pub data SyncAction : Type 0 where
  recovery augment process publish complete : SyncAction

-- A path is the list of its parts.
abbrev pub FilePath : Type 0
FilePath = List Str

-- `PurePath.name`
unfoldable pub name : FilePath → Str
name [] = []
name (part ∷ []) = part
name (part ∷ next ∷ parts) = name (next ∷ parts)

-- `s.removesuffix(suffix)`
unfoldable pub remove_suffix : Str → Str → Str
remove_suffix suffix [] = []
remove_suffix suffix (c ∷ cs) =
    let rest = remove_suffix suffix cs in if (c ∷ cs) == suffix then [] else c ∷ rest

-- `pbf.name.removesuffix(".osm.pbf")`
abbrev pub stem_of : FilePath → Str
stem_of pbf = remove_suffix (codes ".osm.pbf") (name pbf)

pub record RegionSyncState : Type 0 where
  pub stem : Str
  pub pbf_path : FilePath
  pub action : SyncAction

unfoldable pub action_for_existing_stem : Str → List Str → List Str → List Str → SyncAction
action_for_existing_stem stem augmentation_stems pending_stems recovery_stems =
    if not (contains augmentation_stems stem)
    then augment
    else if contains recovery_stems stem
    then recovery
    else if contains pending_stems stem
    then publish
    else complete

unfoldable pub action_for_stem : Str → List Str → List Str → Bool → List Str → List Str → SyncAction
unfolding action_for_existing_stem
action_for_stem stem core_stems augmentation_stems force pending_stems recovery_stems =
    if force || not (contains core_stems stem)
    then process
    else action_for_existing_stem stem augmentation_stems pending_stems recovery_stems

unfoldable pub sync_priority : SyncAction → ℕ
sync_priority recovery = 0
sync_priority augment = 1
sync_priority publish = 2
sync_priority process = 3
sync_priority complete = 4

-- whether the key of one state, its priority and its stem, is at most that of another
unfoldable pub runs_before : RegionSyncState → RegionSyncState → Bool
unfolding sync_priority
runs_before s t =
    if nat_beq (sync_priority s.action) (sync_priority t.action)
    then str_leq s.stem t.stem
    else leb (sync_priority s.action) (sync_priority t.action)

unfoldable pub classify :
    List Str → List Str → Bool → List Str → List Str → FilePath → RegionSyncState
unfolding action_for_stem
classify core_stems augmentation_stems force pending_stems recovery_stems pbf = record {
  stem = stem_of pbf;
  pbf_path = pbf;
  action =
      action_for_stem (stem_of pbf) core_stems augmentation_stems force pending_stems
        recovery_stems;
}

-- a set that is `None` is empty
unfoldable pub plan_sync_states :
    List FilePath → List Str → List Str → Bool → List Str → List Str → List RegionSyncState
unfolding classify runs_before
plan_sync_states pbfs core_stems augmentation_stems force pending_stems recovery_stems =
    sort runs_before
      (map (classify core_stems augmentation_stems force pending_stems recovery_stems) pbfs)
