-- ===== src/Pipeline/SyncPlanner/Laws.antt =====
-- The order of a plan, and the actions in it: pipeline/sync_planner.py.
use osm_polygon_wikidata_onl.Prelude.{
  ◌≡◌, refl, ap, ◌∙◌, Bool, true, false, ◌||◌, ◌&&◌, not, List, [], ◌∷◌, map, filter, contains,
  nat_beq, str_eq, ◌==◌, ==_iff, arith, is_sorted, sort, sort-is_sorted, filter-sort, leb, str_leq,
  str_leq_total, str_leq_trans, Str, if◌then◌else◌, Bool-cases, inl, inr,
}
use mathlib.Core.Path.{subst, fun_ext}
use osm_polygon_wikidata_onl.Pipeline.SyncPlanner.{
  SyncAction, recovery, augment, process, publish, complete, RegionSyncState, FilePath, stem_of,
  runs_before, sync_priority, action_for_stem, action_for_existing_stem, classify, plan_sync_states,
}

runs_before_total : (s t : RegionSyncState) → (runs_before s t || runs_before t s) ≡ true
unfolding runs_before
runs_before_total s t = ground (arith, str_leq_total s.stem t.stem)

runs_before_trans :
    (s t u : RegionSyncState)
    → runs_before s t ≡ true
    → runs_before t u ≡ true
    → runs_before s u ≡ true
unfolding runs_before
runs_before_trans s t u h k = ground (arith, str_leq_trans s.stem t.stem u.stem)

-- The actions in the order in which a run takes them.
abbrev pub goes_before : SyncAction → SyncAction → Bool
goes_before recovery recovery = false
goes_before recovery _ = true
goes_before augment publish = true
goes_before augment process = true
goes_before augment complete = true
goes_before publish process = true
goes_before publish complete = true
goes_before process complete = true
goes_before _ _ = false

abbrev pub same_action : SyncAction → SyncAction → Bool
same_action recovery recovery = true
same_action augment augment = true
same_action publish publish = true
same_action process process = true
same_action complete complete = true
same_action _ _ = false

-- Of two regions the one whose action goes first comes first, and of one action the one whose stem does.
abbrev pub precedes : RegionSyncState → RegionSyncState → Bool
precedes s t =
    goes_before s.action t.action || (same_action s.action t.action && str_leq s.stem t.stem)

-- When a region is planned for an action, of its stem.
abbrev pub wants : List Str → List Str → Bool → List Str → List Str → SyncAction → Str → Bool
wants core augmentation force pending recoveries process stem = force || not (contains core stem)
wants core augmentation force pending recoveries augment stem =
    not force && contains core stem && not (contains augmentation stem)
wants core augmentation force pending recoveries recovery stem =
    not force && contains core stem && contains augmentation stem && contains recoveries stem
wants core augmentation force pending recoveries publish stem =
    not force
    && contains core stem
    && contains augmentation stem
    && not (contains recoveries stem)
    && contains pending stem
wants core augmentation force pending recoveries complete stem =
    not force
    && contains core stem
    && contains augmentation stem
    && not (contains recoveries stem)
    && not (contains pending stem)

abbrev pub region : SyncAction → FilePath → RegionSyncState
region action pbf = record { stem = stem_of pbf; pbf_path = pbf; action = action }

-- the regions of one action and one stem
abbrev pub is_of : SyncAction → Str → RegionSyncState → Bool
is_of action stem s = same_action s.action action && s.stem == stem

precedes_lem :
    (a b : SyncAction) (stems : Bool)
    → (if nat_beq (sync_priority a) (sync_priority b)
        then stems
        else leb (sync_priority a) (sync_priority b))
      ≡ (goes_before a b || (same_action a b && stems))
unfolding sync_priority
precedes_lem a b stems = ground arith

runs_before_lem : (s t : RegionSyncState) → runs_before s t ≡ precedes s t
unfolding runs_before
runs_before_lem s t = precedes_lem s.action t.action (str_leq s.stem t.stem)

has_key_level :
    (action : SyncAction) (stem : Str) (s t : RegionSyncState)
    → is_of action stem s ≡ true
    → is_of action stem t ≡ true
    → runs_before s t ≡ true
has_key_level action stem s t h k =
    runs_before_lem s t
    ∙ ground (
      arith,
      ==_iff s.stem stem,
      ==_iff t.stem stem,
      str_leq_total s.stem t.stem,
      h,
      k,
      same_twice s.action t.action action,
    )
  where
    same_twice :
        (a b c : SyncAction)
        → same_action a c ≡ true
        → same_action b c ≡ true
        → same_action a b ≡ true
    same_twice a b c h k = ground arith

module _ (core augmentation : List Str) (force : Bool) (pending recoveries : List Str) where
  action_for_stem-wants :
      (action : SyncAction) (stem : Str)
      → same_action (action_for_stem stem core augmentation force pending recoveries) action
        ≡ wants core augmentation force pending recoveries action stem
  unfolding action_for_stem action_for_existing_stem
  action_for_stem-wants process stem = ground arith
  action_for_stem-wants augment stem = ground arith
  action_for_stem-wants recovery stem = ground arith
  action_for_stem-wants publish stem = ground arith
  action_for_stem-wants complete stem = ground arith

  same_action_lem : (a b : SyncAction) → same_action a b ≡ true → a ≡ b
  same_action_lem a b h = ground arith

  -- whether the region of a file is planned for an action, and is of a stem
  abbrev pub wanted : SyncAction → Str → FilePath → Bool
  wanted action stem pbf =
      wants core augmentation force pending recoveries action (stem_of pbf) && stem_of pbf == stem

  regions_lem :
      (action : SyncAction) (stem : Str) (pbfs : List FilePath)
      → filter (is_of action stem) (map (classify core augmentation force pending recoveries) pbfs)
        ≡ map (region action) (filter (wanted action stem) pbfs)
  unfolding classify
  regions_lem action stem [] = refl
  regions_lem action stem (pbf ∷ pbfs) =
      let act = action_for_stem (stem_of pbf) core augmentation force pending recoveries in
      elim (Bool-cases (wanted action stem pbf)) [
        | inl e ↦ rw (action_for_stem-wants action (stem_of pbf)) (
            rw e (
              rw (regions_lem action stem pbfs) (
                ap
                  (λ a.
                    record { stem = stem_of pbf; pbf_path = pbf; action = a }
                    ∷ map (region action) (filter (wanted action stem) pbfs))
                  (same_action_lem act action
                    (action_for_stem-wants action (stem_of pbf) ∙ ground (arith, e))))))
        | inr e ↦
            rw (action_for_stem-wants action (stem_of pbf)) (rw e (regions_lem action stem pbfs))
      ]

  -- A plan has its regions in the order recovery, augment, publish, process, complete, and those of one
  -- action in the order of their stems. For each action and stem it holds the regions of the files of that
  -- stem, each once and in the order of the files, exactly if the stem asks for the action: to process
  -- when forced or when its core is missing, else to augment when it has no augmentation, else to recover
  -- when it is among the recoveries, else to publish when it is pending, and else to be complete.
  pub plan_sync_states_lem :
      (pbfs : List FilePath)
      → let plan = plan_sync_states pbfs core augmentation force pending recoveries in
        (is_sorted precedes plan ≡ true)
        × ((action : SyncAction) (stem : Str)
            → filter (is_of action stem) plan
              ≡ map (region action) (filter (wanted action stem) pbfs))
  unfolding plan_sync_states
  plan_sync_states_lem pbfs =
      let states = map (classify core augmentation force pending recoveries) pbfs in
      (
        subst (λ order. is_sorted order (sort runs_before states) ≡ true)
            (fun_ext (λ s. fun_ext (λ t. runs_before_lem s t)))
            (sort-is_sorted runs_before runs_before_total runs_before_trans states),
        λ action stem.
            filter-sort runs_before (is_of action stem) (has_key_level action stem) states
            ∙ regions_lem action stem pbfs,
      )
