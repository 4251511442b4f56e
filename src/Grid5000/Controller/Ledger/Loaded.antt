-- ===== src/Grid5000/Controller/Ledger/Loaded.antt =====
-- What a controller that takes up a ledger may rely on: grid5000/sentence_controller_ledger.py.
use osm_polygon_wikidata_onl.Prelude.{
  ◌≡◌, refl, sym, ap, Bool, true, false, List, Option, none, some, Str, codes, str_eq, ◌==◌, get,
  put, get-put, Result, ok, err, ok_injective, runtime_error, guard, ◌>>=◌, ◌>>◌, >>=-eq-ok, ◌⊎◌,
  inl, inr, if◌then◌else◌,
}
use osm_polygon_wikidata_onl.Json.{
  Json, null, boolean, number, fraction, text, array, object, Fields, entries, items, equals_text,
}
use osm_polygon_wikidata_onl.Grid5000.Controller.Ledger.{
  Ledger, Options, has_field, validate_immutable_ledger, is_source_commit_migration_safe,
}
use osm_polygon_wikidata_onl.Grid5000.Controller.Ledger.Initialize.{
  Surroundings, StoredLedger, stamped, replace_source_commit, refresh,
  refresh_resumable_source_commit, after_refresh, load_existing_ledger, accepts_run_id, written,
  initialize,
}

-- A ledger with another source commit, of the same run and with the same batches, none of which has been
-- published or is at work.
abbrev pub IsRecommitted : Ledger → Ledger → Type 0
IsRecommitted before after =
    (is_source_commit_migration_safe before ≡ ok true)
    × (get (codes "batches") after ≡ get (codes "batches") before)
    × (get (codes "run_id") after ≡ get (codes "run_id") before)

module _ (options : Options) (around : Surroundings) (before : Ledger) where
  get-recommitted :
      (key : Str) (updates : Json)
      → (codes "updated_at" == key) ≡ false
      → (codes "source_commit_updates" == key) ≡ false
      → (codes "source_commit" == key) ≡ false
      → get key (
          stamped around (
            put
              (codes "source_commit_updates")
              updates
              (put (codes "source_commit") (text options.source_commit) before)))
        ≡ get key before
  get-recommitted key updates h k l =
      rw
        (get-put (codes "updated_at") key (text around.written) (
          put (codes "source_commit_updates") updates
            (put (codes "source_commit") (text options.source_commit) before)))
        (rw h (
          rw
            (get-put (codes "source_commit_updates") key updates
              (put (codes "source_commit") (text options.source_commit) before))
            (rw k (
              rw (get-put (codes "source_commit") key (text options.source_commit) before)
                (rw l refl)))))

  updated :
      (updates : Option (List Json)) (after : Ledger)
      → elim updates [
        | none ↦ err runtime_error
        | some list ↦ ok (
            stamped around (
              put
                (codes "source_commit_updates")
                (array (items list))
                (put (codes "source_commit") (text options.source_commit) before)))
      ]
        ≡ ok after
      → (get (codes "batches") after ≡ get (codes "batches") before)
        × (get (codes "run_id") after ≡ get (codes "run_id") before)
  updated none after h = absurd (cc h)
  updated (some list) after h =
      let same = sym (ok_injective h) in
      rw same (
        get-recommitted (codes "batches") (array (items list)) refl refl refl,
        get-recommitted (codes "run_id") (array (items list)) refl refl refl,
      )

  refresh_lem :
      (safe : Bool) (stored : Option Json) (after : Ledger)
      → is_source_commit_migration_safe before ≡ ok safe
      → refresh options around safe stored before ≡ ok after
      → (after ≡ before) ⊎ IsRecommitted before after
  unfolding replace_source_commit
  refresh_lem true (some (text commit)) after h k =
      let same = updated _ after k in inr (h, same.0, same.1)
  refresh_lem true none after h k = inl (cc k)
  refresh_lem true (some null) after h k = inl (cc k)
  refresh_lem true (some (boolean b)) after h k = inl (cc k)
  refresh_lem true (some (number n)) after h k = inl (cc k)
  refresh_lem true (some (fraction t)) after h k = inl (cc k)
  refresh_lem true (some (array values)) after h k = inl (cc k)
  refresh_lem true (some (object o)) after h k = inl (cc k)
  refresh_lem false stored after h k = inl (cc k)

  refresh_resumable_lem :
      (current : Bool) (after : Ledger)
      → (if current
          then ok before
          else (is_source_commit_migration_safe before >>= λ safe.
              refresh options around safe (get (codes "source_commit") before) before))
        ≡ ok after
      → (after ≡ before) ⊎ IsRecommitted before after
  refresh_resumable_lem true after h = inl (cc h)
  refresh_resumable_lem false after h =
      let (safe, migration, refreshed) = >>=-eq-ok (is_source_commit_migration_safe before) _ h in
      refresh_lem safe (get (codes "source_commit") before) after migration refreshed

  after_refresh_lem :
      (refreshed : Result Ledger) (after kept : Ledger)
      → after_refresh options before refreshed ≡ (ok after, kept)
      → (refreshed ≡ ok after) × (kept ≡ after) × (validate_immutable_ledger options after ≡ true)
  unfolding after_refresh
  after_refresh_lem (err e) after kept h = absurd (cc h)
  after_refresh_lem (ok refreshed) after kept h =
      let (valid, same) = guarded (validate_immutable_ledger options refreshed) refreshed (cc h) in
      (ap ok same, cc (h, same), rw (sym same) valid)
    where
      guarded :
          (test : Bool) (value : Ledger)
          → (guard test runtime_error >> ok value) ≡ ok after
          → (test ≡ true) × (value ≡ after)
      guarded true value h = (refl, ok_injective h)
      guarded false value h = absurd (cc h)

  chosen_lem :
      (accepted : Bool) (refreshed : Result Ledger) (after kept : Ledger)
      → (if accepted then after_refresh options before refreshed else (err runtime_error, before))
        ≡ (ok after, kept)
      → (accepted ≡ true) × (after_refresh options before refreshed ≡ (ok after, kept))
  chosen_lem true refreshed after kept h = (refl, h)
  chosen_lem false refreshed after kept h = absurd (cc h)

-- What a controller may rely on when it has taken up a ledger from its file.
pub record IsTaken (options : Options) (before after : Ledger) (file : StoredLedger) : Type 0 where
  pub file_agrees : file ≡ written after
  pub valid : validate_immutable_ledger options after ≡ true
  pub run_kept : accepts_run_id options.run_id (get (codes "run_id") before) ≡ true
  pub content_kept : (after ≡ before) ⊎ IsRecommitted before after

-- When initialize takes up a ledger from its file, the file agrees with the ledger in memory; each
-- immutable field is equal to what this controller was made with, the source commit among them; the run
-- is the one that was asked for, if one was; and the ledger is as it was in the file, or it has got this
-- controller's source commit, in which case every batch, none of which is changed, was planned or failed,
-- without a published commit.
pub initialize_lem :
    (options : Options) (around : Surroundings) (o : Fields) (after : Ledger) (file : StoredLedger)
    → initialize options around (some (some (object o))) ≡ (ok after, file)
    → IsTaken options (entries o) after file
unfolding initialize load_existing_ledger refresh_resumable_source_commit
initialize_lem options around o after file h =
    let before = entries o in
    let loaded = load_existing_ledger options around before in
    let refreshed = refresh_resumable_source_commit options around before in
    let (accepted, kept) =
      chosen_lem options around before (accepts_run_id options.run_id (get (codes "run_id") before))
        refreshed after loaded.1 (cc h) in
    let (returned, same, valid) =
      after_refresh_lem options around before refreshed after loaded.1 kept in
    record {
      file_agrees = cc (h, same);
      valid = valid;
      run_kept = accepted;
      content_kept =
          refresh_resumable_lem options around before
            (has_field before (codes "source_commit", equals_text options.source_commit)) after
            returned;
    }
