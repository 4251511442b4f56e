-- ===== src/Grid5000/Controller/Ledger/Created.antt =====
-- A ledger that a controller has made is taken up by the next one: grid5000/sentence_controller_ledger.py.
use osm_polygon_wikidata_onl.Prelude.{
  ℕ, ◌≡◌, refl, arith, true, List, Option, none, some, Str, str_beq, str_beq_iff, nat_beq,
  >>=-eq-ok, guard, ◌>>◌, runtime_error, Result, ok, err,
}
use osm_polygon_wikidata_onl.Grid5000.Batches.{SentenceBatch}
use osm_polygon_wikidata_onl.Json.{text, object, fields, equals_text, entries-fields}
use osm_polygon_wikidata_onl.Grid5000.Controller.Ledger.{
  Ledger, Options, ControllerLimits, as_payload, equals_count, equals_limits,
  immutable_ledger_fields, validate_ledger_baselines, validate_immutable_ledger,
}
use osm_polygon_wikidata_onl.Grid5000.Controller.Ledger.Initialize.{
  Surroundings, StoredLedger, new_ledger, stamped, create_ledger, load_existing_ledger, initialize,
  refresh_resumable_source_commit, written, accepts_run_id, chosen_run_id, made, is_safe_run_id,
}

same_text : (t : Str) → str_beq t t ≡ true
same_text t = (str_beq_iff t t).1 refl

same_number : (n : ℕ) → nat_beq n n ≡ true
same_number n = ground arith

equals_limits-as_payload :
    (limits : ControllerLimits) → equals_limits limits (object (fields (as_payload limits))) ≡ true
unfolding equals_limits as_payload equals_count equals_text
equals_limits-as_payload limits = rw (same_number limits.max_stems) (
    rw (same_number limits.max_input_bytes) (
      rw (same_number limits.batch_size)
        (rw (same_number limits.inference_batch_size) (rw (same_text limits.walltime) refl))))

module _ (options : Options) (around : Surroundings) (run_id : Str) (batches : List SentenceBatch)
    (hashes : Str × Str) where
  abbrev created : Ledger
  unfolding new_ledger
  created = stamped around (new_ledger options around run_id batches hashes)

  created-IsValid : validate_immutable_ledger options created ≡ true
  unfolding new_ledger validate_immutable_ledger immutable_ledger_fields equals_text
      validate_ledger_baselines
  created-IsValid = rw (same_text options.repo_id) (
      rw (same_text options.source_commit) (
        rw (same_text options.site) (
          rw (same_text options.queue) (
            rw (same_text options.gpu_model) (rw (equals_limits-as_payload options.limits) refl)))))

  refresh-created :
      (later : Surroundings) → refresh_resumable_source_commit options later created ≡ ok created
  unfolding new_ledger refresh_resumable_source_commit equals_text
  refresh-created later = rw (same_text options.source_commit) refl

  load-created :
      (later : Surroundings)
      → accepts_run_id options.run_id (some (text run_id)) ≡ true
      → load_existing_ledger options later created ≡ (ok created, created)
  unfolding new_ledger load_existing_ledger
  load-created later accepted = rw accepted (rw (refresh-created later) (rw created-IsValid refl))

accepts-chosen :
    (wanted : Option Str) (fresh : Str)
    → accepts_run_id wanted (some (text (chosen_run_id wanted fresh))) ≡ true
accepts-chosen none fresh = refl
accepts-chosen (some run_id) fresh = same_text run_id

-- What `create_ledger` returns, taken apart.
create_ledger-created :
    (options : Options) (around : Surroundings) (ledger : Ledger)
    → create_ledger options around ≡ ok ledger
    → (batches : List SentenceBatch) × (hashes : Str × Str) × (ledger
        ≡ created options around (chosen_run_id options.run_id around.new_run_id) batches hashes)
unfolding create_ledger
create_ledger-created options around ledger h =
    let safe =
      guard (is_safe_run_id (chosen_run_id options.run_id around.new_run_id)) runtime_error in
    let (batches, _, hashed) = >>=-eq-ok (safe >> around.planned) _ h in
    let (hashes, _, same) = >>=-eq-ok around.baselines _ hashed in (batches, hashes, cc same)

made-eq-ok :
    (x : Result Ledger) (ledger : Ledger) (file : StoredLedger)
    → made x ≡ (ok ledger, file)
    → (x ≡ ok ledger) × (file ≡ written ledger)
made-eq-ok (err e) ledger file h = absurd (cc h)
made-eq-ok (ok made_ledger) ledger file h = (cc h, cc h)

-- A ledger that has been written is loaded.
pub initialize-written :
    (options : Options) (around : Surroundings) (ledger : Ledger)
    → initialize options around (written ledger) ≡ (
      (load_existing_ledger options around ledger).0,
      written (load_existing_ledger options around ledger).1,
    )
unfolding initialize
initialize-written options around ledger = rw (entries-fields ledger) refl

-- When initialize makes a ledger, a later controller with the same options takes it up from the file it
-- has written: it gets the same ledger and leaves the file as it is.
pub initialize-again :
    (options : Options) (around later : Surroundings) (ledger : Ledger) (file : StoredLedger)
    → initialize options around none ≡ (ok ledger, file)
    → initialize options later file ≡ (ok ledger, file)
unfolding initialize
initialize-again options around later ledger file h =
    let (returned, same_file) = made-eq-ok (create_ledger options around) ledger file h in
    let (batches, hashes, same) = create_ledger-created options around ledger returned in
    rw same_file (
      rw same (
        rw
          (initialize-written options later (
            created options around (chosen_run_id options.run_id around.new_run_id) batches hashes))
          (rw
            (load-created options around (chosen_run_id options.run_id around.new_run_id) batches
              hashes later (accepts-chosen options.run_id around.new_run_id))
            refl)))
