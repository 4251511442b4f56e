-- ===== src/Grid5000/Controller/Ledger/Initialize.antt =====
-- grid5000/sentence_controller_ledger.py: `initialize`, with the ledger's file as a value.
use osm_polygon_wikidata_onl.Prelude.{
  ℕ, Bool, true, false, ◌&&◌, ◌||◌, not, List, [], ◌∷◌, ◌++◌, Option, none, some, all, map,
  is_empty, if◌then◌else◌, leb, Str, codes, str_eq, nat_eq, ◌==◌, option_eq, get, put, Result, ok,
  err, runtime_error, guard, ◌>>=◌, ◌>>◌,
}
use osm_polygon_wikidata_onl.Domain.Values.{pos}
use osm_polygon_wikidata_onl.Grid5000.Batches.{SentenceBatch}
use osm_polygon_wikidata_onl.Json.{
  Json, null, number, text, array, object, items, listed, fields, entries, equals_text,
}
use osm_polygon_wikidata_onl.Grid5000.Controller.Ledger.{
  Ledger, Options, as_payload, has_field, validate_immutable_ledger,
  is_source_commit_migration_safe,
}

-- What the outside gives: the new run's identifier, the times, the plan of the batches and the hashes of
-- the protected files.
pub record Surroundings : Type 0 where
  pub new_run_id : Str
  pub created : Str
  pub updated : Str
  pub written : Str
  pub planned : Result (List SentenceBatch)
  pub baselines : Result (Str × Str)

-- `[a-z0-9_-]`
abbrev is_run_id_char : ℕ → Bool
is_run_id_char c =
    (leb b'a' c && leb c b'z') || (leb b'0' c && leb c b'9') || c == b'_' || c == b'-'

unfoldable pub is_safe_run_id : Str → Bool
is_safe_run_id value = not (is_empty value) && all is_run_id_char value

abbrev count : ℕ → Json
count n = number (pos n)

unfoldable pub new_batch_record : SentenceBatch → Json
new_batch_record batch = object (
    fields (
      (codes "index", count batch.index)
      ∷ (codes "stems", array (items (map text batch.stems)))
      ∷ (codes "input_bytes", count batch.input_bytes)
      ∷ (codes "state", text (codes "planned"))
      ∷ (codes "attempt", count 0)
      ∷ (codes "oar_job_id", null)
      ∷ (codes "remote_job_root", null)
      ∷ (codes "hf_commit", null)
      ∷ (codes "error", null)
      ∷ []))

-- `_new_ledger`, once the batches are planned and the protected files hashed
unfoldable pub new_ledger : Options → Surroundings → Str → List SentenceBatch → Str × Str → Ledger
unfolding as_payload new_batch_record
new_ledger options around run_id batches hashes =
    (codes "contract_version", text (codes "grid5000-sentence-v1"))
    ∷ (codes "run_id", text run_id)
    ∷ (codes "repo_id", text options.repo_id)
    ∷ (codes "source_commit", text options.source_commit)
    ∷ (codes "model_id", text (codes "segment-any-text/sat-3l-sm"))
    ∷ (codes "model_revision", text (codes "137da05"))
    ∷ (codes "segmenter_version", text (codes "2.2.1"))
    ∷ (codes "site", text options.site)
    ∷ (codes "queue", text options.queue)
    ∷ (codes "gpu_model", text options.gpu_model)
    ∷ (codes "baseline_readme_sha256", text hashes.0)
    ∷ (codes "baseline_map_sha256", text hashes.1)
    ∷ (codes "limits", object (fields (as_payload options.limits)))
    ∷ (codes "created_at", text around.created)
    ∷ (codes "updated_at", text around.updated)
    ∷ (codes "cleanup_state", text (codes "pending"))
    ∷ (codes "batches", array (items (map new_batch_record batches)))
    ∷ []

-- the change that `_write_ledger` makes before it writes
abbrev pub stamped : Surroundings → Ledger → Ledger
stamped around ledger = put (codes "updated_at") (text around.written) ledger

abbrev pub chosen_run_id : Option Str → Str → Str
chosen_run_id none fresh = fresh
chosen_run_id (some run_id) fresh = run_id

unfoldable pub create_ledger : Options → Surroundings → Result Ledger
unfolding is_safe_run_id new_ledger
create_ledger options around =
    let run_id = chosen_run_id options.run_id around.new_run_id in
    guard (is_safe_run_id run_id) runtime_error >> around.planned >>= λ batches.
    around.baselines >>= λ hashes.
    ok (stamped around (new_ledger options around run_id batches hashes))

-- the list of updates with one more, or none when it is no list
abbrev pub with_update : Option Json → Json → Option (List Json)
with_update none update = some (update ∷ [])
with_update (some (array updates)) update = some (listed updates ++ (update ∷ []))
with_update (some _) update = none

unfoldable pub replace_source_commit : Options → Surroundings → Str → Ledger → Result Ledger
replace_source_commit options around stored_commit ledger =
    let update = object (
      fields (
        (codes "from", text stored_commit)
        ∷ (codes "to", text options.source_commit)
        ∷ (codes "at", text around.updated)
        ∷ (codes "reason", text (codes "resumable_unpublished_run"))
        ∷ [])) in
    elim (with_update (get (codes "source_commit_updates") ledger) update) [
      | none ↦ err runtime_error
      | some updates ↦ ok (
          stamped around (
            put (codes "source_commit_updates") (array (items updates))
              (put (codes "source_commit") (text options.source_commit) ledger)))
    ]

-- what follows the test of the stored commit and of the batches
abbrev pub refresh : Options → Surroundings → Bool → Option Json → Ledger → Result Ledger
unfolding replace_source_commit
refresh options around true (some (text stored_commit)) ledger =
    replace_source_commit options around stored_commit ledger
refresh options around true _ ledger = ok ledger
refresh options around false stored ledger = ok ledger

-- `_refresh_resumable_source_commit`; a ledger that it changes is written
unfoldable pub refresh_resumable_source_commit : Options → Surroundings → Ledger → Result Ledger
unfolding is_source_commit_migration_safe refresh
refresh_resumable_source_commit options around ledger =
    if has_field ledger (codes "source_commit", equals_text options.source_commit)
    then ok ledger
    else is_source_commit_migration_safe ledger >>= λ safe.
        refresh options around safe (get (codes "source_commit") ledger) ledger

abbrev pub accepts_run_id : Option Str → Option Json → Bool
accepts_run_id none (some (text stored)) = true
accepts_run_id (some run_id) (some (text stored)) = run_id == stored
accepts_run_id wanted _ = false

-- The ledger in memory, and the file's content.
unfoldable pub after_refresh : Options → Ledger → Result Ledger → Result Ledger × Ledger
unfolding validate_immutable_ledger
after_refresh options ledger (err e) = (err e, ledger)
after_refresh options ledger (ok refreshed) =
    (guard (validate_immutable_ledger options refreshed) runtime_error >> ok refreshed, refreshed)

unfoldable pub load_existing_ledger : Options → Surroundings → Ledger → Result Ledger × Ledger
unfolding refresh_resumable_source_commit after_refresh
load_existing_ledger options around ledger =
    if accepts_run_id options.run_id (get (codes "run_id") ledger)
    then after_refresh options ledger (refresh_resumable_source_commit options around ledger)
    else (err runtime_error, ledger)

-- The ledger's file: none when there is none, and otherwise what it decodes to, if it can be decoded.
abbrev pub StoredLedger : Type 0
StoredLedger = Option (Option Json)

abbrev pub written : Ledger → StoredLedger
written ledger = some (some (object (fields ledger)))

abbrev pub made : Result Ledger → Result Ledger × StoredLedger
made (err e) = (err e, none)
made (ok ledger) = (ok ledger, written ledger)

-- `initialize`, of a controller that has no ledger in memory
unfoldable pub initialize : Options → Surroundings → StoredLedger → Result Ledger × StoredLedger
unfolding create_ledger load_existing_ledger
initialize options around none = made (create_ledger options around)
initialize options around (some (some (object o))) =
    let loaded = load_existing_ledger options around (entries o) in (loaded.0, written loaded.1)
initialize options around (some content) = (err runtime_error, some content)
