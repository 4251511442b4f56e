-- ===== src/Grid5000/Controller/Ledger.antt =====
-- grid5000/sentence_controller_ledger.py, with the checks of sentence_controller_policy.py: how a run's
-- ledger is made, and how a later controller takes it up.
pub mod Initialize
pub mod Created
pub mod Loaded
use osm_polygon_wikidata_onl.Prelude.{
  ℕ, Bool, true, false, ◌&&◌, ◌||◌, not, List, [], ◌∷◌, ◌++◌, Option, none, some, all, any, map,
  length, is_empty, if◌then◌else◌, leb, nat_beq, Str, codes, str_eq, ◌==◌, option_eq, Dict, get,
  put, Result, ok, err, runtime_error, type_error, guard, ◌>>=◌, ◌>>◌,
}
use osm_polygon_wikidata_onl.Domain.Values.{ℤ, pos, negsuc, show_int}
use osm_polygon_wikidata_onl.Grid5000.Batches.{SentenceBatch}
use osm_polygon_wikidata_onl.Json.{
  Json, null, boolean, number, fraction, text, array, object, Items, no_items, item, Fields, items,
  listed, fields, entries, equals_text, has_value,
}

abbrev pub Ledger : Type 0
Ledger = Dict Str Json

pub record ControllerLimits : Type 0 where
  pub max_stems : ℕ
  pub max_input_bytes : ℕ
  pub batch_size : ℕ
  pub inference_batch_size : ℕ
  pub walltime : Str

-- What a controller is made with. A ControllerRunError is a runtime error.
pub record Options : Type 0 where
  pub run_id : Option Str
  pub repo_id : Str
  pub source_commit : Str
  pub site : Str
  pub queue : Str
  pub gpu_model : Str
  pub limits : ControllerLimits

abbrev count : ℕ → Json
count n = number (pos n)

unfoldable pub as_payload : ControllerLimits → Ledger
as_payload limits =
    (codes "max_stems", count limits.max_stems)
    ∷ (codes "max_input_bytes", count limits.max_input_bytes)
    ∷ (codes "batch_size", count limits.batch_size)
    ∷ (codes "inference_batch_size", count limits.inference_batch_size)
    ∷ (codes "walltime", text limits.walltime)
    ∷ []

-- `value == n` for an integer: True is 1, False is 0, and a whole number below 10 ** 16 is printed with
-- ".0"
unfoldable pub equals_count : ℕ → Json → Bool
unfolding show_int
equals_count n (number (pos m)) = nat_beq m n
equals_count n (boolean b) = nat_beq (if b then 1 else 0) n
equals_count n (fraction t) =
    t == show_int (pos n) ++ codes ".0" || (nat_beq n 0 && t == codes "-0.0")
equals_count n _ = false

-- `value == limits.as_payload()`: the five keys and no other, with equal values
unfoldable pub equals_limits : ControllerLimits → Json → Bool
unfolding equals_count equals_text
equals_limits limits (object o) =
    nat_beq (length (entries o)) 5
    && has_value (equals_count limits.max_stems) (codes "max_stems") o
    && has_value (equals_count limits.max_input_bytes) (codes "max_input_bytes") o
    && has_value (equals_count limits.batch_size) (codes "batch_size") o
    && has_value (equals_count limits.inference_batch_size) (codes "inference_batch_size") o
    && has_value (equals_text limits.walltime) (codes "walltime") o
equals_limits limits _ = false

-- whether `ledger.get(key)` passes a test that None does not pass
abbrev pub has_field : Ledger → Str × (Json → Bool) → Bool
has_field ledger (key, test) = elim (get key ledger) [ none ↦ false | some value ↦ test value ]

-- Each field with the test whether a value is equal to it.
unfoldable pub immutable_ledger_fields : Options → List (Str × (Json → Bool))
unfolding equals_limits equals_text
immutable_ledger_fields options =
    (codes "contract_version", equals_text (codes "grid5000-sentence-v1"))
    ∷ (codes "repo_id", equals_text options.repo_id)
    ∷ (codes "source_commit", equals_text options.source_commit)
    ∷ (codes "model_id", equals_text (codes "segment-any-text/sat-3l-sm"))
    ∷ (codes "model_revision", equals_text (codes "137da05"))
    ∷ (codes "segmenter_version", equals_text (codes "2.2.1"))
    ∷ (codes "site", equals_text options.site)
    ∷ (codes "queue", equals_text options.queue)
    ∷ (codes "gpu_model", equals_text options.gpu_model)
    ∷ (codes "limits", equals_limits options.limits)
    ∷ []

abbrev pub is_text : Json → Bool
is_text (text t) = true
is_text _ = false

abbrev pub is_array : Json → Bool
is_array (array values) = true
is_array _ = false

unfoldable pub validate_ledger_baselines : Ledger → Bool
validate_ledger_baselines ledger =
    has_field ledger (codes "baseline_readme_sha256", is_text)
    && has_field ledger (codes "baseline_map_sha256", is_text)
    && has_field ledger (codes "batches", is_array)

unfoldable pub validate_immutable_ledger : Options → Ledger → Bool
unfolding immutable_ledger_fields validate_ledger_baselines
validate_immutable_ledger options ledger =
    all (has_field ledger) (immutable_ledger_fields options) && validate_ledger_baselines ledger

-- `value in (None, "")`
abbrev pub is_blank : Option Json → Bool
is_blank none = true
is_blank (some null) = true
is_blank (some (text t)) = is_empty t
is_blank (some _) = false

-- `value in frozenset(names)`: a list and a dictionary cannot be hashed
unfoldable pub in_set : List Str → Option Json → Result Bool
unfolding equals_text
in_set names none = ok false
in_set names (some (array values)) = err type_error
in_set names (some (object o)) = err type_error
in_set names (some value) = ok (any (λ (name : Str). equals_text name value) names)

abbrev retryable_artifact_failures : List Str
retryable_artifact_failures = codes "missing_receipt" ∷ codes "invalid_receipt" ∷ []

unfoldable pub source_commit_job_is_safe : Ledger → Option Json → Result Bool
unfolding in_set
source_commit_job_is_safe batch (some (text state)) =
    if state == codes "planned"
    then ok (is_blank (get (codes "oar_job_id") batch))
    else if state == codes "failed"
    then if is_blank (get (codes "oar_job_id") batch)
      then ok true
      else in_set retryable_artifact_failures (get (codes "error") batch)
    else ok true
source_commit_job_is_safe batch _ = ok true

-- `a and b`, where both may raise
abbrev pub both : Result Bool → Result Bool → Result Bool
both (err e) second = err e
both (ok false) second = ok false
both (ok true) second = second

unfoldable pub source_commit_batch_is_safe : Json → Result Bool
unfolding in_set source_commit_job_is_safe
source_commit_batch_is_safe (object o) =
    let batch = entries o in
    both (in_set (codes "planned" ∷ codes "failed" ∷ []) (get (codes "state") batch)) (
      both (source_commit_job_is_safe batch (get (codes "state") batch))
        (ok (is_blank (get (codes "hf_commit") batch))))
source_commit_batch_is_safe _ = ok false

abbrev pub all_safe : List Json → Result Bool
all_safe [] = ok true
all_safe (batch ∷ batches) = both (source_commit_batch_is_safe batch) (all_safe batches)

abbrev batches_are_safe : Option Json → Result Bool
batches_are_safe (some (array no_items)) = ok false
batches_are_safe (some (array batches)) = all_safe (listed batches)
batches_are_safe _ = ok false

unfoldable pub is_source_commit_migration_safe : Ledger → Result Bool
unfolding source_commit_batch_is_safe
is_source_commit_migration_safe ledger = batches_are_safe (get (codes "batches") ledger)
