-- ===== src/Hf/Uploads/Resume.antt =====
-- hf/_upload_state.py: `resume_pending`, which upgrades the legacy envelopes of a directory and restores the
-- jobs in the order of their sequence numbers.
pub mod Entries
pub mod RoundTrip
use osm_polygon_wikidata_onl.Prelude.{
  ℕ, ◌+◌, Bool, true, false, ◌&&◌, not, List, [], ◌∷◌, ◌++◌, Option, none, some, if◌then◌else◌, map,
  keys, is_empty, Str, codes, str_eq, ◌==◌, Dict, get, has, put, filter, Result, Raised, ok, err,
  value_error, type_error, key_error, attribute_error, runtime_error, file_not_found, os_error,
  nat_eq, contains, sort, str_leq, leb, length, guard, is_some,
}
use osm_polygon_wikidata_onl.Json.{
  Json, null, boolean, text, number, fraction, array, object, items, listed, fields, entries,
  optional, truthy,
}
use osm_polygon_wikidata_onl.Domain.Values.{pos}
use osm_polygon_wikidata_onl.Hf.Uploads.{
  PublicationOp, add_action, publication_op, StateName, numbered, state_name_eq, name_text, Payload,
  Disk, Platform, snapshots_root, snapshot_dir_for_sequence, is_legacy_envelope, current_sequence,
  required_string,
}
use osm_polygon_wikidata_onl.Hf.Uploads.Store.{
  Store, Action, ◌>>=◌, ◌>>◌, pure, raise, lift, in_disk, unlink, write_envelope, allocate_sequence,
  is_add, Entry, hashed_entry, snapshot_file, copy_and_hash, queue_contract_version, envelope_of,
  remove_tree_inside, StoredUpload,
}
use osm_polygon_wikidata_onl.Hf.Uploads.Envelopes.{
  Job, Found, pending_envelopes, path_of, entry_of, ops_of, resume_operations,
}

abbrev or_null : Option Json → Json
or_null none = null
or_null (some value) = value

upgraded_add : Platform → Str → Str → Option Str → ℕ → Str → Entry → Action (PublicationOp × Entry)
unfolding snapshot_file copy_and_hash publication_op
upgraded_add p action path_in_repo none op_index dir entry = raise value_error
upgraded_add p action path_in_repo (some source) op_index dir entry =
    let target = snapshot_file dir op_index source in
    copy_and_hash p source target >>= λ sha.
    lift (publication_op action path_in_repo (some source) (some target)) >>= λ op.
    pure (op, hashed_entry entry target sha)

-- `_upgrade_legacy_operation`; `local` is what the entry has under `local_path`
unfoldable pub upgrade_legacy_operation :
    Platform → Entry → ℕ → Str → Action (PublicationOp × Entry)
unfolding required_string path_of upgraded_add publication_op
upgrade_legacy_operation p entry op_index dir =
    lift (required_string entry (codes "action")) >>= λ action.
    lift (required_string entry (codes "path_in_repo")) >>= λ path_in_repo.
    lift (path_of (get (codes "local_path") entry)) >>= λ local_path.
    let op_entry : Entry =
      (codes "action", text action)
      ∷ (codes "path_in_repo", text path_in_repo)
      ∷ (codes "local_path", or_null (get (codes "local_path") entry))
      ∷ [] in
    if action == add_action
    then upgraded_add p action path_in_repo local_path op_index dir op_entry
    else (if is_some local_path
        then raise value_error
        else lift (publication_op action path_in_repo none none) >>= λ op. pure (op, op_entry))

unfoldable pub upgrade_loop : Platform → Str → ℕ → List Json → Action (List Entry)
unfolding entry_of upgrade_legacy_operation
upgrade_loop p dir op_index [] = pure []
upgrade_loop p dir op_index (value ∷ values) = lift (entry_of value) >>= λ entry.
    upgrade_legacy_operation p entry op_index dir >>= λ made.
    upgrade_loop p dir (op_index + 1) values >>= λ rest. pure (made.1 ∷ rest)

message_of : Option Json → (Json → Str) → Str
message_of none str_of = []
message_of (some value) str_of = str_of value

replace_envelope : StateName → ℕ → Payload → Action Job
replace_envelope legacy_path sequence envelope s = (
  ok (record { sequence = sequence; state_path = numbered sequence; envelope = envelope }),
  in_disk (λ disk. unlink legacy_path (write_envelope (numbered sequence) envelope disk)) s,
)

-- `_upgrade_legacy_envelope`; the upgraded envelope is written before the legacy one is unlinked
unfoldable pub upgrade_legacy_envelope : Platform → StateName → Payload → Action Job
unfolding replace_envelope allocate_sequence ops_of upgrade_loop envelope_of
    snapshot_dir_for_sequence message_of
upgrade_legacy_envelope p legacy_path payload =
    allocate_sequence (p.upgrade_marked legacy_path) >>= λ sequence.
    lift (ops_of (get (codes "ops") payload)) >>= λ values.
    upgrade_loop p (snapshot_dir_for_sequence p sequence) 0 values >>= λ op_entries.
    let envelope =
      envelope_of sequence (message_of (get (codes "message") payload) p.str_of) op_entries in
    replace_envelope legacy_path sequence envelope

-- The exceptions that a failure of one job is made of.
abbrev pub recoverable : Raised → Bool
recoverable value_error = true
recoverable file_not_found = true
recoverable os_error = true
recoverable _ = false

-- The upgraded jobs, and the envelopes that could not be upgraded.
abbrev pub Upgraded : Type 0
Upgraded = List Job × List StateName

unfoldable pub remove_failed_upgrade : Platform → ℕ → Store → Store
unfolding remove_tree_inside snapshot_dir_for_sequence
remove_failed_upgrade p sequence = in_disk (λ disk.
    remove_tree_inside p (some (snapshot_dir_for_sequence p sequence))
      (unlink (numbered sequence) disk))

-- what follows one upgrade in `_upgrade_pending_legacy`
upgraded_next :
    Platform
    → (List ℕ → Action Upgraded)
    → StateName
    → List ℕ
    → Result Job × Store
    → Result Upgraded × Store
unfolding remove_failed_upgrade
upgraded_next p next name seen (err e, s) =
    if recoverable e then (next seen >>= λ rest. pure (rest.0, name ∷ rest.1)) s else (err e, s)
upgraded_next p next name seen (ok job, s) =
    if contains seen job.sequence
    then (err value_error, remove_failed_upgrade p job.sequence s)
    else (next (job.sequence ∷ seen) >>= λ rest. pure (job ∷ rest.0, rest.1)) s

unfoldable pub upgrade_pending_legacy :
    Platform → List (StateName × Payload) → List ℕ → Action Upgraded
unfolding upgrade_legacy_envelope upgraded_next
upgrade_pending_legacy p [] seen = pure ([], [])
upgrade_pending_legacy p ((name, payload) ∷ rest) seen = λ s.
    upgraded_next p (upgrade_pending_legacy p rest) name seen
      (upgrade_legacy_envelope p name payload s)

abbrev pub by_sequence : Job → Job → Bool
by_sequence a b = leb a.sequence b.sequence

-- A restored job, or the envelope that could not be restored.
unfoldable pub restored_upload :
    Platform
    → Job
    → Option Str
    → Result (List (PublicationOp × Option Json))
    → Result (Option StoredUpload)
unfolding message_of
restored_upload p job snapshot_dir (err e) = if recoverable e then ok none else err e
restored_upload p job snapshot_dir (ok made) = elim (get (codes "message") job.envelope) [
  | none ↦ err key_error
  | some message ↦ ok (
      some (record {
        ops = map (λ (m : PublicationOp × Option Json). m.0) made;
        message = p.str_of message;
        state_path = job.state_path;
        snapshot_dir = snapshot_dir;
        op_shas = map (λ (m : PublicationOp × Option Json). m.1) made;
      }))
]

unfoldable pub restored_ops :
    Platform → Str → Result (List Json) → Result (List (PublicationOp × Option Json))
unfolding resume_operations
restored_ops p dir (err e) = err e
restored_ops p dir (ok values) = resume_operations p values dir

-- `_restore_pending_job`
unfoldable pub restore_pending_job : Platform → Job → Result (Option StoredUpload)
unfolding snapshots_root snapshot_dir_for_sequence restored_upload restored_ops ops_of
restore_pending_job p job =
    let dir = snapshot_dir_for_sequence p job.sequence in
    if p.is_inside dir (snapshots_root p)
    then restored_upload p job (some dir)
        (restored_ops p dir (ops_of (get (codes "ops") job.envelope)))
    else ok none

pub record ResumeResult : Type 0 where
  pub uploads : List StoredUpload
  pub failures : List StateName
  pub discovered_count : ℕ

add_restored : StateName → Option StoredUpload → ResumeResult → ResumeResult
add_restored name none rest = record rest { failures = name ∷ rest.failures }
add_restored name (some upload) rest = record rest { uploads = upload ∷ rest.uploads }

and_restored : StateName → Option StoredUpload → Result ResumeResult → Result ResumeResult
unfolding add_restored
and_restored name restored (err e) = err e
and_restored name restored (ok rest) = ok (add_restored name restored rest)

restored_next : StateName → Result ResumeResult → Result (Option StoredUpload) → Result ResumeResult
unfolding and_restored
restored_next name rest (err e) = err e
restored_next name rest (ok restored) = and_restored name restored rest

-- the loop over the jobs
unfoldable pub restore_loop : Platform → ResumeResult → List Job → Result ResumeResult
unfolding restore_pending_job restored_next
restore_loop p start [] = ok start
restore_loop p start (job ∷ jobs) =
    restored_next job.state_path (restore_loop p start jobs) (restore_pending_job p job)

abbrev with_failures : List StateName → Result ResumeResult → Result ResumeResult
with_failures earlier (err e) = err e
with_failures earlier (ok r) = ok (record r { failures = earlier ++ r.failures })

resume_found : Platform → Found → Action ResumeResult
unfolding upgrade_pending_legacy restore_loop
resume_found p found = upgrade_pending_legacy p found.legacies found.seen_sequences >>= λ upgraded.
    let all_jobs = sort by_sequence (found.currents ++ upgraded.0) in
    lift (
      with_failures upgraded.1 (
        restore_loop p (record { uploads = []; failures = []; discovered_count = length all_jobs })
          all_jobs))

-- The failures are those of the upgrades, then those of restoring.
unfoldable pub resume_pending : Platform → Action ResumeResult
unfolding pending_envelopes resume_found
resume_pending p s = (lift (pending_envelopes s.disk) >>= resume_found p) s
