-- ===== src/Grid5000/Controller/Process.antt =====
-- grid5000/sentence_controller_batches.py, _import.py and _lifecycle.py: one batch, from its submission
-- to its publication.
use osm_polygon_wikidata_onl.Prelude.{
  ℕ, ◌+◌, Bool, true, false, ◌&&◌, not, List, [], ◌∷◌, ◌++◌, Option, none, some, if◌then◌else◌, Str,
  codes, str_eq, ◌==◌, option_eq, nat_eq, strs_eq, is_empty, length,
}
use osm_polygon_wikidata_onl.Grid5000.Controller.{
  BatchState, planned, submitted, running, failed, ready_to_publish, published, cancelled,
  other_state, Batch, Fault, timeout, interrupt, exception, Reply, replied, raised, job_submitted,
  job_deleted, batch_published, batch_verified, tree_removed, World, Receipt, Settings, Replies,
  Action, ◌>>=◌, ◌>>◌, done, throw, call, traced, try, write_ledger, save, is_active,
  controller_run_error, class_name, remote_job_root, is_terminal, remote_batch_succeeded,
}
use osm_polygon_wikidata_onl.Domain.Chars.{starts_with}
use osm_polygon_wikidata_onl.Domain.Values.{pos, show_int}

-- The batch as `_submit_batch` first records it.
unfoldable pub begin_attempt : Settings → Batch → Batch
unfolding remote_job_root
begin_attempt settings batch = record batch {
  attempt = batch.attempt + 1;
  state = submitted;
  oar_job_id = none;
  remote_job_root = some (remote_job_root settings.remote_run_root batch.index (batch.attempt + 1));
  remote_cleaned = false;
  error = none;
}

unfoldable pub record_job : Option Str → Action (Unit {0})
unfolding save
record_job none = throw controller_run_error
record_job (some job_id) =
    save (λ batch. record batch { oar_job_id = some job_id; state = running })

unfoldable pub record_submission_failure : Fault → Action (Unit {0})
unfolding save class_name
record_submission_failure timeout = done
record_submission_failure error =
    save (λ batch. record batch { state = failed; error = some (class_name error) })

unfoldable pub submit_batch : Settings → Replies → Action (Unit {0})
unfolding save begin_attempt record_job record_submission_failure
submit_batch settings replies =
    save (begin_attempt settings)
    >> try
        (call replies.namespace_made
          >> call replies.tree_staged
          >> call replies.tree_uploaded
          >> call replies.policy_before
          >> (traced job_submitted replies.job_queued >>= record_job)
          >> call replies.policy_after)
        (λ error. record_submission_failure error >> throw controller_run_error)

-- `_cleanup_remote_job`, of the batch's `remote_cleaned` and `remote_job_root`
unfoldable pub cleanup_at : Settings → Replies → Bool → Option Str → Action (Unit {0})
unfolding save starts_with
cleanup_at settings replies cleaned none = throw controller_run_error
cleanup_at settings replies cleaned (some root) =
    if not (starts_with (settings.remote_run_root ++ codes "/jobs/") root)
    then throw controller_run_error
    else if cleaned
    then done
    else traced tree_removed replies.tree_removal
      >> save (λ batch. record batch { remote_cleaned = true })

unfoldable pub cleanup_remote_job : Settings → Replies → Action (Unit {0})
unfolding cleanup_at
cleanup_remote_job settings replies w =
    cleanup_at settings replies w.batch.remote_cleaned w.batch.remote_job_root w

-- `_validate_receipt`; the texts are compared, `str(batch["oar_job_id"])` among them
unfoldable pub validate_receipt : Settings → Batch → Receipt → Bool
validate_receipt settings batch receipt =
    receipt.job_id == batch.oar_job_id
    && receipt.source_commit == some settings.source_commit
    && receipt.model_id == some settings.model_id
    && receipt.model_revision == some settings.model_revision
    && receipt.stems == some batch.stems

unfoldable pub receipt_of : Settings → Batch → Option Receipt → Option Receipt
unfolding validate_receipt
receipt_of settings batch none = none
receipt_of settings batch (some receipt) =
    if validate_receipt settings batch receipt then some receipt else none

unfoldable pub fail_batch : Str → Action (Unit {0})
unfolding save
fail_batch error = save (λ batch. record batch { state = failed; error = some error })

unfoldable pub or_default : Option Str → Str → Str
or_default none default = default
or_default (some text) default = if is_empty text then default else text

-- what `_retrieve_batch` does with a receipt, once `_read_valid_receipt` has judged it
unfoldable pub settle_batch :
    Settings → Replies → Str → Option ℕ → Option Receipt → Action (Unit {0})
unfolding save cleanup_remote_job fail_batch remote_batch_succeeded or_default
settle_batch settings replies state exit_code none =
    call replies.partial_imported
    >> fail_batch
        (if replies.receipt_exists then codes "invalid_receipt" else codes "missing_receipt")
    >> cleanup_remote_job settings replies
    >> throw controller_run_error
settle_batch settings replies state exit_code (some receipt) =
    if remote_batch_succeeded state exit_code receipt
    then call replies.success_imported >> save (λ batch. record batch { state = ready_to_publish })
    else call replies.partial_imported
      >> fail_batch (or_default receipt.error_type (codes "remote_job_failed"))
      >> cleanup_remote_job settings replies
      >> throw controller_run_error

unfoldable pub retrieve_batch : Settings → Replies → Str → Option ℕ → Action (Unit {0})
unfolding settle_batch receipt_of
retrieve_batch settings replies state exit_code = call replies.downloaded >> λ w.
    settle_batch settings replies state exit_code (receipt_of settings w.batch replies.receipt) w

-- The polling loop. The answers are all that the world gives before it interrupts the controller.
unfoldable pub poll : Settings → Replies → List (Reply (Str × Option ℕ)) → Action (Unit {0})
unfolding retrieve_batch is_terminal
poll settings replies [] = throw interrupt
poll settings replies (raised fault ∷ statuses) = throw fault
poll settings replies (replied (state, exit_code) ∷ statuses) =
    let again = poll settings replies statuses in
    if is_terminal state then retrieve_batch settings replies state exit_code else again

-- whether a job's identifier is recorded
unfoldable pub has_job : Option Str → Bool
has_job none = false
has_job (some job_id) = not (is_empty job_id)

unfoldable pub reconcile_batch : Settings → Replies → Action (Unit {0})
unfolding poll has_job
reconcile_batch settings replies w =
    (if has_job w.batch.oar_job_id
        then poll settings replies replies.statuses
        else throw controller_run_error)
      w

abbrev last_stem : Str → List Str → Str
last_stem stem [] = stem
last_stem stem (next ∷ stems) = last_stem next stems

-- `publication_message`; of no stems it raises
unfoldable pub publication_message : List Str → Reply Str
unfolding show_int
publication_message [] = raised (exception (codes "IndexError"))
publication_message (stem ∷ []) = replied (codes "Add Grid5000 sentence split " ++ stem)
publication_message (first ∷ next ∷ stems) = replied (
    codes "Add Grid5000 sentence splits "
    ++ (first
        ++ (codes " through "
            ++ (last_stem next stems
                ++ (codes " (" ++ (show_int (pos (length stems + 2)) ++ codes " regions)"))))))

-- the action that computes the message
unfoldable pub message_of_batch : Action Str
unfolding publication_message
message_of_batch w = (publication_message w.batch.stems, w)

unfoldable pub publish_batch : Settings → Replies → Action (Unit {0})
unfolding save cleanup_remote_job class_name message_of_batch
publish_batch settings replies =
    try (call replies.baseline_kept) (λ error.
      save (λ batch. record batch { error = some (class_name error) })
      >> throw controller_run_error)
    >> (message_of_batch >>= λ message.
        try
          (traced batch_published replies.publication >>= λ commit.
            traced batch_verified replies.verification >> λ w. (replied commit, w))
          (λ error.
            save (λ batch. record batch {
              state = ready_to_publish;
              error = some (codes "publisher_failure");
            })
            >> throw error)
        >>= λ commit.
            save
              (λ batch. record batch { state = published; hf_commit = some commit; error = none })
            >> cleanup_remote_job settings replies)

-- `_publish_if_ready`, of the batch's state
unfoldable pub publish_ready : BatchState → Settings → Replies → Action (Unit {0})
unfolding publish_batch
publish_ready ready_to_publish settings replies = publish_batch settings replies
publish_ready _ settings replies = done

unfoldable pub publish_if_ready : Settings → Replies → Action (Unit {0})
unfolding publish_ready
publish_if_ready settings replies w = publish_ready w.batch.state settings replies w

unfoldable pub process_state : BatchState → Settings → Replies → Action (Unit {0})
unfolding publish_batch submit_batch reconcile_batch publish_if_ready
process_state published settings replies = done
process_state ready_to_publish settings replies = publish_batch settings replies
process_state submitted settings replies =
    reconcile_batch settings replies >> publish_if_ready settings replies
process_state running settings replies =
    reconcile_batch settings replies >> publish_if_ready settings replies
process_state planned settings replies =
    submit_batch settings replies
    >> reconcile_batch settings replies
    >> publish_if_ready settings replies
process_state failed settings replies =
    submit_batch settings replies
    >> reconcile_batch settings replies
    >> publish_if_ready settings replies
process_state cancelled settings replies = throw controller_run_error
process_state (other_state name) settings replies = throw controller_run_error

unfoldable pub process_batch : Settings → Replies → Action (Unit {0})
unfolding process_state
process_batch settings replies w = process_state w.batch.state settings replies w

-- `_handle_interrupt`; what deleting the job raises is suppressed, except an interrupt
unfoldable pub cancel_batch : Action (Unit {0})
unfolding save
cancel_batch =
    save
      (λ batch. record batch { state = cancelled; error = some (codes "cancelled_by_interrupt") })

unfoldable pub handle_interrupt : Replies → Action (Unit {0})
unfolding write_ledger is_active has_job cancel_batch
handle_interrupt replies w =
    (if not (is_active w.batch.state)
        then write_ledger
        else if has_job w.batch.oar_job_id
        then try (traced job_deleted replies.job_deletion) (λ error. done) >> cancel_batch
        else cancel_batch)
      w

abbrev pub after_process : Replies → Reply (Unit {0}) × World → Reply (Unit {0}) × World
after_process replies (raised interrupt, w) = (handle_interrupt replies >> throw interrupt) w
after_process replies (replied done_with, w) = (replied done_with, w)
after_process replies (raised timeout, w) = (raised timeout, w)
after_process replies (raised (exception name), w) = (raised (exception name), w)

-- one batch under `run`'s `except KeyboardInterrupt`
unfoldable pub run_batch : Settings → Replies → Action (Unit {0})
unfolding process_batch handle_interrupt
run_batch settings replies w = after_process replies (process_batch settings replies w)
