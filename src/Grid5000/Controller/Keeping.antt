-- ===== src/Grid5000/Controller/Keeping.antt =====
-- What the controller keeps while it reconciles, retrieves and publishes a batch: any predicate that the
-- recorded changes keep, and the commands other than a submission.
use osm_polygon_wikidata_onl.Prelude.{
  ◌≡◌, refl, Bool, true, false, not, List, [], ◌∷◌, ◌++◌, Option, none, some, Str, ℕ,
}
use osm_polygon_wikidata_onl.Grid5000.Controller.{
  BatchState, planned, submitted, running, failed, ready_to_publish, published, cancelled,
  other_state, Batch, Fault, timeout, interrupt, exception, Reply, replied, raised, World, Receipt,
  Settings, Replies, write_ledger, save, job_submitted, job_deleted, batch_published,
  batch_verified, tree_removed, is_active, Event,
}
use osm_polygon_wikidata_onl.Grid5000.Controller.Process.{
  submit_batch, record_job, record_submission_failure, cleanup_remote_job, cleanup_at,
  publish_ready, fail_batch, settle_batch, retrieve_batch, poll, reconcile_batch,
  publication_message, message_of_batch, publish_batch, publish_if_ready, cancel_batch,
  handle_interrupt, has_job, receipt_of,
}
use osm_polygon_wikidata_onl.Grid5000.Controller.Triples.{
  Keeping, then-Keeping, try-Keeping, call-Keeping, traced-Keeping, read-Keeping, throw-Keeping,
  return-Keeping, choice-Keeping,
}

abbrev pub is_submission : Event → Bool
is_submission job_submitted = true
is_submission _ = false

module _ (I : World → Type 0) (recorded : (f : Batch → Batch) → Keeping I (save f))
    (logged : (event : Event)
      → is_submission event ≡ false
      → (w : World) → I w
      → I (record w { events = w.events ++ (event ∷ []) }))
    (settings : Settings) (replies : Replies) where
  fail_batch-Keeping : (error : Str) → Keeping I (fail_batch error)
  unfolding fail_batch
  fail_batch-Keeping error = recorded _

  cleanup_at-Keeping :
      (cleaned : Bool) (root : Option Str) → Keeping I (cleanup_at settings replies cleaned root)
  unfolding cleanup_at
  cleanup_at-Keeping cleaned none = throw-Keeping I _
  cleanup_at-Keeping cleaned (some root) = choice-Keeping I _ (throw-Keeping I _) (
      choice-Keeping I cleaned (return-Keeping I tt) (
        then-Keeping I (traced-Keeping I tree_removed _ (logged tree_removed refl))
          (λ _. recorded _)))

  cleanup_remote_job-Keeping : Keeping I (cleanup_remote_job settings replies)
  unfolding cleanup_remote_job
  cleanup_remote_job-Keeping = record {
    kept = λ w. (cleanup_at-Keeping w.batch.remote_cleaned w.batch.remote_job_root).kept w;
  }

  settle_batch-Keeping :
      (state : Str) (exit_code : Option ℕ) (receipt : Option Receipt)
      → Keeping I (settle_batch settings replies state exit_code receipt)
  unfolding settle_batch
  settle_batch-Keeping state exit_code none =
      then-Keeping I
        (then-Keeping I (then-Keeping I (call-Keeping I _) (λ _. fail_batch-Keeping _))
          (λ _. cleanup_remote_job-Keeping))
        (λ _. throw-Keeping I _)
  settle_batch-Keeping state exit_code (some receipt) =
      choice-Keeping I _ (then-Keeping I (call-Keeping I _) (λ _. recorded _)) (
        then-Keeping I
          (then-Keeping I (then-Keeping I (call-Keeping I _) (λ _. fail_batch-Keeping _))
            (λ _. cleanup_remote_job-Keeping))
          (λ _. throw-Keeping I _))

  retrieve_batch-Keeping :
      (state : Str) (exit_code : Option ℕ)
      → Keeping I (retrieve_batch settings replies state exit_code)
  unfolding retrieve_batch
  retrieve_batch-Keeping state exit_code = then-Keeping I (call-Keeping I _) (λ _. record {
    kept = λ w.
        (settle_batch-Keeping state exit_code (receipt_of settings w.batch replies.receipt)).kept w;
  })

  poll-Keeping :
      (statuses : List (Reply (Str × Option ℕ))) → Keeping I (poll settings replies statuses)
  unfolding poll
  poll-Keeping [] = throw-Keeping I _
  poll-Keeping (raised fault ∷ statuses) = throw-Keeping I _
  poll-Keeping (replied (state, exit_code) ∷ statuses) =
      choice-Keeping I _ (retrieve_batch-Keeping state exit_code) (poll-Keeping statuses)

  pub reconcile_batch-Keeping : Keeping I (reconcile_batch settings replies)
  unfolding reconcile_batch
  reconcile_batch-Keeping = record {
    kept = λ w.
        (choice-Keeping I (has_job w.batch.oar_job_id) (poll-Keeping replies.statuses)
            (throw-Keeping I _)).kept
          w;
  }

  pub publish_batch-Keeping : Keeping I (publish_batch settings replies)
  unfolding publish_batch message_of_batch
  publish_batch-Keeping =
      then-Keeping I
        (try-Keeping I (call-Keeping I _)
          (λ error. then-Keeping I (recorded _) (λ _. throw-Keeping I _)))
        (λ _. then-Keeping I (read-Keeping I (λ w. publication_message w.batch.stems)) (λ _.
          then-Keeping I
            (try-Keeping I
              (then-Keeping I (traced-Keeping I batch_published _ (logged batch_published refl))
                (λ commit.
                  then-Keeping I (traced-Keeping I batch_verified _ (logged batch_verified refl))
                    (λ _. return-Keeping I commit)))
              (λ error. then-Keeping I (recorded _) (λ _. throw-Keeping I error)))
            (λ commit. then-Keeping I (recorded _) (λ _. cleanup_remote_job-Keeping))))

  publish_ready-Keeping : (state : BatchState) → Keeping I (publish_ready state settings replies)
  unfolding publish_ready
  publish_ready-Keeping planned = return-Keeping I tt
  publish_ready-Keeping submitted = return-Keeping I tt
  publish_ready-Keeping running = return-Keeping I tt
  publish_ready-Keeping failed = return-Keeping I tt
  publish_ready-Keeping ready_to_publish = publish_batch-Keeping
  publish_ready-Keeping published = return-Keeping I tt
  publish_ready-Keeping cancelled = return-Keeping I tt
  publish_ready-Keeping (other_state name) = return-Keeping I tt

  pub publish_if_ready-Keeping : Keeping I (publish_if_ready settings replies)
  unfolding publish_if_ready
  publish_if_ready-Keeping = record { kept = λ w. (publish_ready-Keeping w.batch.state).kept w }

  cancel_batch-Keeping : Keeping I cancel_batch
  unfolding cancel_batch
  cancel_batch-Keeping = recorded _

  pub handle_interrupt-Keeping : Keeping I write_ledger → Keeping I (handle_interrupt replies)
  unfolding handle_interrupt
  handle_interrupt-Keeping written = record {
    kept = λ w.
        (choice-Keeping I (not (is_active w.batch.state)) written (
            choice-Keeping I (has_job w.batch.oar_job_id)
              (then-Keeping I
                (try-Keeping I (traced-Keeping I job_deleted _ (logged job_deleted refl))
                  (λ error. return-Keeping I tt))
                (λ _. cancel_batch-Keeping))
              cancel_batch-Keeping)).kept
          w;
  }

  pub record_job-Keeping : (job : Option Str) → Keeping I (record_job job)
  unfolding record_job
  record_job-Keeping none = throw-Keeping I _
  record_job-Keeping (some job) = recorded _

  pub record_submission_failure-Keeping : (e : Fault) → Keeping I (record_submission_failure e)
  unfolding record_submission_failure
  record_submission_failure-Keeping timeout = return-Keeping I tt
  record_submission_failure-Keeping interrupt = recorded _
  record_submission_failure-Keeping (exception name) = recorded _

  -- The submission, where the predicate survives the command that queues the job.
  pub submit_batch-Keeping :
      ((w : World) → I w → I (record w { events = w.events ++ (job_submitted ∷ []) }))
      → Keeping I (submit_batch settings replies)
  unfolding submit_batch
  submit_batch-Keeping queued = then-Keeping I (recorded _) (λ _.
      try-Keeping I
        (then-Keeping I
          (then-Keeping I
            (then-Keeping I
              (then-Keeping I
                (then-Keeping I (call-Keeping I replies.namespace_made)
                  (λ _. call-Keeping I replies.tree_staged))
                (λ _. call-Keeping I replies.tree_uploaded))
              (λ _. call-Keeping I replies.policy_before))
            (λ _.
              then-Keeping I (traced-Keeping I job_submitted replies.job_queued queued)
                record_job-Keeping))
          (λ _. call-Keeping I replies.policy_after))
        (λ error.
          then-Keeping I (record_submission_failure-Keeping error) (λ _. throw-Keeping I _)))
