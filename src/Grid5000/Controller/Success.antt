-- ===== src/Grid5000/Controller/Success.antt =====
-- A batch whose every outside call succeeds is published: grid5000/sentence_controller_batches.py.
use osm_polygon_wikidata_onl.Prelude.{
  ℕ, ◌+◌, ◌≡◌, refl, Bool, true, false, not, List, [], ◌∷◌, ◌++◌, map, all, Option, none, some, Str,
  codes, str_eq, nat_eq, ◌&&◌, ==_refl, is_empty,
}
use osm_polygon_wikidata_onl.Domain.Chars.{starts_with}
use osm_polygon_wikidata_onl.Grid5000.Controller.{
  BatchState, planned, submitted, failed, running, cancelled, other_state, Event, ready_to_publish,
  published, Batch, Reply, replied, World, Receipt, Settings, Replies, job_submitted,
  batch_published, batch_verified, tree_removed, ◌>>=◌, try, save, write_ledger, is_terminal,
  remote_batch_succeeded, remote_job_root,
}
use osm_polygon_wikidata_onl.Grid5000.Controller.Process.{
  begin_attempt, record_job, submit_batch, cleanup_at, cleanup_remote_job, validate_receipt,
  receipt_of, settle_batch, retrieve_batch, poll, has_job, reconcile_batch, publication_message,
  message_of_batch, publish_batch, publish_ready, publish_if_ready, process_state, process_batch,
  run_batch,
}
use osm_polygon_wikidata_onl.Grid5000.Controller.Submissions.{may_submit}

-- The batch once its job is queued.
unfoldable pub queued_batch : Settings → Str → Batch → Batch
unfolding begin_attempt
queued_batch settings job_id batch = record (begin_attempt settings batch) {
  oar_job_id = some job_id;
  state = running;
}

-- Every call succeeds: the job is queued, the polling sees it wait or run and then end, and the receipt
-- is that of the job and reports a success.
pub record Succeeds (settings : Settings) (replies : Replies) (batch : Batch) : Type 0 where
  pub namespace_made : replies.namespace_made ≡ replied tt
  pub tree_staged : replies.tree_staged ≡ replied tt
  pub tree_uploaded : replies.tree_uploaded ≡ replied tt
  pub policy_before : replies.policy_before ≡ replied tt
  pub job_id : Str
  pub job_queued : replies.job_queued ≡ replied (some job_id)
  pub job_known : is_empty job_id ≡ false
  pub policy_after : replies.policy_after ≡ replied tt
  pub waiting : List (Str × Option ℕ)
  pub still_waiting : all (λ (s : Str × Option ℕ). not (is_terminal s.0)) waiting ≡ true
  pub state : Str
  pub exit_code : Option ℕ
  pub later : List (Reply (Str × Option ℕ))
  pub polled : replies.statuses ≡ map replied waiting ++ (replied (state, exit_code) ∷ later)
  pub ended : is_terminal state ≡ true
  pub downloaded : replies.downloaded ≡ replied tt
  pub receipt : Receipt
  pub receipt_read : replies.receipt ≡ some receipt
  pub receipt_valid : validate_receipt settings (queued_batch settings job_id batch) receipt ≡ true
  pub succeeded : remote_batch_succeeded state exit_code receipt ≡ true
  pub success_imported : replies.success_imported ≡ replied tt
  pub baseline_kept : replies.baseline_kept ≡ replied tt
  pub some_stems : is_empty batch.stems ≡ false
  pub commit : Str
  pub publication : replies.publication ≡ replied commit
  pub verification : replies.verification ≡ replied tt
  pub tree_removal : replies.tree_removal ≡ replied tt

starts_with-append :
    (root prefix rest : Str)
    → starts_with prefix rest ≡ true
    → starts_with (root ++ prefix) (root ++ rest) ≡ true
unfolding starts_with
starts_with-append [] prefix rest h = h
starts_with-append (c ∷ root) prefix rest h = rw (==_refl c) (starts_with-append root prefix rest h)

-- The job's directory lies in the run's.
remote_job_root_within :
    (root : Str) (index attempt : ℕ)
    → starts_with (root ++ codes "/jobs/") (remote_job_root root index attempt) ≡ true
unfolding remote_job_root starts_with
remote_job_root_within root index attempt = starts_with-append root (codes "/jobs/") _ refl

neither : (a b : Bool) → (not a && b) ≡ true → (a ≡ false) × (b ≡ true)
neither false true h = (refl, refl)
neither false false h = absurd (cc h)
neither true b h = absurd (cc h)

some_message :
    (stems : List Str)
    → is_empty stems ≡ false
    → (message : Str) × (publication_message stems ≡ replied message)
unfolding publication_message
some_message [] h = absurd (cc h)
some_message (stem ∷ []) h = (_, refl)
some_message (first ∷ next ∷ stems) h = (_, refl)

module _ (settings : Settings) (replies : Replies) (batch : Batch)
    (s : Succeeds settings replies batch) where
  poll_lem :
      (waiting : List (Str × Option ℕ))
      → all (λ (x : Str × Option ℕ). not (is_terminal x.0)) waiting ≡ true
      → poll settings replies (map replied waiting ++ (replied (s.state, s.exit_code) ∷ s.later))
        ≡ retrieve_batch settings replies s.state s.exit_code
  unfolding poll
  poll_lem [] h = rw s.ended refl
  poll_lem ((state, exit_code) ∷ waiting) h =
      let both = neither (is_terminal state) _ h in rw both.0 (poll_lem waiting both.1)

  module _ (saved : Batch) (events : List Event) where
    abbrev before : World
    before = record { batch = batch; saved = saved; events = events }

    -- once the job is queued
    abbrev submitted_world : World
    submitted_world = record {
      batch = queued_batch settings s.job_id batch;
      saved = queued_batch settings s.job_id batch;
      events = events ++ (job_submitted ∷ []);
    }

    abbrev ready_batch : Batch
    ready_batch = record (queued_batch settings s.job_id batch) { state = ready_to_publish }

    abbrev ready_world : World
    ready_world = record submitted_world { batch = ready_batch; saved = ready_batch }

    abbrev done_batch : Batch
    done_batch = record ready_batch {
      state = published;
      hf_commit = some s.commit;
      error = none;
      remote_cleaned = true;
    }

    abbrev done_world : World
    done_world = record {
      batch = done_batch;
      saved = done_batch;
      events =
          ((events ++ (job_submitted ∷ [])) ++ (batch_published ∷ []))
          ++ (batch_verified ∷ [])
          ++ (tree_removed ∷ []);
    }

    submit_batch-returns : submit_batch settings replies before ≡ (replied tt, submitted_world)
    unfolding submit_batch try ◌>>=◌ save write_ledger record_job begin_attempt queued_batch
    submit_batch-returns = rw s.namespace_made (
        rw s.tree_staged
          (rw s.tree_uploaded (rw s.policy_before (rw s.job_queued (rw s.policy_after refl)))))

    retrieve_batch-returns :
        retrieve_batch settings replies s.state s.exit_code submitted_world
        ≡ (replied tt, ready_world)
    unfolding retrieve_batch settle_batch receipt_of ◌>>=◌ save write_ledger begin_attempt
        queued_batch
    retrieve_batch-returns =
        rw s.downloaded
          (rw s.receipt_read (rw s.receipt_valid (rw s.succeeded (rw s.success_imported refl))))

    reconcile_batch-returns :
        reconcile_batch settings replies submitted_world ≡ (replied tt, ready_world)
    unfolding reconcile_batch has_job begin_attempt queued_batch
    reconcile_batch-returns =
        rw s.job_known
          (rw s.polled (rw (poll_lem s.waiting s.still_waiting) retrieve_batch-returns))

    said_message : (message : Str) × (publication_message batch.stems ≡ replied message)
    said_message = some_message batch.stems s.some_stems

    publish_batch-returns : publish_batch settings replies ready_world ≡ (replied tt, done_world)
    unfolding publish_batch message_of_batch try ◌>>=◌ save write_ledger cleanup_remote_job
        cleanup_at begin_attempt queued_batch
    publish_batch-returns = rw s.baseline_kept (
        rw said_message.1 (
          rw s.publication (
            rw s.verification (
              rw (remote_job_root_within settings.remote_run_root batch.index (batch.attempt + 1))
                (rw s.tree_removal refl)))))

    -- A batch that is planned or failed is published.
    process_state-returns :
        (state : BatchState)
        → may_submit state ≡ true
        → process_state state settings replies before ≡ (replied tt, done_world)
    unfolding process_state may_submit ◌>>=◌ publish_if_ready publish_ready begin_attempt
        queued_batch
    process_state-returns planned h =
        rw submit_batch-returns (rw reconcile_batch-returns publish_batch-returns)
    process_state-returns failed h =
        rw submit_batch-returns (rw reconcile_batch-returns publish_batch-returns)
    process_state-returns submitted h = absurd (cc h)
    process_state-returns running h = absurd (cc h)
    process_state-returns ready_to_publish h = absurd (cc h)
    process_state-returns published h = absurd (cc h)
    process_state-returns cancelled h = absurd (cc h)
    process_state-returns (other_state name) h = absurd (cc h)

    -- and the handler of interrupts is not entered
    pub run_batch-returns :
        may_submit batch.state ≡ true → run_batch settings replies before ≡ (replied tt, done_world)
    unfolding run_batch process_batch
    run_batch-returns h = rw (process_state-returns batch.state h) refl
