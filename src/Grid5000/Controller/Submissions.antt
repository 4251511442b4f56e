-- ===== src/Grid5000/Controller/Submissions.antt =====
-- How many jobs the controller submits.
use osm_polygon_wikidata_onl.Prelude.{
  ◌+◌, ◌≤◌, arith, if◌then◌else◌, ◌≡◌, Bool, true, false, List, [], ◌∷◌, ◌++◌, ℕ,
}
use osm_polygon_wikidata_onl.Grid5000.Controller.{
  BatchState, planned, submitted, running, failed, ready_to_publish, published, cancelled,
  other_state, Batch, timeout, interrupt, exception, Reply, replied, raised, World, Settings,
  Replies, write_ledger, save, call, ◌>>=◌, ◌>>◌, job_submitted, Event,
}
use osm_polygon_wikidata_onl.Grid5000.Controller.Process.{
  submit_batch, reconcile_batch, publish_batch, publish_if_ready, process_state, process_batch,
  run_batch, after_process,
}
use osm_polygon_wikidata_onl.Grid5000.Controller.Keeping.{
  is_submission, record_job-Keeping, record_submission_failure-Keeping, reconcile_batch-Keeping,
  publish_batch-Keeping, publish_if_ready-Keeping, handle_interrupt-Keeping,
}
use osm_polygon_wikidata_onl.Grid5000.Controller.Triples.{
  Ensures, Keeping, then-Keeping, call-Keeping, throw-Keeping, Leading, then-Leading,
  before-Leading, try-Leading, traced-Leading,
}

abbrev pub submissions : List Event → ℕ
submissions [] = 0
submissions (e ∷ es) = let rest = submissions es in if is_submission e then rest + 1 else rest

pub submissions-append :
    (es fs : List Event) → submissions (es ++ fs) ≡ submissions es + submissions fs
submissions-append [] fs = omega arith
submissions-append (e ∷ es) fs = ground (arith, submissions-append es fs)

-- whether a batch in this state is submitted when it is processed
unfoldable pub may_submit : BatchState → Bool
may_submit planned = true
may_submit failed = true
may_submit _ = false

abbrev AtMost : ℕ → World → Type 0
AtMost n w = submissions w.events ≤ n

module _ (n : ℕ) where
  recorded : (f : Batch → Batch) → Keeping (AtMost n) (save f)
  unfolding save write_ledger ◌>>=◌
  recorded f = record { kept = λ w i. i }

  logged :
      (event : Event)
      → is_submission event ≡ false
      → (w : World) → AtMost n w
      → AtMost n (record w { events = w.events ++ (event ∷ []) })
  logged event h w i = ground (arith, submissions-append w.events (event ∷ []), h, i)

  written : Keeping (AtMost n) write_ledger
  unfolding write_ledger
  written = record { kept = λ w i. i }

  queued :
      (w : World)
      → AtMost n w
      → AtMost (n + 1) (record w { events = w.events ++ (job_submitted ∷ []) })
  queued w i = omega (arith, submissions-append w.events (job_submitted ∷ []), i)

  more : (w : World) → AtMost n w → AtMost (n + 1) w
  more w i = omega (arith, i)

module _ (settings : Settings) (replies : Replies) where
  reconcile_at_most : (n : ℕ) → Keeping (AtMost n) (reconcile_batch settings replies)
  reconcile_at_most n = reconcile_batch-Keeping (AtMost n) (recorded n) (logged n) settings replies

  publish_at_most : (n : ℕ) → Keeping (AtMost n) (publish_batch settings replies)
  publish_at_most n = publish_batch-Keeping (AtMost n) (recorded n) (logged n) settings replies

  publish_if_ready_at_most : (n : ℕ) → Keeping (AtMost n) (publish_if_ready settings replies)
  publish_if_ready_at_most n =
      publish_if_ready-Keeping (AtMost n) (recorded n) (logged n) settings replies

  module _ (n : ℕ) where
    before_queue : Keeping (AtMost n) (
        call replies.namespace_made
        >> call replies.tree_staged
        >> call replies.tree_uploaded
        >> call replies.policy_before)
    before_queue =
        then-Keeping (AtMost n)
          (then-Keeping (AtMost n)
            (then-Keeping (AtMost n) (call-Keeping (AtMost n) replies.namespace_made)
              (λ _. call-Keeping (AtMost n) replies.tree_staged))
            (λ _. call-Keeping (AtMost n) replies.tree_uploaded))
          (λ _. call-Keeping (AtMost n) replies.policy_before)

    -- Whatever happens to a submission, it queues at most one job.
    submit_at_most : Leading (AtMost n) (AtMost (n + 1)) (submit_batch settings replies)
    unfolding submit_batch
    submit_at_most = before-Leading (AtMost n) (AtMost (n + 1)) (more n) (recorded n _) (λ _.
        try-Leading (AtMost n) (AtMost (n + 1))
          (then-Leading (AtMost n) (AtMost (n + 1))
            (before-Leading (AtMost n) (AtMost (n + 1)) (more n) before_queue (λ _.
              then-Leading (AtMost n) (AtMost (n + 1))
                (traced-Leading (AtMost n) (AtMost (n + 1)) job_submitted replies.job_queued
                  (queued n))
                (record_job-Keeping (AtMost (n + 1)) (recorded (n + 1)) (logged (n + 1)) settings
                  replies)))
            (λ _. call-Keeping (AtMost (n + 1)) replies.policy_after))
          (λ error.
            then-Keeping (AtMost (n + 1))
              (record_submission_failure-Keeping (AtMost (n + 1)) (recorded (n + 1))
                (logged (n + 1)) settings replies error)
              (λ _. throw-Keeping (AtMost (n + 1)) _)))

    submitted_at_most : Leading (AtMost n) (AtMost (n + 1)) (
        submit_batch settings replies
        >> reconcile_batch settings replies
        >> publish_if_ready settings replies)
    submitted_at_most =
        then-Leading (AtMost n) (AtMost (n + 1))
          (then-Leading (AtMost n) (AtMost (n + 1)) submit_at_most (λ _. reconcile_at_most (n + 1)))
          (λ _. publish_if_ready_at_most (n + 1))

    resumed_at_most :
        Keeping (AtMost n) (reconcile_batch settings replies >> publish_if_ready settings replies)
    resumed_at_most =
        then-Keeping (AtMost n) (reconcile_at_most n) (λ _. publish_if_ready_at_most n)

    -- what a state allows
    abbrev allowed : BatchState → ℕ
    allowed state = if may_submit state then n + 1 else n

    process_at_most :
        (state : BatchState) (w : World)
        → AtMost n w
        → Ensures
            (λ _ v. AtMost (allowed state) v)
            (λ _ v. AtMost (allowed state) v)
            (process_state state settings replies w)
    unfolding process_state may_submit
    process_at_most published w i = i
    process_at_most ready_to_publish w i = (publish_at_most n).kept w i
    process_at_most submitted w i = resumed_at_most.kept w i
    process_at_most running w i = resumed_at_most.kept w i
    process_at_most planned w i = submitted_at_most.led w i
    process_at_most failed w i = submitted_at_most.led w i
    process_at_most cancelled w i = i
    process_at_most (other_state name) w i = i

  ended :
      (n : ℕ) (x : Reply (Unit {0}) × World)
      → Ensures (λ _ v. AtMost n v) (λ _ v. AtMost n v) x
      → AtMost n x.1
  ended n (replied a, w) h = h
  ended n (raised e, w) h = h

  after_process_at_most :
      (n : ℕ) (x : Reply (Unit {0}) × World)
      → Ensures (λ _ v. AtMost n v) (λ _ v. AtMost n v) x
      → AtMost n (after_process replies x).1
  unfolding ◌>>=◌
  after_process_at_most n (replied tt, w) h = h
  after_process_at_most n (raised timeout, w) h = h
  after_process_at_most n (raised (exception name), w) h = h
  after_process_at_most n (raised interrupt, w) h = ended n _ (
      (then-Keeping (AtMost n)
          (handle_interrupt-Keeping (AtMost n) (recorded n) (logged n) settings replies (written n))
          (λ _. throw-Keeping (AtMost n) interrupt)).kept
        w h)

-- Taking up a batch queues at most one job, and none unless the batch is planned or failed, whatever
-- every outside call replies; so a batch that is submitted or running is never submitted again.
pub run_batch-submissions :
    (settings : Settings) (replies : Replies) (w : World)
    → submissions (run_batch settings replies w).1.events
      ≤ submissions w.events + (if may_submit w.batch.state then 1 else 0)
unfolding run_batch process_batch
run_batch-submissions settings replies w =
    let n = submissions w.events in
    let h =
      after_process_at_most settings replies (allowed settings replies n w.batch.state)
        (process_state w.batch.state settings replies w)
        (process_at_most settings replies n w.batch.state w (omega arith)) in
    ground (arith, h)
