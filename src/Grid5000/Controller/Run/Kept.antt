-- ===== src/Grid5000/Controller/Run/Kept.antt =====
-- What a run keeps, however it ends: grid5000/sentence_controller_lifecycle.py, `run`.
use osm_polygon_wikidata_onl.Prelude.{
  ℕ, ◌+◌, ◌≤◌, arith, ◌≡◌, refl, Bool, true, false, List, [], ◌∷◌, map, All, if◌then◌else◌,
}
use osm_polygon_wikidata_onl.Grid5000.Controller.{
  timeout, interrupt, exception, Reply, replied, raised, World, Settings, Replies, Event,
  run_tree_removed, controller_run_error,
}
use osm_polygon_wikidata_onl.Grid5000.Controller.Process.{run_batch}
use osm_polygon_wikidata_onl.Grid5000.Controller.Saved.{run_batch-Saved}
use osm_polygon_wikidata_onl.Grid5000.Controller.Submissions.{
  submissions, submissions-append, may_submit, run_batch-submissions,
}
use osm_polygon_wikidata_onl.Grid5000.Controller.Run.{
  Copy, Run, RunReplies, LoopOutcome, world_of, advance, process_batches, all_published, write_run,
  finalize_run, start_cleanup, end_cleanup, rescue, close_run, run,
}

-- The ledger's file agrees with the ledger in memory.
abbrev pub Agrees : Run → Type 0
Agrees r = All (λ (c : Copy). c.saved ≡ c.batch) r.copies × (r.cleanup_saved ≡ r.cleanup_complete)

-- how many batches a run may submit
unfoldable pub submittable : List Copy → ℕ
unfolding may_submit
submittable [] = 0
submittable (c ∷ copies) = submittable copies + (if may_submit c.batch.state then 1 else 0)

abbrev AllSaved : List Copy → Type 0
AllSaved = All (λ (c : Copy). c.saved ≡ c.batch)

module _ (settings : Settings) (of_batch : ℕ → Replies) where
  advance-Saved :
      (next : List Event → LoopOutcome) (rest : List Copy) (x : Reply (Unit {0}) × World)
      → x.1.saved ≡ x.1.batch
      → AllSaved rest
      → ((events : List Event) → AllSaved (next events).1)
      → AllSaved (advance next rest x).1
  advance-Saved next rest (raised e, w) h k n = (h, k)
  advance-Saved next rest (replied tt, w) h k n = (h, n w.events)

  process_batches-Saved :
      (position : ℕ) (copies : List Copy) (events : List Event)
      → AllSaved copies
      → AllSaved (process_batches settings of_batch position copies events).1
  unfolding process_batches
  process_batches-Saved position [] events h = tt
  process_batches-Saved position (c ∷ copies) events h =
      advance-Saved _ copies _
        (run_batch-Saved settings (of_batch position) (world_of c events) h.0) h.1
        (λ later. process_batches-Saved (position + 1) copies later h.1)

  advance_at_most :
      (n b : ℕ) (next : List Event → LoopOutcome) (rest : List Copy) (x : Reply (Unit {0}) × World)
      → submissions x.1.events ≤ n + b
      → ((events : List Event)
          → submissions (next events).2 ≤ submissions events + submittable rest)
      → submissions (advance next rest x).2 ≤ n + (submittable rest + b)
  advance_at_most n b next rest (raised e, w) h k = omega (arith, h)
  advance_at_most n b next rest (replied tt, w) h k = omega (arith, h, k w.events)

  process_batches_at_most :
      (position : ℕ) (copies : List Copy) (events : List Event)
      → submissions (process_batches settings of_batch position copies events).2
        ≤ submissions events + submittable copies
  unfolding process_batches submittable
  process_batches_at_most position [] events = omega arith
  process_batches_at_most position (c ∷ copies) events =
      advance_at_most (submissions events) (if may_submit c.batch.state then 1 else 0)
        (process_batches settings of_batch (position + 1) copies) copies
        (run_batch settings (of_batch position) (world_of c events))
        (run_batch-submissions settings (of_batch position) (world_of c events))
        (λ later. process_batches_at_most (position + 1) copies later)

-- What the end of a run keeps: the agreement of the file, and the number of submissions.
abbrev Ends : ℕ → Reply (Unit {0}) × Run → Type 0
Ends n x = Agrees x.1 × (submissions x.1.events ≤ n)

module _ (n : ℕ) where
  written :
      (copies : List Copy) → AllSaved (map (λ (c : Copy). record c { saved = c.batch }) copies)
  written [] = tt
  written (c ∷ copies) = (refl, written copies)

  end_cleanup-Ends :
      (removal : Reply (Unit {0})) (r : Run) → Ends n (removal, r) → Ends n (end_cleanup removal r)
  unfolding write_run end_cleanup
  end_cleanup-Ends (replied tt) r h = ((written r.copies, refl), h.1)
  end_cleanup-Ends (raised e) r h = h

  start_cleanup-Ends :
      (policy removal : Reply (Unit {0})) (r : Run)
      → Ends n (policy, r)
      → Ends n (start_cleanup policy removal r)
  unfolding write_run start_cleanup
  start_cleanup-Ends (raised e) removal r h = h
  start_cleanup-Ends (replied tt) removal r h = end_cleanup-Ends removal _ (
    (written r.copies, refl),
    ground (arith, submissions-append r.events (run_tree_removed ∷ []), h.1),
  )

  chosen-Ends :
      (complete : Bool) (policy removal : Reply (Unit {0})) (r : Run)
      → Ends n (policy, r)
      → Ends n (if complete then (replied tt, r) else start_cleanup policy removal r)
  chosen-Ends true policy removal r h = h
  chosen-Ends false policy removal r h = start_cleanup-Ends policy removal r h

  rescue-Ends : (x : Reply (Unit {0}) × Run) → Ends n x → Ends n (rescue x)
  unfolding write_run rescue
  rescue-Ends (replied tt, r) h = h
  rescue-Ends (raised interrupt, r) h = ((written r.copies, refl), h.1)
  rescue-Ends (raised timeout, r) h = h
  rescue-Ends (raised (exception name), r) h = h

  returned-Ends :
      (complete : Bool) (x : Reply (Unit {0}) × Run) (r : Run)
      → Ends n x
      → Ends n (replied tt, r)
      → Ends n (if complete then x else (raised controller_run_error, r))
  returned-Ends true x r h k = h
  returned-Ends false x r h k = k

  close_run-Ends :
      (replies : RunReplies) (r : Run) (x : LoopOutcome)
      → AllSaved x.1
      → (r.cleanup_saved ≡ r.cleanup_complete)
      → submissions x.2 ≤ n
      → Ends n (close_run replies r x)
  unfolding close_run finalize_run
  close_run-Ends replies r (raised e, copies, events) h k l = ((h, k), l)
  close_run-Ends replies r (replied tt, copies, events) h k l =
      returned-Ends (all_published copies) _ _
        (rescue-Ends _ (
          chosen-Ends r.cleanup_complete replies.policy_checked replies.run_tree_removal _
            ((h, k), l)))
        ((h, k), l)

-- If the ledger's file agrees with the ledger when a run starts, it agrees with it when the run ends, and
-- the run has submitted no more jobs than there were planned and failed batches; whatever the outside
-- replies, also when a call raises or the keyboard interrupts.
pub run-keeps :
    (settings : Settings) (replies : RunReplies) (r : Run)
    → Agrees r
    → Agrees (run settings replies r).1
      × (submissions (run settings replies r).1.events
          ≤ submissions r.events + submittable r.copies)
unfolding run
run-keeps settings replies r h =
    close_run-Ends _ replies r _
      (process_batches-Saved settings replies.of_batch 0 r.copies r.events h.0) h.1
      (process_batches_at_most settings replies.of_batch 0 r.copies r.events)
