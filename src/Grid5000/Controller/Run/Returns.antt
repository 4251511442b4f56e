-- ===== src/Grid5000/Controller/Run/Returns.antt =====
-- When a run returns: grid5000/sentence_controller_lifecycle.py, `run`.
use osm_polygon_wikidata_onl.Prelude.{
  ℕ, ◌+◌, ◌≡◌, refl, Bool, true, false, List, [], ◌∷◌, if◌then◌else◌,
}
use mathlib.Core.Path.{subst}
use osm_polygon_wikidata_onl.Grid5000.Controller.{Batch, replied, World, Settings, Replies, Event}
use osm_polygon_wikidata_onl.Grid5000.Controller.Process.{run_batch}
use osm_polygon_wikidata_onl.Grid5000.Controller.Submissions.{may_submit}
use osm_polygon_wikidata_onl.Grid5000.Controller.Success.{Succeeds, run_batch-returns}
use osm_polygon_wikidata_onl.Grid5000.Controller.Run.{
  Copy, Run, RunReplies, world_of, copy_of, process_batches, is_published, finalize_run,
  start_cleanup, end_cleanup, rescue, close_run, run,
}
use osm_polygon_wikidata_onl.Grid5000.Controller.Run.Complete.{
  IsFinished, Returns, AllPublished, run_batch-published, process_batches-Returns, run-IsFinished,
}

-- A batch that is published already, or that is planned or failed and whose every call succeeds.
pub data Goes (settings : Settings) (replies : Replies) (batch : Batch) : Type 0 where
  passed : is_published batch.state ≡ true → Goes settings replies batch
  processed :
      may_submit batch.state ≡ true → Succeeds settings replies batch → Goes settings replies batch

abbrev pub AllGo : Settings → (ℕ → Replies) → ℕ → List Copy → Type 0
AllGo settings of_batch position [] = Unit {0}
AllGo settings of_batch position (c ∷ copies) =
    Goes settings (of_batch position) c.batch × AllGo settings of_batch (position + 1) copies

module _ (settings : Settings) where
  run_batch-Goes :
      (replies : Replies) (c : Copy) (events : List Event)
      → Goes settings replies c.batch
      → (v : World) × (run_batch settings replies (world_of c events) ≡ (replied tt, v))
  run_batch-Goes replies c events (passed h) =
      (_, run_batch-published settings replies c.batch.state (world_of c events) refl h)
  run_batch-Goes replies c events (processed h s) =
      (_, run_batch-returns settings replies c.batch s c.saved events h)

  process_batches-Goes :
      (of_batch : ℕ → Replies) (position : ℕ) (copies : List Copy) (events : List Event)
      → AllGo settings of_batch position copies
      → (left : List Copy) × (later : List Event) × (process_batches settings of_batch position
            copies events
          ≡ (replied tt, left, later))
  unfolding process_batches
  process_batches-Goes of_batch position [] events h = ([], events, refl)
  process_batches-Goes of_batch position (c ∷ copies) events h =
      let (v, returned) = run_batch-Goes (of_batch position) c events h.0 in
      let (left, later, rest) = process_batches-Goes of_batch (position + 1) copies v.events h.1 in
      (copy_of v ∷ left, later, rw returned (rw rest refl))

-- Where the calls of the cleanup succeed, the end of a run returns.
finalized :
    (complete : Bool) (r : Run)
    → (finished : Run) × (rescue
          (if complete then (replied tt, r) else start_cleanup (replied tt) (replied tt) r)
        ≡ (replied tt, finished))
unfolding rescue start_cleanup end_cleanup
finalized true r = (_, refl)
finalized false r = (_, refl)

module _ (settings : Settings) (replies : RunReplies) (r : Run)
    (h : AllGo settings replies.of_batch 0 r.copies) (policy : replies.policy_checked ≡ replied tt)
    (removal : replies.run_tree_removal ≡ replied tt) where
  reached : (finished : Run) × (run settings replies r ≡ (replied tt, finished))
  unfolding run close_run finalize_run
  reached =
      let (left, later, looped) =
        process_batches-Goes settings replies.of_batch 0 r.copies r.events h in
      let all =
        subst (Returns AllPublished) looped
          (process_batches-Returns settings replies.of_batch 0 r.copies r.events) in
      let (finished, ended) =
        finalized r.cleanup_complete (record r { copies = left; events = later }) in
      (finished, rw looped (rw all (rw policy (rw removal ended))))

  -- A run returns, every batch is then published, and the run's remote directory is removed by the last
  -- command of the run unless it was removed before, if each batch is published already or is planned or
  -- failed and its every call succeeds, and the calls at the end of the run succeed. That its calls succeed
  -- includes that it has a stem.
  pub run-returns :
      (finished : Run) × (run settings replies r ≡ (replied tt, finished))
      × IsFinished settings replies r finished
  run-returns =
      let (finished, returned) = reached in
      (finished, returned, run-IsFinished settings replies r finished returned)
