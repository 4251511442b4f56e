-- ===== src/Grid5000/Controller/Run.antt =====
-- grid5000/sentence_controller_lifecycle.py: `run` over all the batches of the ledger, and the cleanup at
-- its end.
pub mod Complete
pub mod Kept
pub mod Returns
use osm_polygon_wikidata_onl.Prelude.{
  ℕ, ◌+◌, Bool, true, false, ◌&&◌, List, [], ◌∷◌, ◌++◌, map, if◌then◌else◌,
}
use osm_polygon_wikidata_onl.Grid5000.Controller.{
  BatchState, published, Batch, Fault, timeout, interrupt, exception, Reply, replied, raised,
  run_tree_removed, Event, World, Settings, Replies, controller_run_error,
}
use osm_polygon_wikidata_onl.Grid5000.Controller.Process.{run_batch}

-- A batch in memory and as the ledger's file has it.
pub record Copy : Type 0 where
  pub batch : Batch
  pub saved : Batch

-- The ledger that `run` works on, with what its file has, and the commands so far. Whether the run's
-- remote directory has been removed is `cleanup_state`, which is "complete" or "pending".
pub record Run : Type 0 where
  pub copies : List Copy
  pub cleanup_complete : Bool
  pub cleanup_saved : Bool
  pub events : List Event

-- What the outside replies during a run: for each position in the ledger, and at the end.
pub record RunReplies : Type 0 where
  pub of_batch : ℕ → Replies
  pub policy_checked : Reply (Unit {0})
  pub run_tree_removal : Reply (Unit {0})

abbrev pub LoopOutcome : Type 0
LoopOutcome = Reply (Unit {0}) × List Copy × List Event

abbrev pub copy_of : World → Copy
copy_of w = record { batch = w.batch; saved = w.saved }

abbrev pub world_of : Copy → List Event → World
world_of c events = record { batch = c.batch; saved = c.saved; events = events }

abbrev pub prepend : Copy → LoopOutcome → LoopOutcome
prepend c (reply, copies, events) = (reply, c ∷ copies, events)

abbrev pub advance : (List Event → LoopOutcome) → List Copy → Reply (Unit {0}) × World → LoopOutcome
advance next rest (replied tt, w) = prepend (copy_of w) (next w.events)
advance next rest (raised e, w) = (raised e, copy_of w ∷ rest, w.events)

-- The loop of `run`, with its handler of interrupts (in `run_batch`). A write of the ledger writes every
-- batch; here it changes the batch in hand, the others being as they were when they were last written.
unfoldable pub process_batches : Settings → (ℕ → Replies) → ℕ → List Copy → List Event → LoopOutcome
unfolding run_batch
process_batches settings of_batch position [] events = (replied tt, [], events)
process_batches settings of_batch position (c ∷ copies) events =
    advance (process_batches settings of_batch (position + 1) copies) copies
      (run_batch settings (of_batch position) (world_of c events))

unfoldable pub is_published : BatchState → Bool
is_published published = true
is_published _ = false

unfoldable pub all_published : List Copy → Bool
unfolding is_published
all_published [] = true
all_published (c ∷ copies) = is_published c.batch.state && all_published copies

-- `_write_ledger`, of the whole ledger
unfoldable pub write_run : Run → Run
write_run r = record r {
  copies = map (λ (c : Copy). record c { saved = c.batch }) r.copies;
  cleanup_saved = r.cleanup_complete;
}

unfoldable pub end_cleanup : Reply (Unit {0}) → Run → Reply (Unit {0}) × Run
unfolding write_run
end_cleanup (replied tt) r = (replied tt, write_run (record r { cleanup_complete = true }))
end_cleanup (raised e) r = (raised e, r)

unfoldable pub start_cleanup : Reply (Unit {0}) → Reply (Unit {0}) → Run → Reply (Unit {0}) × Run
unfolding write_run end_cleanup
start_cleanup (raised e) removal r = (raised e, r)
start_cleanup (replied tt) removal r =
    let pending = write_run (record r { cleanup_complete = false }) in
    end_cleanup removal (record pending { events = r.events ++ (run_tree_removed ∷ []) })

-- `_finalize_run`; its ledger is loaded
unfoldable pub finalize_run : Reply (Unit {0}) → Reply (Unit {0}) → Run → Reply (Unit {0}) × Run
unfolding start_cleanup
finalize_run policy removal r =
    if r.cleanup_complete then (replied tt, r) else start_cleanup policy removal r

-- The handler of interrupts when every batch is published: the current batch, if there is one, is not
-- active, and the ledger is written.
unfoldable pub rescue : Reply (Unit {0}) × Run → Reply (Unit {0}) × Run
unfolding write_run
rescue (replied tt, r) = (replied tt, r)
rescue (raised interrupt, r) = (raised interrupt, write_run r)
rescue (raised timeout, r) = (raised timeout, r)
rescue (raised (exception name), r) = (raised (exception name), r)

-- what follows the loop
unfoldable pub close_run : RunReplies → Run → LoopOutcome → Reply (Unit {0}) × Run
unfolding all_published finalize_run rescue
close_run replies r (raised e, copies, events) =
    (raised e, record r { copies = copies; events = events })
close_run replies r (replied tt, copies, events) =
    let processed = record r { copies = copies; events = events } in
    if all_published copies
    then rescue (finalize_run replies.policy_checked replies.run_tree_removal processed)
    else (raised controller_run_error, processed)

-- `run`, from a ledger that `initialize` has loaded or made
unfoldable pub run : Settings → RunReplies → Run → Reply (Unit {0}) × Run
unfolding process_batches close_run
run settings replies r =
    close_run replies r (process_batches settings replies.of_batch 0 r.copies r.events)
