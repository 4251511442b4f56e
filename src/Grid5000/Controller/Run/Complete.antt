-- ===== src/Grid5000/Controller/Run/Complete.antt =====
-- What a run that returns has done: grid5000/sentence_controller_lifecycle.py, `run`.
use osm_polygon_wikidata_onl.Prelude.{
  ℕ, ◌+◌, ◌≡◌, refl, ◌⊎◌, inl, inr, ◌++◌, Bool, true, false, ◌&&◌, List, [], ◌∷◌, map,
  if◌then◌else◌,
}
use mathlib.Core.Path.{subst}
use osm_polygon_wikidata_onl.Grid5000.Controller.{
  run_tree_removed, BatchState, planned, submitted, running, failed, ready_to_publish, published,
  cancelled, other_state, timeout, interrupt, exception, Reply, replied, raised, World, Settings,
  Replies, Event,
}
use osm_polygon_wikidata_onl.Grid5000.Controller.Process.{
  process_state, process_batch, handle_interrupt, run_batch, after_process,
}
use osm_polygon_wikidata_onl.Grid5000.Controller.States.{Processed, process_state-Giving}
use osm_polygon_wikidata_onl.Grid5000.Controller.Triples.{Ensures, last-Giving, throw-Giving}
use osm_polygon_wikidata_onl.Grid5000.Controller.Run.{
  Copy, Run, RunReplies, LoopOutcome, world_of, advance, prepend, process_batches, is_published,
  all_published, write_run, finalize_run, start_cleanup, end_cleanup, rescue, close_run, run,
}

-- Every batch is published, and the ledger says that the run's remote directory has been removed.
abbrev pub IsComplete : Run → Type 0
IsComplete r = (all_published r.copies ≡ true) × (r.cleanup_complete ≡ true)

abbrev Published : World → Type 0
Published w = is_published w.batch.state ≡ true

module _ (settings : Settings) (replies : Replies) where
  Processed-Published :
      (state : BatchState) (w v : World)
      → w.batch.state ≡ state
      → Processed settings replies state w v
      → Published v
  unfolding Processed is_published
  Processed-Published published w v h p = rw p (rw h refl)
  Processed-Published planned w v h p = rw p.state_published refl
  Processed-Published submitted w v h p = rw p.state_published refl
  Processed-Published running w v h p = rw p.state_published refl
  Processed-Published failed w v h p = rw p.state_published refl
  Processed-Published ready_to_publish w v h p = rw p.state_published refl
  Processed-Published cancelled w v h p = rw p.state_published refl
  Processed-Published (other_state name) w v h p = rw p.state_published refl

  after_process-Published :
      (w : World) (x : Reply (Unit {0}) × World)
      → Ensures (λ _ v. Processed settings replies w.batch.state w v) (λ _ _. Unit {0}) x
      → Ensures (λ _ v. Published v) (λ _ _. Unit {0}) (after_process replies x)
  after_process-Published w (replied tt, v) h = Processed-Published w.batch.state w v refl h
  after_process-Published w (raised timeout, v) h = tt
  after_process-Published w (raised (exception name), v) h = tt
  after_process-Published w (raised interrupt, v) h =
      (last-Giving Published (handle_interrupt replies)
          (λ _. throw-Giving Published interrupt)).given
        v

  run_batch-Published :
      (w : World) → Ensures (λ _ v. Published v) (λ _ _. Unit {0}) (run_batch settings replies w)
  unfolding run_batch process_batch
  run_batch-Published w =
      after_process-Published w _ (process_state-Giving settings replies w.batch.state w)

  -- A published batch is left alone.
  pub run_batch-published :
      (state : BatchState) (w : World)
      → w.batch.state ≡ state
      → is_published state ≡ true
      → run_batch settings replies w ≡ (replied tt, w)
  unfolding run_batch process_batch process_state is_published
  run_batch-published published w h p = rw h refl
  run_batch-published planned w h p = absurd (cc p)
  run_batch-published submitted w h p = absurd (cc p)
  run_batch-published running w h p = absurd (cc p)
  run_batch-published failed w h p = absurd (cc p)
  run_batch-published ready_to_publish w h p = absurd (cc p)
  run_batch-published cancelled w h p = absurd (cc p)
  run_batch-published (other_state name) w h p = absurd (cc p)

and_true : (a b : Bool) → (a && b) ≡ true → (a ≡ true) × (b ≡ true)
and_true true true h = (refl, refl)
and_true true false h = absurd (cc h)
and_true false b h = absurd (cc h)

-- What a loop ensures of its batches when it returns.
abbrev pub Returns : (List Copy → Type 0) → LoopOutcome → Type 0
Returns P (replied tt, copies, events) = P copies
Returns P (raised e, copies, events) = Unit {0}

abbrev pub AllPublished : List Copy → Type 0
AllPublished copies = all_published copies ≡ true

module _ (settings : Settings) where
  prepend-Returns :
      (c : Copy) (x : LoopOutcome)
      → is_published c.batch.state ≡ true
      → Returns AllPublished x
      → Returns AllPublished (prepend c x)
  unfolding all_published
  prepend-Returns c (raised e, copies, events) h k = tt
  prepend-Returns c (replied tt, copies, events) h k = rw h k

  advance-Returns :
      (next : List Event → LoopOutcome) (rest : List Copy) (x : Reply (Unit {0}) × World)
      → Ensures (λ _ v. Published v) (λ _ _. Unit {0}) x
      → ((events : List Event) → Returns AllPublished (next events))
      → Returns AllPublished (advance next rest x)
  advance-Returns next rest (raised e, w) h k = tt
  advance-Returns next rest (replied tt, w) h k = prepend-Returns _ _ h (k w.events)

  pub process_batches-Returns :
      (of_batch : ℕ → Replies) (position : ℕ) (copies : List Copy) (events : List Event)
      → Returns AllPublished (process_batches settings of_batch position copies events)
  unfolding process_batches all_published
  process_batches-Returns of_batch position [] events = refl
  process_batches-Returns of_batch position (c ∷ copies) events =
      advance-Returns _ _ _ (run_batch-Published settings (of_batch position) (world_of c events))
        (λ later. process_batches-Returns of_batch (position + 1) copies later)

  -- Batches that are published are passed over.
  process_batches-published :
      (of_batch : ℕ → Replies) (position : ℕ) (copies : List Copy) (events : List Event)
      → all_published copies ≡ true
      → process_batches settings of_batch position copies events ≡ (replied tt, copies, events)
  unfolding process_batches all_published
  process_batches-published of_batch position [] events h = refl
  process_batches-published of_batch position (c ∷ copies) events h =
      let both = and_true (is_published c.batch.state) (all_published copies) h in
      rw
        (run_batch-published settings (of_batch position) c.batch.state (world_of c events) refl
          both.0)
        (rw (process_batches-published of_batch (position + 1) copies events both.1) refl)

-- What has been done about the run's remote directory, since the loop left these commands: nothing when
-- the ledger had it removed before, and otherwise the policy was checked and the removal, the last command,
-- succeeded.
abbrev pub Cleaned : Reply (Unit {0}) → Reply (Unit {0}) → Bool → List Event → List Event → Type 0
Cleaned policy removal complete before after =
    ((complete ≡ true) × (after ≡ before))
    ⊎ ((complete ≡ false)
        × (policy ≡ replied tt)
        × (removal ≡ replied tt)
        × (after ≡ before ++ (run_tree_removed ∷ [])))

abbrev Finishes :
    Reply (Unit {0}) → Reply (Unit {0}) → Bool → List Event → Reply (Unit {0}) × Run → Type 0
Finishes policy removal complete before (replied tt, r) =
    IsComplete r × Cleaned policy removal complete before r.events
Finishes policy removal complete before (raised e, r) = Unit {0}

write_run-published :
    (copies : List Copy)
    → all_published copies ≡ true
    → all_published (map (λ (c : Copy). record c { saved = c.batch }) copies) ≡ true
unfolding all_published
write_run-published [] h = refl
write_run-published (c ∷ copies) h =
    let both = and_true (is_published c.batch.state) (all_published copies) h in
    rw both.0 (write_run-published copies both.1)

end_cleanup-Finishes :
    (removal : Reply (Unit {0})) (r : Run) (before : List Event)
    → all_published r.copies ≡ true
    → r.events ≡ before ++ (run_tree_removed ∷ [])
    → Finishes (replied tt) removal false before (end_cleanup removal r)
unfolding write_run end_cleanup
end_cleanup-Finishes (replied tt) r before h e =
    ((write_run-published r.copies h, refl), inr (refl, refl, refl, e))
end_cleanup-Finishes (raised e) r before h k = tt

start_cleanup-Finishes :
    (policy removal : Reply (Unit {0})) (r : Run)
    → all_published r.copies ≡ true
    → Finishes policy removal false r.events (start_cleanup policy removal r)
unfolding write_run start_cleanup
start_cleanup-Finishes (replied tt) removal r h =
    end_cleanup-Finishes removal _ r.events (write_run-published r.copies h) refl
start_cleanup-Finishes (raised e) removal r h = tt

chosen-Finishes :
    (complete : Bool) (policy removal : Reply (Unit {0})) (r : Run)
    → r.cleanup_complete ≡ complete
    → all_published r.copies ≡ true
    → Finishes policy removal complete r.events
        (if complete then (replied tt, r) else start_cleanup policy removal r)
chosen-Finishes true policy removal r e h = ((h, e), inl (refl, refl))
chosen-Finishes false policy removal r e h = start_cleanup-Finishes policy removal r h

rescue-Finishes :
    (policy removal : Reply (Unit {0})) (complete : Bool) (before : List Event)
    (x : Reply (Unit {0}) × Run)
    → Finishes policy removal complete before x
    → Finishes policy removal complete before (rescue x)
unfolding rescue
rescue-Finishes policy removal complete before (replied tt, r) h = h
rescue-Finishes policy removal complete before (raised interrupt, r) h = tt
rescue-Finishes policy removal complete before (raised timeout, r) h = tt
rescue-Finishes policy removal complete before (raised (exception name), r) h = tt

close_run-Finishes :
    (replies : RunReplies) (r : Run) (x : LoopOutcome)
    → Returns AllPublished x
    → Finishes replies.policy_checked replies.run_tree_removal r.cleanup_complete x.2
        (close_run replies r x)
unfolding finalize_run close_run
close_run-Finishes replies r (raised e, copies, events) h = tt
close_run-Finishes replies r (replied tt, copies, events) h = rw h (
    rescue-Finishes replies.policy_checked replies.run_tree_removal r.cleanup_complete events _ (
      chosen-Finishes r.cleanup_complete replies.policy_checked replies.run_tree_removal
        (record r { copies = copies; events = events }) refl h))

-- What a run that returns has done, of the commands that its loop has left.
pub record IsFinished (settings : Settings) (replies : RunReplies) (r finished : Run) : Type 0 where
  pub complete : IsComplete finished
  pub cleaned :
      Cleaned replies.policy_checked replies.run_tree_removal r.cleanup_complete
        (process_batches settings replies.of_batch 0 r.copies r.events).2
        finished.events

pub run-IsFinished :
    (settings : Settings) (replies : RunReplies) (r finished : Run)
    → run settings replies r ≡ (replied tt, finished)
    → IsFinished settings replies r finished
unfolding run
run-IsFinished settings replies r finished h =
    let both =
      subst
        (Finishes replies.policy_checked replies.run_tree_removal r.cleanup_complete
          (process_batches settings replies.of_batch 0 r.copies r.events).2)
        h
        (close_run-Finishes replies r _
          (process_batches-Returns settings replies.of_batch 0 r.copies r.events)) in
    record { complete = both.0; cleaned = both.1 }

-- When a run returns, every batch of its ledger is published; the run's remote directory had been removed
-- before by the ledger, and no command follows those of the loop, or the policy check and the removal of
-- the directory have succeeded, and the removal is the command that follows them; the ledger then says so.
-- The same run, started again from the ledger it has left, returns at once with this ledger and no further
-- command, whatever the outside would reply.
pub run-again :
    (settings : Settings) (replies later : RunReplies) (r finished : Run)
    → run settings replies r ≡ (replied tt, finished)
    → IsFinished settings replies r finished
      × (run settings later finished ≡ (replied tt, finished))
unfolding run close_run finalize_run rescue
run-again settings replies later r finished h =
    let done = run-IsFinished settings replies r finished h in
    (
      done,
      rw
          (process_batches-published settings later.of_batch 0 finished.copies finished.events
            done.complete.0)
          (rw done.complete.0 (rw done.complete.1 refl)),
    )
