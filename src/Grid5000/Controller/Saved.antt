-- ===== src/Grid5000/Controller/Saved.antt =====
-- The ledger's file agrees with the batch in memory whenever the controller leaves a batch.
use osm_polygon_wikidata_onl.Prelude.{◌≡◌, refl, [], ◌∷◌, ◌++◌}
use osm_polygon_wikidata_onl.Grid5000.Controller.{
  BatchState, planned, submitted, running, failed, ready_to_publish, published, cancelled,
  other_state, Batch, timeout, interrupt, exception, Reply, replied, raised, World, Settings,
  Replies, Action, write_ledger, save, ◌>>=◌, job_submitted, Event,
}
use osm_polygon_wikidata_onl.Grid5000.Controller.Process.{
  submit_batch, reconcile_batch, publish_batch, publish_if_ready, process_state, process_batch,
  handle_interrupt, run_batch, after_process,
}
use osm_polygon_wikidata_onl.Grid5000.Controller.Keeping.{
  submit_batch-Keeping, reconcile_batch-Keeping, publish_batch-Keeping, publish_if_ready-Keeping,
  handle_interrupt-Keeping,
}
use osm_polygon_wikidata_onl.Grid5000.Controller.Triples.{
  Ensures, Keeping, then-Keeping, throw-Keeping, return-Keeping,
}

abbrev pub Saved : World → Type 0
Saved w = w.saved ≡ w.batch

abbrev Saves : {A : Type 0} → Action A → Type 0
Saves m = Keeping Saved m

-- A change that is written at once.
record-Saves : (f : Batch → Batch) → Saves (save f)
unfolding save write_ledger ◌>>=◌
record-Saves f = record { kept = λ w i. refl }

write-Saves : Saves write_ledger
unfolding write_ledger
write-Saves = record { kept = λ w i. refl }

traced-Saved :
    (event : Event) (w : World) → Saved w → Saved (record w { events = w.events ++ (event ∷ []) })
traced-Saved event w i = i

module _ (settings : Settings) (replies : Replies) where
  reconcile_batch-Saves : Saves (reconcile_batch settings replies)
  reconcile_batch-Saves =
      reconcile_batch-Keeping Saved record-Saves (λ event _. traced-Saved event) settings replies

  publish_batch-Saves : Saves (publish_batch settings replies)
  publish_batch-Saves =
      publish_batch-Keeping Saved record-Saves (λ event _. traced-Saved event) settings replies

  publish_if_ready-Saves : Saves (publish_if_ready settings replies)
  publish_if_ready-Saves =
      publish_if_ready-Keeping Saved record-Saves (λ event _. traced-Saved event) settings replies

  submit_batch-Saves : Saves (submit_batch settings replies)
  submit_batch-Saves =
      submit_batch-Keeping Saved record-Saves (λ event _. traced-Saved event) settings replies
        (traced-Saved job_submitted)

  process_state-Saves : (state : BatchState) → Saves (process_state state settings replies)
  unfolding process_state
  process_state-Saves published = return-Keeping Saved tt
  process_state-Saves ready_to_publish = publish_batch-Saves
  process_state-Saves submitted =
      then-Keeping Saved reconcile_batch-Saves (λ _. publish_if_ready-Saves)
  process_state-Saves running =
      then-Keeping Saved reconcile_batch-Saves (λ _. publish_if_ready-Saves)
  process_state-Saves planned =
      then-Keeping Saved (then-Keeping Saved submit_batch-Saves (λ _. reconcile_batch-Saves))
        (λ _. publish_if_ready-Saves)
  process_state-Saves failed =
      then-Keeping Saved (then-Keeping Saved submit_batch-Saves (λ _. reconcile_batch-Saves))
        (λ _. publish_if_ready-Saves)
  process_state-Saves cancelled = throw-Keeping Saved _
  process_state-Saves (other_state name) = throw-Keeping Saved _

  handle_interrupt-Saves : Saves (handle_interrupt replies)
  handle_interrupt-Saves =
      handle_interrupt-Keeping Saved record-Saves (λ event _. traced-Saved event) settings replies
        write-Saves

  world_of :
      (x : Reply (Unit {0}) × World) → Ensures (λ _ w. Saved w) (λ _ w. Saved w) x → Saved x.1
  world_of (replied a, w) h = h
  world_of (raised e, w) h = h

  after_process-Saved :
      (x : Reply (Unit {0}) × World)
      → Ensures (λ _ w. Saved w) (λ _ w. Saved w) x
      → Saved (after_process replies x).1
  unfolding ◌>>=◌
  after_process-Saved (replied tt, w) h = h
  after_process-Saved (raised timeout, w) h = h
  after_process-Saved (raised (exception name), w) h = h
  after_process-Saved (raised interrupt, w) h =
      world_of _
        ((then-Keeping Saved handle_interrupt-Saves (λ _. throw-Keeping Saved interrupt)).kept w h)

-- If the ledger's file agrees with the batch when the controller takes it up, it agrees with it when the
-- controller leaves it, whatever every outside call replies: also when one raises, or the keyboard
-- interrupts.
pub run_batch-Saved :
    (settings : Settings) (replies : Replies) (w : World)
    → w.saved ≡ w.batch
    → (run_batch settings replies w).1.saved ≡ (run_batch settings replies w).1.batch
unfolding run_batch process_batch
run_batch-Saved settings replies w h =
    after_process-Saved settings replies _
      ((process_state-Saves settings replies w.batch.state).kept w h)
