-- ===== src/Examples/Batches.antt =====
-- Three stems in two batches, and one batch from its submission to its publication.
use osm_polygon_wikidata_onl.Prelude.{
  ℕ, zero, suc, ◌+◌, ◌≤◌, ◌≡◌, refl, true, false, List, [], ◌∷◌, none, some, Str, codes, all, map,
  arith,
}
use osm_polygon_wikidata_onl.Grid5000.Batches.{pack_batches}
use osm_polygon_wikidata_onl.Grid5000.Batches.Laws.{pack_batches_lem}
use osm_polygon_wikidata_onl.Grid5000.Batches.Shape.{
  stems_of, joined, content_of, part_content, numbered, within, tight,
}
use osm_polygon_wikidata_onl.Grid5000.Controller.{
  Batch, planned, World, Receipt, Settings, Replies, replied, raised, interrupt, ◌>>=◌, try,
  is_terminal, remote_batch_succeeded,
}
use osm_polygon_wikidata_onl.Grid5000.Controller.Process.{
  begin_attempt, process_batch, run_batch, validate_receipt,
}
use osm_polygon_wikidata_onl.Grid5000.Controller.Saved.{run_batch-Saved}
use osm_polygon_wikidata_onl.Grid5000.Controller.Submissions.{
  submissions, may_submit, run_batch-submissions,
}
use osm_polygon_wikidata_onl.Grid5000.Controller.Run.{Run, RunReplies, run}
use osm_polygon_wikidata_onl.Grid5000.Controller.Run.Complete.{IsFinished, run-again}
use osm_polygon_wikidata_onl.Grid5000.Controller.Run.Kept.{Agrees, submittable, run-keeps}
use osm_polygon_wikidata_onl.Grid5000.Controller.Run.Returns.{processed, run-returns}
use osm_polygon_wikidata_onl.Grid5000.Controller.Success.{Succeeds, queued_batch}
use osm_polygon_wikidata_onl.Grid5000.Controller.States.{Processed, process_batch-IsPublished}

abbrev pending : List (Str × ℕ)
pending = (codes "a", 4) ∷ (codes "b", 5) ∷ (codes "c", 30) ∷ []

pack_batches_lem_example :
    ((parts : List (List (Str × ℕ))) × (joined parts ≡ pending)
      × (map content_of (pack_batches pending 2 10) ≡ map part_content parts))
    × (stems_of (pack_batches pending 2 10) ≡ map (λ (x : Str × ℕ). x.0) pending)
    × (numbered 0 (pack_batches pending 2 10) ≡ true)
    × (all (within 2 10) (pack_batches pending 2 10) ≡ true)
    × (tight 2 10 (pack_batches pending 2 10) ≡ true)
pack_batches_lem_example = pack_batches_lem pending 2 10 (omega arith)

abbrev batch : Batch
batch = record {
  index = 0;
  stems = codes "a" ∷ [];
  state = planned;
  attempt = 0;
  oar_job_id = none;
  remote_job_root = none;
  remote_cleaned = false;
  hf_commit = none;
  error = none;
}

abbrev world : World
world = record { batch = batch; saved = batch; events = [] }

abbrev settings : Settings
settings = record {
  remote_run_root = codes "run";
  source_commit = codes "c0";
  model_id = codes "m";
  model_revision = codes "r";
}

abbrev receipt : Receipt
receipt = record {
  job_id = some (codes "12");
  source_commit = some (codes "c0");
  model_id = some (codes "m");
  model_revision = some (codes "r");
  stems = some (codes "a" ∷ []);
  status = some (codes "succeeded");
  error_type = none;
}

-- every call does what it is asked; the job runs, then terminates
abbrev replies : Replies
replies = record {
  namespace_made = replied tt;
  tree_staged = replied tt;
  tree_uploaded = replied tt;
  policy_before = replied tt;
  job_queued = replied (some (codes "12"));
  policy_after = replied tt;
  statuses = replied (codes "running", none) ∷ replied (codes "terminated", none) ∷ [];
  downloaded = replied tt;
  receipt_exists = true;
  receipt = some receipt;
  partial_imported = replied tt;
  success_imported = replied tt;
  baseline_kept = replied tt;
  publication = replied (codes "abc");
  verification = replied tt;
  tree_removal = replied tt;
  job_deletion = replied tt;
}

-- the keyboard interrupts the polling
abbrev stopped : Replies
stopped = record replies { statuses = raised interrupt ∷ [] }

run_batch-Saved_example :
    (run_batch settings stopped world).1.saved ≡ (run_batch settings stopped world).1.batch
run_batch-Saved_example = run_batch-Saved settings stopped world refl

run_batch-submissions_example : submissions (run_batch settings stopped world).1.events ≤ 0 + 1
unfolding may_submit
run_batch-submissions_example = run_batch-submissions settings stopped world

published : (v : World) × (process_batch settings replies world ≡ (replied tt, v))
unfolding process_batch ◌>>=◌ try
published = (_, refl)

process_batch-IsPublished_example : Processed settings replies planned world published.0
process_batch-IsPublished_example =
    process_batch-IsPublished settings replies world published.0 published.1

-- a ledger of two batches, the second like the first
abbrev two_batches : Run
two_batches = record {
  copies =
      record { batch = batch; saved = batch }
      ∷ record { batch = record batch { index = 1 }; saved = record batch { index = 1 } }
      ∷ [];
  cleanup_complete = false;
  cleanup_saved = false;
  events = [];
}

abbrev all_replies : RunReplies
all_replies = record {
  of_batch = λ _. replies;
  policy_checked = replied tt;
  run_tree_removal = replied tt;
}

abbrev at_position : ℕ → Replies
at_position zero = replies
at_position (suc n) = stopped

-- the keyboard interrupts the second batch
abbrev later_replies : RunReplies
later_replies = record all_replies { of_batch = at_position }

finished : (v : Run) × (run settings all_replies two_batches ≡ (replied tt, v))
unfolding run ◌>>=◌ try
finished = (_, refl)

run-again_example :
    IsFinished settings all_replies two_batches finished.0
    × (run settings later_replies finished.0 ≡ (replied tt, finished.0))
run-again_example = run-again settings all_replies later_replies two_batches finished.0 finished.1

run-keeps_example :
    Agrees (run settings later_replies two_batches).1
    × (submissions (run settings later_replies two_batches).1.events ≤ 0 + 2)
unfolding submittable may_submit
run-keeps_example = run-keeps settings later_replies two_batches ((refl, (refl, tt)), refl)

succeeds : (index : ℕ) → Succeeds settings replies (record batch { index = index })
unfolding is_terminal validate_receipt remote_batch_succeeded queued_batch begin_attempt
succeeds index = record {
  namespace_made = refl;
  tree_staged = refl;
  tree_uploaded = refl;
  policy_before = refl;
  job_id = codes "12";
  job_queued = refl;
  job_known = refl;
  policy_after = refl;
  waiting = (codes "running", none) ∷ [];
  still_waiting = refl;
  state = codes "terminated";
  exit_code = none;
  later = [];
  polled = refl;
  ended = refl;
  downloaded = refl;
  receipt = receipt;
  receipt_read = refl;
  receipt_valid = refl;
  succeeded = refl;
  success_imported = refl;
  baseline_kept = refl;
  some_stems = refl;
  commit = codes "abc";
  publication = refl;
  verification = refl;
  tree_removal = refl;
}

run-returns_example :
    (v : Run) × (run settings all_replies two_batches ≡ (replied tt, v))
    × IsFinished settings all_replies two_batches v
unfolding may_submit
run-returns_example =
    run-returns settings all_replies two_batches
      (processed refl (succeeds 0), (processed refl (succeeds 1), tt)) refl refl
