-- ===== src/Hf/Uploads/Queue.antt =====
-- hf/upload_queue.py: `BackgroundUploadQueue`. The main thread and the worker are two lists of steps that
-- interleave; the callback's replies are the environment's.
pub mod Order
pub mod Delivery
pub mod Durability
pub mod Keeping
pub mod Marks
use osm_polygon_wikidata_onl.Prelude.{
  ℕ, zero, suc, ◌+◌, ◌≤◌, ◌<◌, ◌≡◌, Bool, true, false, not, List, [], ◌∷◌, ◌++◌, map, Option, none,
  some, length, if◌then◌else◌, ltb, Str, Dict, Result, Raised, ok, err, value_error, runtime_error,
}
use osm_polygon_wikidata_onl.Json.{Json}
use osm_polygon_wikidata_onl.Hf.Uploads.{PublicationOp, StateName, Platform, Disk}
use osm_polygon_wikidata_onl.Hf.Uploads.Store.{
  Writes, Store, new_store, StoredUpload, persist, delete_upload, snapshot_mismatch,
}
use osm_polygon_wikidata_onl.Hf.Uploads.Resume.{ResumeResult, resume_pending}
use osm_polygon_wikidata_onl.Hf.Uploads.Attempts.{Ended, uploaded, failed, no_attempts}

pub record UploadJob : Type 0 where
  pub ops : List PublicationOp
  pub message : Str
  pub state_path : Option StateName
  pub snapshot_dir : Option Str
  pub op_shas : List (Option Json)

-- `jobs` is `_jobs` with its None, `waiting` what the main thread has still to put, and `current` the job
-- that the worker has taken. Three lists are not stored by the code: the jobs that `submit` and
-- `resume_pending` accepted, those that the worker is done with, and those whose upload returned.
pub record Queue : Type 0 where
  pub store : Store
  pub jobs : List (Option UploadJob)
  pub waiting : List (Option UploadJob)
  pub current : Option UploadJob
  pub failures : ℕ
  pub closed : Bool
  pub worker_done : Bool
  pub accepted : List UploadJob
  pub finished : List UploadJob
  pub delivered : List UploadJob

pub record Config : Type 0 where
  pub platform : Platform
  -- whether there is a state directory
  pub durable : Bool
  pub max_pending : ℕ
  pub attempts : ℕ

-- The constructor.
unfoldable pub new_queue : Config → Disk → Result Queue
unfolding new_store
new_queue config disk =
    if ltb config.max_pending 1
    then err value_error
    else if ltb config.attempts 1
    then err value_error
    else ok (record {
      store = new_store disk;
      jobs = [];
      waiting = [];
      current = none;
      failures = 0;
      closed = false;
      worker_done = false;
      accepted = [];
      finished = [];
      delivered = [];
    })

abbrev pub job_of : StoredUpload → UploadJob
job_of stored = record {
  ops = stored.ops;
  message = stored.message;
  state_path = some stored.state_path;
  snapshot_dir = stored.snapshot_dir;
  op_shas = stored.op_shas;
}

abbrev none_each : List PublicationOp → List (Option Json)
none_each [] = []
none_each (op ∷ ops) = none ∷ none_each ops

unfoldable pub built : Result StoredUpload × Store → Result UploadJob × Store
built (ok stored, s) = (ok (job_of stored), s)
built (err e, s) = (err e, s)

-- `_build_job`
unfoldable pub build_job :
    Config → Writes → List PublicationOp → Str → Store → Result UploadJob × Store
unfolding built persist
build_job config written ops message s =
    if config.durable then built (persist config.platform written ops message s) else (
      ok (record {
        ops = ops;
        message = message;
        state_path = none;
        snapshot_dir = none;
        op_shas = none_each ops;
      }),
      s,
    )

unfoldable pub put_built : Queue → Result UploadJob × Store → Result (Unit {0}) × Queue
put_built q (ok job, s) = (
  ok tt,
  record q {
    store = s;
    waiting = q.waiting ++ (some job ∷ []);
    accepted = q.accepted ++ (job ∷ []);
  },
)
put_built q (err e, s) = (err e, record q { store = s })

-- `submit`, up to the `put` that may block
unfoldable pub submit :
    Config → Writes → List PublicationOp → Str → Queue → Result (Unit {0}) × Queue
unfolding build_job put_built
submit config written ops message q =
    if q.closed
    then (err runtime_error, q)
    else put_built q (build_job config written ops message q.store)

-- `close_and_wait`, up to its `put`
unfoldable pub close : Queue → Queue
close q = if q.closed then q else record q { closed = true; waiting = q.waiting ++ (none ∷ []) }

-- The loop of `_verify_job_snapshot`: `zip(strict=True)` raises where one list is longer. False stands
-- for a changed snapshot.
unfoldable pub verify_loop :
    Platform → Dict Str Str → List PublicationOp → List (Option Json) → Result Bool
unfolding snapshot_mismatch
verify_loop p files [] [] = ok true
verify_loop p files (op ∷ ops) [] = err value_error
verify_loop p files [] (sha ∷ shas) = err value_error
verify_loop p files (op ∷ ops) (sha ∷ shas) =
    let rest = verify_loop p files ops shas in
    elim (snapshot_mismatch p op sha files) [ err e ↦ err e | ok true ↦ ok false | ok false ↦ rest ]

unfoldable pub verify_job_snapshot : Config → UploadJob → Store → Result Bool
unfolding verify_loop
verify_job_snapshot config job s =
    if config.durable then verify_loop config.platform s.disk.files job.ops job.op_shas else ok true

unfoldable pub delete_path :
    Config → Option StateName → Option Str → Store → Result (Unit {0}) × Store
unfolding delete_upload
delete_path config none snapshot_dir s = (ok tt, s)
delete_path config (some state_path) snapshot_dir s =
    if config.durable
    then delete_upload config.platform state_path snapshot_dir s
    else (err runtime_error, s)

-- What follows a successful upload: whether it raised, and the store.
unfoldable pub delete_job : Config → UploadJob → Store → Result (Unit {0}) × Store
unfolding delete_path
delete_job config job s = delete_path config job.state_path job.snapshot_dir s

unfoldable pub count_error : Queue → Result (Unit {0}) × Store → Queue
count_error q (ok done, s) = record q { store = s }
count_error q (err e, s) = record q { store = s; failures = q.failures + 1 }

unfoldable pub after_upload : Config → UploadJob → Ended → Queue → Queue
unfolding delete_job count_error
after_upload config job uploaded q =
    count_error (record q { delivered = q.delivered ++ (job ∷ []) }) (delete_job config job q.store)
after_upload config job other q = record q { failures = q.failures + 1 }

unfoldable pub after_verification : Config → UploadJob → Ended → Queue → Result Bool → Queue
unfolding after_upload
after_verification config job ended q (ok true) = after_upload config job ended q
after_verification config job ended q (ok false) = record q { failures = q.failures + 1 }
after_verification config job ended q (err e) = record q { failures = q.failures + 1 }

-- `resume_pending`, up to its `put`s; it gives the number of the jobs that it found
unfoldable pub resumed : Queue → Result ResumeResult × Store → Result ℕ × Queue
resumed q (err e, s) = (err e, record q { store = s })
resumed q (ok r, s) = (
  ok r.discovered_count,
  record q {
    store = s;
    failures = q.failures + length r.failures;
    waiting = q.waiting ++ map (λ upload. some (job_of upload)) r.uploads;
    accepted = q.accepted ++ map job_of r.uploads;
  },
)

unfoldable pub resume : Config → Queue → Result ℕ × Queue
unfolding resumed resume_pending
resume config q =
    if config.durable then resumed q (resume_pending config.platform q.store) else (ok 0, q)

-- `_process_job` under the `except` of `_worker`, when the upload's attempts end in `ended`
unfoldable pub process_job : Config → UploadJob → Ended → Queue → Queue
unfolding verify_job_snapshot after_verification
process_job config job ended q =
    after_verification config job ended (record q { finished = q.finished ++ (job ∷ []) })
      (verify_job_snapshot config job q.store)

-- What the two threads do. `put` moves the next waiting job into the bounded queue; `take` begins a job or
-- ends the worker, and `work` ends it.
pub data Step (config : Config) : Queue → Queue → Type 0 where
  submitting :
      (q : Queue) (written : Writes) (ops : List PublicationOp) (message : Str)
      → q.waiting ≡ []
      → Step config q (submit config written ops message q).1
  closing : (q : Queue) → q.waiting ≡ [] → Step config q (close q)
  putting :
      (q : Queue) (job : Option UploadJob) (rest : List (Option UploadJob))
      → q.waiting ≡ job ∷ rest
      → length q.jobs < config.max_pending
      → Step config q (record q { jobs = q.jobs ++ (job ∷ []); waiting = rest })
  taking :
      (q : Queue) (job : UploadJob) (rest : List (Option UploadJob))
      → q.worker_done ≡ false
      → q.current ≡ none
      → q.jobs ≡ some job ∷ rest
      → Step config q (record q { jobs = rest; current = some job })
  working :
      (q : Queue) (job : UploadJob) (ended : Ended)
      → q.current ≡ some job
      → Step config q (process_job config job ended (record q { current = none }))
  stopping :
      (q : Queue) (rest : List (Option UploadJob))
      → q.worker_done ≡ false
      → q.current ≡ none
      → q.jobs ≡ none ∷ rest
      → Step config q (record q { jobs = rest; worker_done = true })

-- A queue that has just been made, or that has then resumed what it found.
pub data Starts (config : Config) (disk : Disk) : Queue → Type 0 where
  fresh : {q : Queue} → new_queue config disk ≡ ok q → Starts config disk q
  after_resume :
      {q r : Queue} {n : ℕ}
      → new_queue config disk ≡ ok q
      → resume config q ≡ (ok n, r)
      → Starts config disk r

pub data Reach (config : Config) (q : Queue) : Queue → Type 0 where
  here : Reach config q q
  next : {r s : Queue} → Reach config q r → Step config r s → Reach config q s
