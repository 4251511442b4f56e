-- ===== src/Examples/Uploads.antt =====
-- An upload queue: a submission of two operations, its upload and the end of the worker.
use osm_polygon_wikidata_onl.Prelude.{
  ◌<◌, ◌≤◌, ◌≡◌, refl, true, false, List, [], ◌∷◌, ◌++◌, none, some, Str, codes, ok, err, os_error,
  all, length, All, arith,
}
use osm_polygon_wikidata_onl.Json.{Json, text, number, array, no_items}
use osm_polygon_wikidata_onl.Domain.Values.{pos, show_int, padded}
use osm_polygon_wikidata_onl.Hf.Uploads.{
  PublicationOp, publication_op, add_action, delete_action, Platform, Payload, name_text, Disk,
  numbered, scanned_sequence,
}
use osm_polygon_wikidata_onl.Hf.Uploads.Store.{
  Store, Writes, ◌>>=◌, new_store, StoredUpload, persist,
}
use osm_polygon_wikidata_onl.Hf.Uploads.Store.Sequences.{
  Request, persisting, deleting, answers, new_store-answers,
}
use osm_polygon_wikidata_onl.Hf.Uploads.Envelopes.{pending_envelopes}
use osm_polygon_wikidata_onl.Hf.Uploads.Envelopes.Classes.{pending_envelopes_lem}
use osm_polygon_wikidata_onl.Hf.Uploads.Resume.Entries.{IsFaithful, IsMade}
use osm_polygon_wikidata_onl.Hf.Uploads.Resume.RoundTrip.{IsRecoverable, persist-IsRecoverable}
use osm_polygon_wikidata_onl.Hf.Uploads.Attempts.{uploaded}
use osm_polygon_wikidata_onl.Hf.Uploads.Queue.{
  UploadJob, Queue, Config, new_queue, submit, close, process_job, submitting, closing, putting,
  taking, working, stopping, Reach, here, next, fresh,
}
use osm_polygon_wikidata_onl.Hf.Uploads.Queue.Delivery.{Reach-delivers}
use osm_polygon_wikidata_onl.Hf.Uploads.Queue.Durability.{Reach-keeps}
use osm_polygon_wikidata_onl.Hf.Uploads.Queue.Keeping.{kept}

abbrev text_of : Json → Str
text_of (text t) = t
text_of other = []

abbrev platform : Platform
platform = record {
  state_dir = codes "queue";
  hash_file = λ content. content;
  is_inside = λ child parent. true;
  upgrade_marked = λ name. ok tt;
  str_of = text_of;
}

platform-IsFaithful : IsFaithful platform
platform-IsFaithful = record {
  inside_root = λ n. refl;
  inside_dir = λ dir op_index path. refl;
  text_str = λ t. refl;
}

abbrev disk : Disk
disk = record {
  highwater = some (pos 4);
  envelopes = [];
  files = (codes "data/malta.parquet", codes "rows") ∷ [];
}

abbrev ops : List PublicationOp
ops =
    record {
      action = add_action;
      path_in_repo = codes "polygons/malta.parquet";
      local_path = some (codes "data/malta.parquet");
      snapshot_path = none;
    }
    ∷ record {
      action = delete_action;
      path_in_repo = codes "articles/malta.parquet";
      local_path = none;
      snapshot_path = none;
    }
    ∷ []

abbrev message : Str
message = codes "malta"

ops-IsMade : All IsMade ops
unfolding publication_op
ops-IsMade =
    (record { accepted = refl; named = refl }, (record { accepted = refl; named = refl }, tt))

abbrev snapshot : Str
snapshot = codes "queue/snapshots/000005/000/malta.parquet"

abbrev stored : StoredUpload
stored = record {
  ops =
      record {
        action = add_action;
        path_in_repo = codes "polygons/malta.parquet";
        local_path = some (codes "data/malta.parquet");
        snapshot_path = some snapshot;
      }
      ∷ record {
        action = delete_action;
        path_in_repo = codes "articles/malta.parquet";
        local_path = none;
        snapshot_path = none;
      }
      ∷ [];
  message = message;
  state_path = numbered 5;
  snapshot_dir = some (codes "queue/snapshots/000005");
  op_shas = some (text (codes "rows")) ∷ none ∷ [];
}

abbrev all_written : Writes
all_written = record { marked = ok tt; enveloped = ok tt }

abbrev unmarked : Writes
unmarked = record { marked = err os_error; enveloped = ok tt }

abbrev opened : Store
opened = record { disk = disk; next_sequence = 5 }

persisted :
    persist platform all_written ops message opened
    ≡ (ok stored, (persist platform all_written ops message opened).1)
unfolding persist ◌>>=◌ show_int
persisted = refl

persist-IsRecoverable_example :
    IsRecoverable platform platform-IsFaithful 5 stored
      (persist platform all_written ops message opened).1
persist-IsRecoverable_example =
    persist-IsRecoverable platform platform-IsFaithful all_written ops message opened (omega arith)
      ops-IsMade persisted

abbrev requests : List Request
requests = persisting all_written ops message ∷ deleting (numbered 6) none ∷ []

-- the mark of the first submission is not written, and the envelope of the second is not
abbrev before : List Request
before = persisting unmarked ops message ∷ []

new_store-answers_example :
    let giving = answers platform before (new_store disk) in
    let s =
      answers platform
        (persisting (record { marked = ok tt; enveloped = err os_error }) ops message ∷ requests)
        giving in
    (giving.next_sequence < (new_store s.disk).next_sequence)
    × (scanned_sequence s.disk.envelopes < (new_store s.disk).next_sequence)
    × ((new_store s.disk).next_sequence ≤ s.next_sequence)
new_store-answers_example =
    new_store-answers platform disk before (err os_error) ops message requests

-- a queued envelope and an old one
abbrev queued_payload : Payload
queued_payload =
    (codes "contract_version", text (codes "bg-upload-v1"))
    ∷ (codes "sequence", number (pos 7))
    ∷ []

abbrev old_payload : Payload
old_payload = (codes "message", text (codes "m")) ∷ (codes "ops", array no_items) ∷ []

abbrev mixed : Disk
mixed = record disk {
  envelopes = (numbered 7, some queued_payload) ∷ (numbered 3, some old_payload) ∷ [];
}

pending_envelopes_lem_example :
    pending_envelopes mixed
    ≡ ok (record {
      currents = record { sequence = 7; state_path = numbered 7; envelope = queued_payload } ∷ [];
      legacies = (numbered 3, old_payload) ∷ [];
      seen_sequences = 7 ∷ [];
    })
unfolding name_text padded show_int
pending_envelopes_lem_example = pending_envelopes_lem mixed

abbrev config : Config
config = record { platform = platform; durable = true; max_pending = 2; attempts = 3 }

abbrev made : Queue
made = record {
  store = opened;
  jobs = [];
  waiting = [];
  current = none;
  failures = 0;
  closed = false;
  worker_done = false;
  accepted = [];
  finished = [];
  delivered = [];
}

new_queue-made : new_queue config disk ≡ ok made
unfolding new_queue
new_queue-made = refl

abbrev job : UploadJob
job = record {
  ops = stored.ops;
  message = message;
  state_path = some stored.state_path;
  snapshot_dir = stored.snapshot_dir;
  op_shas = stored.op_shas;
}

-- submitted, put, taken, uploaded; then closed, put and stopped
abbrev submitted : Queue
submitted = (submit config all_written ops message made).1

abbrev queued : Queue
queued = record submitted { jobs = submitted.jobs ++ (some job ∷ []); waiting = [] }

abbrev taken : Queue
taken = record queued { jobs = []; current = some job }

abbrev worked : Queue
worked = process_job config job uploaded (record taken { current = none })

abbrev closed : Queue
closed = close worked

abbrev marked : Queue
marked = record closed { jobs = closed.jobs ++ (none ∷ []); waiting = [] }

abbrev stopped : Queue
stopped = record marked { jobs = []; worker_done = true }

run : Reach config made stopped
unfolding submit close process_job ◌>>=◌ show_int
run =
    next
      (next
        (next
          (next
            (next
              (next (next here (submitting made all_written ops message refl))
                (putting submitted (some job) [] refl (omega arith)))
              (taking queued job [] refl refl refl))
            (working taken job uploaded refl))
          (closing worked refl))
        (putting closed none [] refl (omega arith)))
      (stopping marked [] refl refl refl)

Reach-delivers_example :
    (length stopped.jobs ≤ 2)
    × (stopped.worker_done ≡ true → stopped.finished ≡ stopped.accepted)
    × (stopped.worker_done ≡ true → stopped.failures ≡ 0 → stopped.delivered ≡ stopped.accepted)
Reach-delivers_example = Reach-delivers config disk (fresh new_queue-made) run

Reach-keeps_example :
    all (kept stopped.store.disk.envelopes stopped.delivered) stopped.accepted ≡ true
Reach-keeps_example = Reach-keeps config disk new_queue-made run

-- The run delivers the job and leaves no envelope.
run_end :
    (stopped.delivered ≡ job ∷ []) × (stopped.store.disk.envelopes ≡ []) × (stopped.failures ≡ 0)
unfolding submit close process_job ◌>>=◌ show_int
run_end = (refl, refl, refl)
