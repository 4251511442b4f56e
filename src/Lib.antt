-- ===== src/Lib.antt =====
-- osm-polygon-wikidata-only builds a dataset that links OpenStreetMap polygons, by their Wikidata
-- tags, to Wikipedia and Wikivoyage documents, and keeps it on a Hub. Paths below are from
-- src/osm_polygon_wikidata_only/.
--
-- The parts, and the modules that model them:
--   Domain: domain/wikidata_qids.py and domain/stems.py read the identifiers in tags and file names
--     (Qids, Stems, with the character classes of Python 3.12 in Chars). domain/polygon_document_links.py
--     makes the table of links: Links/Build is build_polygon_document_links, which indexes the polygons
--     by identifier and joins the documents; Links/Validate is validate_polygon_document_links, which
--     Build calls last and readers of the table call alone. Values holds the cells of a row, with str
--     and int; a cell is null, an integer or a text.
--   Utils: utils/retry.py decides which failed calls to try again (Transient) and does so (Retry);
--     utils/http_retry.py reads how long a server asks to wait (RetryAfter).
--     utils/request_scheduler.py paces the calls (Scheduler): each `with lock` block is one function on
--     the state, with the clock's readings as arguments. Scheduler/Steps lets threads interleave at
--     these blocks, with counters for the threads of `run` that wait or leave and the list of
--     decided reductions, which the code does not store. Scheduler/Pacing is the loop of pace_host,
--     Scheduler/Arguments the constructor, Scheduler/Snapshot the view for the logs.
--   Pipeline: pipeline/sync_planner.py chooses and orders the actions of a run (SyncPlanner);
--     pipeline/sync_planning.py and core_repair_required of pipeline/sync_reconciliation.py prepare its
--     sets (SyncPlanning). Sets are lists that are asked for their members.
--     pipeline/pending_publications.py keeps the stems to publish in a file (PendingPublications), which
--     is modelled by what parsing makes of it; the operations return the new file.
--   Hf: hf/upload_queue.py uploads in the background (Uploads). Uploads has the operations of
--     hf/_uploader/plan.py and the reading of the state directory by hf/_upload_state_files.py;
--     Store, Envelopes and Resume are hf/_upload_state.py, Attempts is hf/_upload_retry.py, and Queue
--     lets the main thread and the worker interleave. hf/reconciliation.py compares the local dataset
--     with the remote files (Reconciliation); the planning of a run takes its result.
--   Augmentation: augmentation/_wikivoyage_membership.py tells the documents that belong to a polygon
--     (WikivoyageMembership), and augmentation/rejection_ledger.py keeps the records of the others
--     (RejectionLedger): its records and their merge, Files with the JSON of the ledgers, and Plan with
--     the planning of a stem and its application as four writes.
--   Grid5000: grid5000/sentence_protocol.py packs stems into batches (Batches) and checks that a returned
--     manifest extends the local one (Manifest). The mixins grid5000/sentence_controller_*.py carry a
--     batch through a remote job to its publication (Controller, with the handlers in Process): an
--     action changes the batch in memory and its copy in the ledger's file, logs the commands that leave
--     a trace outside, and returns or raises. Controller/Run is the loop over the batches and the end of
--     a run, Controller/Success a batch whose calls succeed, Controller/Ledger how a ledger is made and
--     taken up again.
-- Prelude has the shared tests, lists, dictionaries, orders and results; Floats is the interface of the
-- floats that the schedulers compute with; Examples applies the theorems at concrete inputs.
--
-- Bounds and fuel: numbers that the code keeps non-negative are natural. The retry loop runs on fuel,
-- and as many rounds as there are attempts are enough. The loop of pace_host and the polling of a job
-- run as long as their environment answers: a list of turns, or of replies, after which the polling is
-- interrupted. A chain of causes is cut at eight links, as in the code.
--
-- Floats are an interface: an order without NaN, and operations whose laws hold for rounded
-- arithmetic. JSON values are modelled in Json, and where a manifest is checked they and the view that
-- isinstance has of them are an interface. What the code reads from outside
-- (clocks, files, the Hub, the cluster, tables) is an argument, so a theorem holds for every
-- reply. A write of the ledger is taken to succeed, and an interrupt to come from an outside call.
-- Messages of exceptions and logging are left out; the class of an exception is kept. The limit of
-- Python's int and str on decimal numerals of more than 4300 digits is left out too.
--
-- Not modelled: enrichment, the rest of the augmentation, the V2 dataset, the migrations and the runtime of the pipeline, the command
-- line, the import of a job's artifacts and of checkpoints, and what reads or writes Parquet, images or the network.
mod Prelude
pub mod Domain
pub mod Examples
pub mod Floats
pub mod Grid5000
pub mod Hf
pub mod Augmentation
pub mod Json
pub mod Pipeline
pub mod Utils
