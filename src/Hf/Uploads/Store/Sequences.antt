-- ===== src/Hf/Uploads/Store/Sequences.antt =====
-- hf/_upload_state.py: the numbers that a store gives out, over restarts.
use osm_polygon_wikidata_onl.Prelude.{
  ℕ, ◌<◌, ◌≤◌, ap, List, [], ◌∷◌, Option, none, some, Str, arith, if_cases, Result, ok, err,
}
use osm_polygon_wikidata_onl.Hf.Uploads.{
  PublicationOp, StateName, Platform, Disk, scanned_sequence, next_sequence_from_state_dir,
  read_highwater, snapshots_root,
}
use osm_polygon_wikidata_onl.Hf.Uploads.Store.{
  Store, StoredUpload, Writes, new_store, persist, delete_upload, rmtree,
}
use osm_polygon_wikidata_onl.Hf.Uploads.Store.Persisting.{Persists, persist-Persists, scanned-erase}

-- What a queue asks of its store: to persist a submission, whose writes may fail, or to delete an upload.
pub data Request : Type 0 where
  persisting : Writes → List PublicationOp → Str → Request
  deleting : StateName → Option Str → Request

abbrev pub answer : Platform → Request → Store → Store
answer p (persisting writes ops message) s = (persist p writes ops message s).1
answer p (deleting name snapshot_dir) s = (delete_upload p name snapshot_dir s).1

abbrev pub answers : Platform → List Request → Store → Store
answers p [] s = s
answers p (request ∷ requests) s = answers p requests (answer p request s)

-- The store's counter is beyond what a restart would read, and the high-water mark has reached a number.
record IsBounded (given : ℕ) (s : Store) : Type 0 where
  reached : given ≤ read_highwater s.disk.highwater
  mark_below : read_highwater s.disk.highwater < s.next_sequence
  below : scanned_sequence s.disk.envelopes < s.next_sequence

marked-IsBounded :
    (given : ℕ) (marked : Result (Unit {0})) (s : Store) (r : Result StoredUpload × Store)
    → IsBounded given s
    → Persists marked s r
    → IsBounded given r.1
unfolding read_highwater
marked-IsBounded given (ok done) s r b x = record {
  reached = omega (arith, b.reached, b.mark_below, ap read_highwater x.anchored);
  mark_below = omega (arith, x.counted, ap read_highwater x.anchored);
  below = omega (arith, x.counted, x.scanned, b.below);
}
marked-IsBounded given (err e) s r b x = record {
  reached = omega (arith, b.reached, ap read_highwater x.anchored);
  mark_below = omega (arith, b.mark_below, x.counted, ap read_highwater x.anchored);
  below = omega (arith, x.counted, x.scanned, b.below);
}

delete_upload-IsBounded :
    (p : Platform) (given : ℕ) (name : StateName) (dir : Option Str) (s : Store)
    → IsBounded given s
    → IsBounded given (delete_upload p name dir s).1
unfolding delete_upload rmtree
delete_upload-IsBounded p given name none s b = record {
  reached = b.reached;
  mark_below = b.mark_below;
  below = omega (arith, b.below, scanned-erase name s.disk.envelopes);
}
delete_upload-IsBounded p given name (some dir) s b =
    if_cases (λ (r : Result (Unit {0}) × Store). IsBounded given r.1)
      (p.is_inside dir (snapshots_root p))
      (λ _. record {
        reached = b.reached;
        mark_below = b.mark_below;
        below = omega (arith, b.below, scanned-erase name s.disk.envelopes);
      })
      (λ _. record {
        reached = b.reached;
        mark_below = b.mark_below;
        below = omega (arith, b.below, scanned-erase name s.disk.envelopes);
      })

answers-IsBounded :
    (p : Platform) (given : ℕ) (requests : List Request) (s : Store)
    → IsBounded given s
    → IsBounded given (answers p requests s)
answers-IsBounded p given [] s b = b
answers-IsBounded p given (persisting writes ops message ∷ requests) s b =
    answers-IsBounded p given requests _ (
      marked-IsBounded given writes.marked s (persist p writes ops message s) b
        (persist-Persists p writes ops message s))
answers-IsBounded p given (deleting name dir ∷ requests) s b =
    answers-IsBounded p given requests _ (delete_upload-IsBounded p given name dir s b)

reached_now :
    (giving : Store) {r : Result StoredUpload × Store}
    → Persists (ok tt) giving r
    → giving.next_sequence ≤ read_highwater r.1.disk.highwater
unfolding read_highwater
reached_now giving x = omega (arith, ap read_highwater x.anchored)

-- From any directory on, after any submissions and deletions, whichever writes fail: once a submission has
-- been given a number, which it is when the high-water mark is written, and after any further submissions
-- and deletions, a store opened on what is on disk then gives out greater numbers only, which are greater
-- than those of all envelopes; and they are at most those that the store in memory would give.
pub new_store-answers :
    (p : Platform) (disk : Disk) (before : List Request) (enveloped : Result (Unit {0}))
    (ops : List PublicationOp) (message : Str) (later : List Request)
    → let giving = answers p before (new_store disk) in
      let s =
        answers p
          (persisting (record { marked = ok tt; enveloped = enveloped }) ops message ∷ later)
          giving in
      (giving.next_sequence < (new_store s.disk).next_sequence)
      × (scanned_sequence s.disk.envelopes < (new_store s.disk).next_sequence)
      × ((new_store s.disk).next_sequence ≤ s.next_sequence)
unfolding new_store next_sequence_from_state_dir
new_store-answers p disk before enveloped ops message later =
    let writes : Writes = record { marked = ok tt; enveloped = enveloped } in
    let giving = answers p before (new_store disk) in
    let start : IsBounded 0 (new_store disk) = record {
      reached = omega arith;
      mark_below = omega arith;
      below = omega arith;
    } in
    let b = answers-IsBounded p 0 before (new_store disk) start in
    let x = persist-Persists p writes ops message giving in
    let given = marked-IsBounded 0 (ok tt) giving (persist p writes ops message giving) b x in
    let now : IsBounded giving.next_sequence (persist p writes ops message giving).1 = record {
      reached = reached_now giving x;
      mark_below = given.mark_below;
      below = given.below;
    } in
    let c = answers-IsBounded p giving.next_sequence later _ now in
    (omega (arith, c.reached), omega arith, omega (arith, c.mark_below, c.below))
