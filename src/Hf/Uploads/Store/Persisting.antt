-- ===== src/Hf/Uploads/Store/Persisting.antt =====
-- hf/_upload_state.py: what `persist` and `delete` do to the envelopes of the directory.
use osm_polygon_wikidata_onl.Prelude.{
  ℕ, ◌+◌, ◌≤◌, ◌≡◌, refl, sym, ap, ◌∙◌, true, false, ◌||◌, List, [], ◌∷◌, Option, none, some,
  if_cases, str_eq, max, Str, get, has, put, erase, has-put, get-erase, ==_iff, ==_refl, ◌==◌, Dict,
  Result, ok, err, arith, map, get-put, Raised, ok_injective,
}
use osm_polygon_wikidata_onl.Domain.Values.{ℤ, pos}
use osm_polygon_wikidata_onl.Hf.Uploads.{
  PublicationOp, StateName, numbered, state_name_eq, Platform, Payload, scanned_sequence,
  sequence_from_state_path, snapshot_dir_for_sequence,
}
use osm_polygon_wikidata_onl.Hf.Uploads.Store.{
  Store, after, ◌>>=◌, pure, recover, on_error, unlink, allocate_sequence, envelope_of,
  stored_upload, Entry, snapshot_operations, cleanup_failed_submission, StoredUpload, atomic_write,
  persist_as, persist, Writes,
}
use osm_polygon_wikidata_onl.Hf.Uploads.Store.Snapshots.{
  Same, snapshot_operations-Keeps, remove_tree_inside_lem,
}

-- The numbers that a scan of the directory finds.
pub scanned-erase :
    (name : StateName) (d : Dict StateName (Option Payload))
    → scanned_sequence (erase name d) ≤ scanned_sequence d
unfolding scanned_sequence
scanned-erase name [] = omega arith
scanned-erase name ((other, payload) ∷ d) =
    if_cases
      (λ (e : Dict StateName (Option Payload)).
        scanned_sequence e ≤ scanned_sequence ((other, payload) ∷ d))
      (other == name) (λ _. omega (arith, scanned-erase name d))
      (λ _. omega (arith, scanned-erase name d))

scanned-put :
    (n : ℕ) (payload : Payload) (d : Dict StateName (Option Payload))
    → scanned_sequence (put (numbered n) (some payload) d) ≤ max (scanned_sequence d) n
unfolding scanned_sequence sequence_from_state_path
scanned-put n payload [] = omega arith
scanned-put n payload ((other, old) ∷ d) =
    if_cases
      (λ (e : Dict StateName (Option Payload)).
        scanned_sequence e ≤ max (scanned_sequence ((other, old) ∷ d)) n)
      (other == numbered n) (λ same. replaced ((==_iff other (numbered n)).0 same))
      (λ _. omega (arith, scanned-put n payload d))
  where
    replaced :
        other ≡ numbered n
        → scanned_sequence ((other, some payload) ∷ d) ≤ max (scanned_sequence ((other, old) ∷ d)) n
    replaced e = rw e (omega arith)

-- The high-water mark after an allocation.
abbrev pub mark_of : Result (Unit {0}) → Store → Option ℤ
mark_of (ok done) s = some (pos s.next_sequence)
mark_of (err e) s = s.disk.highwater

-- What `persist` makes of the directory: with the next number it writes that envelope, or it does not;
-- all others stay.
pub record Persists (marked : Result (Unit {0})) (s : Store) (r : Result StoredUpload × Store)
    : Type 0 where
  pub counted : r.1.next_sequence ≡ s.next_sequence + 1
  pub anchored : r.1.disk.highwater ≡ mark_of marked s
  pub others :
      (name : StateName)
      → (numbered s.next_sequence == name) ≡ false
      → get name r.1.disk.envelopes ≡ get name s.disk.envelopes
  pub stored :
      (upload : StoredUpload)
      → r.0 ≡ ok upload
      → (upload.state_path ≡ numbered s.next_sequence)
        × (has upload.state_path r.1.disk.envelopes ≡ true)
  pub scanned :
      scanned_sequence r.1.disk.envelopes ≤ max (scanned_sequence s.disk.envelopes) s.next_sequence

-- The same, once the number is allocated.
record PersistsAs (sequence : ℕ) (s : Store) (r : Result StoredUpload × Store) : Type 0 where
  same_next : r.1.next_sequence ≡ s.next_sequence
  same_highwater : r.1.disk.highwater ≡ s.disk.highwater
  others :
      (name : StateName)
      → (numbered sequence == name) ≡ false
      → get name r.1.disk.envelopes ≡ get name s.disk.envelopes
  stored :
      (upload : StoredUpload)
      → r.0 ≡ ok upload
      → (upload.state_path ≡ numbered sequence) × (has upload.state_path r.1.disk.envelopes ≡ true)
  scanned : scanned_sequence r.1.disk.envelopes ≤ max (scanned_sequence s.disk.envelopes) sequence
  failed : (e : Raised) → r.0 ≡ err e → get (numbered sequence) r.1.disk.envelopes ≡ none

cleaned :
    (p : Platform) (sequence : ℕ) (dir : Option Str) (s t : Store) (e : Raised)
    → Same s t
    → PersistsAs sequence s (err e, cleanup_failed_submission p (numbered sequence) dir t)
unfolding cleanup_failed_submission
cleaned p sequence dir s t e same =
    let removed = remove_tree_inside_lem p dir (unlink (numbered sequence) t.disk) in
    record {
      same_next = same.same_next;
      same_highwater = removed.1 ∙ same.same_highwater;
      others = λ name h.
          ap (get name) (removed.0)
          ∙ (get-erase (numbered sequence) name t.disk.envelopes
              ∙ rw h (ap (get name) same.same_envelopes));
      stored = λ upload h. cc (h);
      scanned = omega (
        arith,
        ap scanned_sequence removed.0,
        ap scanned_sequence same.same_envelopes,
        scanned-erase (numbered sequence) t.disk.envelopes,
      );
      failed = λ f h.
          ap (get (numbered sequence)) removed.0
          ∙ (get-erase (numbered sequence) (numbered sequence) t.disk.envelopes
              ∙ rw (==_refl (numbered sequence)));
    }

written-PersistsAs :
    (p : Platform) (written : Result (Unit {0})) (sequence : ℕ) (message : Str) (payload : Payload)
    (made : List (PublicationOp × Entry)) (dir : Option Str) (s t : Store)
    → Same s t
    → PersistsAs sequence s (
        after
          (λ _. pure (stored_upload message (numbered sequence) made dir))
          (recover
            (cleanup_failed_submission p (numbered sequence) dir)
            (atomic_write written (numbered sequence) payload t)))
unfolding atomic_write stored_upload
written-PersistsAs p (err e) sequence message payload made dir s t same =
    cleaned p sequence dir s t e same
written-PersistsAs p (ok done) sequence message payload made dir s t same = record {
  same_next = same.same_next;
  same_highwater = same.same_highwater;
  others = λ name h.
      get-put (numbered sequence) name (some payload) t.disk.envelopes
      ∙ rw h (ap (get name) same.same_envelopes);
  stored = λ upload h.
      let path : upload.state_path ≡ numbered sequence =
        sym (ap (λ (u : StoredUpload). u.state_path) (ok_injective h)) in
      (
        path,
        ap (λ n. has n (put (numbered sequence) (some payload) t.disk.envelopes)) path
            ∙ (has-put (numbered sequence) (numbered sequence) (some payload) t.disk.envelopes
                ∙ ap (λ b. b || has (numbered sequence) t.disk.envelopes)
                    (==_refl (numbered sequence))),
      );
  scanned = omega (
    arith,
    ap scanned_sequence same.same_envelopes,
    scanned-put sequence payload t.disk.envelopes,
  );
  failed = λ e h. cc (h);
}

snapshotted-PersistsAs :
    (p : Platform) (written : Result (Unit {0})) (sequence : ℕ) (message : Str) (dir : Option Str)
    (s : Store) (r : Result (List (PublicationOp × Entry) × Option Str) × Store)
    → Same s r.1
    → PersistsAs sequence s (
        after
          (λ result.
            on_error
              (atomic_write written
                (numbered sequence)
                (envelope_of sequence message (map (λ (m : PublicationOp × Entry). m.1) result.0)))
              (cleanup_failed_submission p (numbered sequence) result.1)
            >>= λ _. pure (stored_upload message (numbered sequence) result.0 result.1))
          (recover (cleanup_failed_submission p (numbered sequence) dir) r))
unfolding on_error ◌>>=◌
snapshotted-PersistsAs p written sequence message dir s (err e, t) same =
    cleaned p sequence dir s t e same
snapshotted-PersistsAs p written sequence message dir s (ok (made, d), t) same =
    written-PersistsAs p written sequence message _ made d s t same

persist_as-PersistsAs :
    (p : Platform) (written : Result (Unit {0})) (ops : List PublicationOp) (message : Str)
    (sequence : ℕ) (s : Store)
    → PersistsAs sequence s (persist_as p written ops message sequence s)
unfolding persist_as on_error ◌>>=◌
persist_as-PersistsAs p written ops message sequence s =
    snapshotted-PersistsAs p written sequence message (some (snapshot_dir_for_sequence p sequence))
      s (snapshot_operations p ops sequence s) (snapshot_operations-Keeps p ops sequence s)

marked-Persists :
    (p : Platform) (marked enveloped : Result (Unit {0})) (ops : List PublicationOp) (message : Str)
    (s : Store)
    → Persists marked s
        ((allocate_sequence marked >>= λ sequence. persist_as p enveloped ops message sequence) s)
unfolding allocate_sequence ◌>>=◌
marked-Persists p (err e) enveloped ops message s = record {
  counted = refl;
  anchored = refl;
  others = λ name h. refl;
  stored = λ upload h. absurd (cc h);
  scanned = omega arith;
}
marked-Persists p (ok done) enveloped ops message s =
    let h =
      persist_as-PersistsAs p enveloped ops message s.next_sequence
        (allocate_sequence (ok done) s).1 in
    record {
      counted = h.same_next;
      anchored = h.same_highwater;
      others = h.others;
      stored = h.stored;
      scanned = h.scanned;
    }

pub persist-Persists :
    (p : Platform) (writes : Writes) (ops : List PublicationOp) (message : Str) (s : Store)
    → Persists writes.marked s (persist p writes ops message s)
unfolding persist
persist-Persists p writes ops message s =
    marked-Persists p writes.marked writes.enveloped ops message s
