-- ===== src/Hf/Uploads/Resume/RoundTrip.antt =====
-- hf/_upload_state.py: what `persist` has written, `resume_pending` restores.
use osm_polygon_wikidata_onl.Prelude.{
  ℕ, ◌≡◌, refl, sym, ap, ◌∙◌, true, false, List, [], ◌∷◌, map, Option, some, if_cases, arith, Str,
  codes, get, str_eq, Result, ok, err, ok_injective, All, any, get-put, ==_refl, contains, nat_eq,
  ◌≤◌, ltb,
}
use mathlib.Core.Path.{subst}
use osm_polygon_wikidata_onl.Json.{Json, listed-items}
use osm_polygon_wikidata_onl.Hf.Uploads.{
  PublicationOp, StateName, numbered, state_name_eq, Platform, Payload, snapshot_dir_for_sequence,
}
use osm_polygon_wikidata_onl.Hf.Uploads.Store.{
  Store, ◌>>=◌, is_add, Entry, snapshot_loop, snapshot_operations, submission_snapshot_dir,
  envelope_of, StoredUpload, stored_upload, persist, persist_as, allocate_sequence, on_error,
  Writes, recover, atomic_write,
}
use osm_polygon_wikidata_onl.Hf.Uploads.Envelopes.{
  Job, current, classify_envelope, ops_of, resume_operations,
}
use osm_polygon_wikidata_onl.Hf.Uploads.Resume.Entries.{
  IsFaithful, IsMade, after-ok, IsHere, as_values, as_resumed, snapshot_loop-restores,
}
use osm_polygon_wikidata_onl.Hf.Uploads.Resume.{restored_upload, restored_ops, restore_pending_job}

some_injective : {a b : Str} → some a ≡ some b → a ≡ b
some_injective h = cc

module _ (p : Platform) (faithful : IsFaithful p) where
  -- the envelope of a submission, as a job of that number
  abbrev pub job_at : ℕ → Payload → Job
  job_at sequence payload = record {
    sequence = sequence;
    state_path = numbered sequence;
    envelope = payload;
  }

  abbrev pub restored_as : ℕ → StoredUpload → StoredUpload
  restored_as sequence stored = record stored {
    snapshot_dir = some (snapshot_dir_for_sequence p sequence);
  }

  abbrev pub Restored : ℕ → Payload → StoredUpload → Type 0
  Restored sequence payload stored =
      restore_pending_job p (job_at sequence payload) ≡ ok (some (restored_as sequence stored))

  map-map_op :
      (made : List (PublicationOp × Entry))
      → map (λ (m : PublicationOp × Option Json). m.0) (as_resumed made)
        ≡ map (λ (m : PublicationOp × Entry). m.0) made
  map-map_op [] = refl
  map-map_op (m ∷ made) = ap (λ rest. m.0 ∷ rest) (map-map_op made)

  map-map_sha :
      (made : List (PublicationOp × Entry))
      → map (λ (m : PublicationOp × Option Json). m.1) (as_resumed made)
        ≡ map (λ (m : PublicationOp × Entry). get (codes "sha256") m.1) made
  map-map_sha [] = refl
  map-map_sha (m ∷ made) = ap (λ rest. get (codes "sha256") m.1 ∷ rest) (map-map_sha made)

  envelope-Restored :
      (sequence : ℕ) (message : Str) (dir : Option Str) (made : List (PublicationOp × Entry))
      → resume_operations p (as_values made) (snapshot_dir_for_sequence p sequence)
        ≡ ok (as_resumed made)
      → Restored sequence
          (envelope_of sequence message (map (λ (m : PublicationOp × Entry). m.1) made))
          (stored_upload message (numbered sequence) made dir)
  unfolding restore_pending_job envelope_of ops_of restored_ops restored_upload stored_upload
  envelope-Restored sequence message dir made h =
      let values = as_values made in
      rw
        (
          faithful.inside_root sequence,
          listed-items values,
          h,
          faithful.text_str message,
          map-map_op made,
          map-map_sha made,
        )
        refl

  recover-ok :
      {A : Type 0} (cleanup : Store → Store) (r : Result A × Store) {a : A} {t : Store}
      → recover cleanup r ≡ (ok a, t)
      → r ≡ (ok a, t)
  recover-ok cleanup (ok a, s) h = h
  recover-ok cleanup (err e, s) h = cc (ap (λ (x : Result _ × Store). x.0) h)

  written_then :
      (written : Result (Unit {0})) (name : StateName) (payload : Payload) (s : Store)
      {u : Unit {0}} {t : Store}
      → atomic_write written name payload s ≡ (ok u, t)
      → get name t.disk.envelopes ≡ some (some payload)
  unfolding atomic_write
  written_then (ok done) name payload s h =
      ap (λ (x : Result (Unit {0}) × Store). get name x.1.disk.envelopes) (sym h)
      ∙ (get-put name name (some payload) s.disk.envelopes ∙ rw (==_refl name))
  written_then (err e) name payload s h = cc (ap (λ (x : Result (Unit {0}) × Store). x.0) h)

  dir-IsHere :
      (ops : List PublicationOp) (sequence : ℕ)
      → IsHere p faithful
          (snapshot_dir_for_sequence p sequence)
          (submission_snapshot_dir p ops sequence)
  unfolding submission_snapshot_dir
  dir-IsHere ops sequence =
      if_cases (IsHere p faithful (snapshot_dir_for_sequence p sequence)) (any is_add ops)
        (λ _ found h. some_injective h) (λ _ found h. cc (h))

  made_once :
      (ops : List PublicationOp) (sequence : ℕ) (s : Store)
      {result : List (PublicationOp × Entry) × Option Str} {t : Store}
      → All IsMade ops
      → snapshot_operations p ops sequence s ≡ (ok result, t)
      → resume_operations p (as_values result.0) (snapshot_dir_for_sequence p sequence)
        ≡ ok (as_resumed result.0)
  unfolding snapshot_operations ◌>>=◌
  made_once ops sequence s ready h =
      let dir = submission_snapshot_dir p ops sequence in
      let (made, s1, looped, h1) = after-ok _ (snapshot_loop p dir 0 ops s) h in
      subst
        (λ (result : List (PublicationOp × Entry) × Option Str).
          resume_operations p (as_values result.0) (snapshot_dir_for_sequence p sequence)
          ≡ ok (as_resumed result.0))
        (ok_injective
          (ap (λ (x : Result (List (PublicationOp × Entry) × Option Str) × Store). x.0) h1))
        (snapshot_loop-restores p faithful (snapshot_dir_for_sequence p sequence) ops 0 dir s
          (dir-IsHere ops sequence) ready looped)

  -- What `persist` leaves for a restart: the envelope under its name, which is read as a current one of
  -- that number and restored to the stored upload.
  pub record IsRecoverable (sequence : ℕ) (stored : StoredUpload) (t : Store) : Type 0 where
    pub payload : Payload
    pub on_disk : get stored.state_path t.disk.envelopes ≡ some (some payload)
    pub is_current :
        (seen : List ℕ)
        → contains seen sequence ≡ false
        → classify_envelope (some payload) seen ≡ ok (current payload sequence)
    pub restored : Restored sequence payload stored

  envelope_current :
      (sequence : ℕ) (message : Str) (op_entries : List Entry) (seen : List ℕ)
      → 1 ≤ sequence
      → contains seen sequence ≡ false
      → classify_envelope (some (envelope_of sequence message op_entries)) seen
        ≡ ok (current (envelope_of sequence message op_entries) sequence)
  unfolding classify_envelope envelope_of
  envelope_current sequence message op_entries seen positive new =
      let test : ltb 0 sequence ≡ true = ground (arith, positive) in rw (test, new) refl

  made-IsRecoverable :
      (message : Str) (sequence : ℕ) (made : List (PublicationOp × Entry)) (dir : Option Str)
      (t : Store)
      → 1 ≤ sequence
      → get (numbered sequence) t.disk.envelopes
        ≡ some (some (envelope_of sequence message (map (λ (m : PublicationOp × Entry). m.1) made)))
      → resume_operations p (as_values made) (snapshot_dir_for_sequence p sequence)
        ≡ ok (as_resumed made)
      → IsRecoverable sequence (stored_upload message (numbered sequence) made dir) t
  unfolding stored_upload
  made-IsRecoverable message sequence made dir t positive on_disk resumed = record {
    payload = envelope_of sequence message (map (λ (m : PublicationOp × Entry). m.1) made);
    on_disk = on_disk;
    is_current = λ seen new. envelope_current sequence message _ seen positive new;
    restored = envelope-Restored sequence message dir made resumed;
  }

  persist_as-IsRecoverable :
      (written : Result (Unit {0})) (ops : List PublicationOp) (message : Str) (sequence : ℕ)
      (s : Store) {stored : StoredUpload} {t : Store}
      → 1 ≤ sequence
      → All IsMade ops
      → persist_as p written ops message sequence s ≡ (ok stored, t)
      → IsRecoverable sequence stored t
  unfolding persist_as on_error ◌>>=◌
  persist_as-IsRecoverable written ops message sequence s {stored} {t} positive ready h =
      let name = numbered sequence in
      let (result, s1, snapshots, h1) =
        after-ok _ (recover _ (snapshot_operations p ops sequence s)) h in
      let op_entries = map (λ (m : PublicationOp × Entry). m.1) result.0 in
      let (u, s2, wrote, h2) =
        after-ok _
          (recover _ (atomic_write written name (envelope_of sequence message op_entries) s1)) h1 in
      let same_store : s2 ≡ t = ap (λ (x : Result StoredUpload × Store). x.1) h2 in
      let same : stored_upload message name result.0 result.1 ≡ stored =
        ok_injective (ap (λ (x : Result StoredUpload × Store). x.0) h2) in
      subst (λ (x : StoredUpload). IsRecoverable sequence x t) same
        (subst (IsRecoverable sequence (stored_upload message name result.0 result.1)) same_store (
          made-IsRecoverable message sequence result.0 result.1 s2 positive
            (written_then written name (envelope_of sequence message op_entries) s1 (
              recover-ok _ (atomic_write written name (envelope_of sequence message op_entries) s1)
                wrote))
            (made_once ops sequence s ready
              (recover-ok _ (snapshot_operations p ops sequence s) snapshots))))

marked-IsRecoverable :
    (p : Platform) (faithful : IsFaithful p) (marked enveloped : Result (Unit {0}))
    (ops : List PublicationOp) (message : Str) (s : Store) {stored : StoredUpload} {t : Store}
    → 1 ≤ s.next_sequence
    → All IsMade ops
    → (allocate_sequence marked >>= λ sequence. persist_as p enveloped ops message sequence) s
      ≡ (ok stored, t)
    → IsRecoverable p faithful s.next_sequence stored t
unfolding allocate_sequence ◌>>=◌
marked-IsRecoverable p faithful (err e) enveloped ops message s positive ready h = absurd (cc h)
marked-IsRecoverable p faithful (ok done) enveloped ops message s positive ready h =
    persist_as-IsRecoverable p faithful enveloped ops message s.next_sequence _ positive ready h

-- Where each operation is one that the constructor accepts and has no empty path, and the platform keeps
-- snapshots inside their directory: an upload that `persist` has returned has its envelope under its name;
-- a restart reads that as a current envelope of its number, unless it has seen the number before, and
-- restores it to the same operations with their snapshots, the same message and the same hashes.
pub persist-IsRecoverable :
    (p : Platform) (faithful : IsFaithful p) (writes : Writes) (ops : List PublicationOp)
    (message : Str) (s : Store) {stored : StoredUpload} {t : Store}
    → 1 ≤ s.next_sequence
    → All IsMade ops
    → persist p writes ops message s ≡ (ok stored, t)
    → IsRecoverable p faithful s.next_sequence stored t
unfolding persist
persist-IsRecoverable p faithful writes ops message s positive ready h =
    marked-IsRecoverable p faithful writes.marked writes.enveloped ops message s positive ready h
