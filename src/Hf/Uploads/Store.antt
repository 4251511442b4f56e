-- ===== src/Hf/Uploads/Store.antt =====
-- hf/_upload_state.py: `UploadStateStore` up to `persist`, and its deletions. An exception keeps what has
-- been written.
pub mod Persisting
pub mod Sequences
pub mod Snapshots
use osm_polygon_wikidata_onl.Prelude.{
  ℕ, ◌+◌, Bool, true, false, ◌&&◌, not, List, [], ◌∷◌, ◌++◌, Option, none, some, if◌then◌else◌, any,
  map, is_empty, Str, codes, str_eq, ◌==◌, Dict, get, has, put, erase, filter, Result, Raised, ok,
  err, value_error, runtime_error, file_not_found, os_error, nat_beq,
}
use osm_polygon_wikidata_onl.Json.{
  Json, null, text, number, array, object, items, fields, optional, truthy,
}
use osm_polygon_wikidata_onl.Domain.Chars.{starts_with}
use osm_polygon_wikidata_onl.Domain.Values.{pos, padded}
use osm_polygon_wikidata_onl.Hf.Uploads.{
  PublicationOp, add_action, publication_op, StateName, numbered, state_name_eq, Payload, Disk,
  Platform, next_sequence_from_state_dir, snapshots_root, snapshot_dir_for_sequence, file_name,
}

pub record Store : Type 0 where
  pub disk : Disk
  pub next_sequence : ℕ

-- `UploadStateStore.__init__`
unfoldable pub new_store : Disk → Store
unfolding next_sequence_from_state_dir
new_store disk = record { disk = disk; next_sequence = next_sequence_from_state_dir disk }

abbrev pub Action : Type 0 → Type 0
Action A = Store → Result A × Store

abbrev pub after : {A B : Type 0} → (A → Action B) → Result A × Store → Result B × Store
after f (ok a, s) = f a s
after f (err e, s) = (err e, s)

infixl 5 ◌>>=◌ ◌>>◌
unfoldable pub ◌>>=◌ : {A B : Type 0} → Action A → (A → Action B) → Action B
m >>= f = λ s. after f (m s)

abbrev pub ◌>>◌ : {B : Type 0} → Action (Unit {0}) → Action B → Action B
m >> k = m >>= λ _. k

abbrev pub pure : {A : Type 0} → A → Action A
pure a s = (ok a, s)

abbrev pub raise : {A : Type 0} → Raised → Action A
raise e s = (err e, s)

abbrev pub lift : {A : Type 0} → Result A → Action A
lift r s = (r, s)

-- `except BaseException: cleanup(); raise`
abbrev pub recover : {A : Type 0} → (Store → Store) → Result A × Store → Result A × Store
recover f (ok a, s) = (ok a, s)
recover f (err e, s) = (err e, f s)

unfoldable pub on_error : {A : Type 0} → Action A → (Store → Store) → Action A
on_error m cleanup = λ s. recover cleanup (m s)

abbrev pub in_disk : (Disk → Disk) → Store → Store
in_disk f s = record s { disk = f s.disk }

abbrev pub write_envelope : StateName → Payload → Disk → Disk
write_envelope name payload disk = record disk {
  envelopes = put name (some payload) disk.envelopes;
}

-- `unlink(missing_ok=True)`
abbrev pub unlink : StateName → Disk → Disk
unlink name disk = record disk { envelopes = erase name disk.envelopes }

abbrev outside : Str → Dict Str Str → Dict Str Str
outside dir [] = []
outside dir ((path, content) ∷ rest) =
    let kept = outside dir rest in
    if starts_with (dir ++ codes "/") path then kept else (path, content) ∷ kept

-- `shutil.rmtree(dir, ignore_errors=True)`
unfoldable pub rmtree : Str → Disk → Disk
unfolding starts_with
rmtree dir disk = record disk { files = outside dir disk.files }

-- `_allocate_sequence`, of what `write_highwater` replies: the counter is increased before, and a write
-- that raises writes nothing
unfoldable pub allocate_sequence : Result (Unit {0}) → Action ℕ
allocate_sequence (ok done) s = (
  ok s.next_sequence,
  record {
    disk = record (s.disk) { highwater = some (pos s.next_sequence) };
    next_sequence = s.next_sequence + 1;
  },
)
allocate_sequence (err e) s = (err e, record s { next_sequence = s.next_sequence + 1 })

abbrev pub is_add : PublicationOp → Bool
is_add op = op.action == add_action

unfoldable pub submission_snapshot_dir : Platform → List PublicationOp → ℕ → Option Str
unfolding snapshot_dir_for_sequence
submission_snapshot_dir p ops sequence =
    if any is_add ops then some (snapshot_dir_for_sequence p sequence) else none

abbrev pub Entry : Type 0
Entry = Dict Str Json

unfoldable pub base_entry : PublicationOp → Entry
base_entry op =
    (codes "action", text op.action)
    ∷ (codes "path_in_repo", text op.path_in_repo)
    ∷ (codes "local_path", optional op.local_path)
    ∷ []

-- `snapshot_dir / f"{op_index:03d}" / name`
unfoldable pub snapshot_file : Str → ℕ → Str → Str
unfolding padded file_name
snapshot_file dir op_index local_path =
    dir ++ (codes "/" ++ (padded 3 op_index ++ (codes "/" ++ file_name local_path)))

unfoldable pub copied : Platform → Str → Option Str → Action Str
copied p target none s = (err file_not_found, s)
copied p target (some content) s = (
  ok (p.hash_file content),
  in_disk (λ disk. record disk { files = put target content disk.files }) s,
)

-- `_copy_file`, then `_hash_file`: a copy of a file that is there succeeds
unfoldable pub copy_and_hash : Platform → Str → Str → Action Str
unfolding copied
copy_and_hash p source target s = copied p target (get source s.disk.files) s

abbrev pub hashed_entry : Entry → Str → Str → Entry
hashed_entry entry target sha =
    put (codes "sha256") (text sha) (put (codes "snapshot_path") (text target) entry)

unfoldable pub snapshot_file_of :
    Platform → PublicationOp → ℕ → Str → Entry → Option Str → Action (PublicationOp × Entry)
unfolding snapshot_file copy_and_hash publication_op
snapshot_file_of p op op_index dir entry none = raise value_error
snapshot_file_of p op op_index dir entry (some source) =
    let target = snapshot_file dir op_index source in
    copy_and_hash p source target >>= λ sha.
    lift (publication_op op.action op.path_in_repo (some source) (some target)) >>= λ rewritten.
    pure (rewritten, hashed_entry entry target sha)

unfoldable pub snapshot_add_operation :
    Platform → PublicationOp → ℕ → Option Str → Action (PublicationOp × Entry)
unfolding snapshot_file_of base_entry
snapshot_add_operation p op op_index none = raise runtime_error
snapshot_add_operation p op op_index (some dir) =
    snapshot_file_of p op op_index dir (base_entry op) op.local_path

unfoldable pub snapshot_operation :
    Platform → PublicationOp → ℕ → Option Str → Action (PublicationOp × Entry)
unfolding base_entry snapshot_add_operation
snapshot_operation p op op_index snapshot_dir =
    if not (is_add op)
    then pure (op, base_entry op)
    else snapshot_add_operation p op op_index snapshot_dir

-- the loop of `_snapshot_operations`
unfoldable pub snapshot_loop :
    Platform → Option Str → ℕ → List PublicationOp → Action (List (PublicationOp × Entry))
unfolding snapshot_operation
snapshot_loop p snapshot_dir op_index [] = pure []
snapshot_loop p snapshot_dir op_index (op ∷ ops) =
    snapshot_operation p op op_index snapshot_dir >>= λ first.
    snapshot_loop p snapshot_dir (op_index + 1) ops >>= λ rest. pure (first ∷ rest)

unfoldable pub snapshot_operations :
    Platform → List PublicationOp → ℕ → Action (List (PublicationOp × Entry) × Option Str)
unfolding submission_snapshot_dir snapshot_loop
snapshot_operations p ops sequence =
    let snapshot_dir = submission_snapshot_dir p ops sequence in
    snapshot_loop p snapshot_dir 0 ops >>= λ made. pure (made, snapshot_dir)

abbrev pub queue_contract_version : Str
queue_contract_version = codes "bg-upload-v1"

unfoldable pub envelope_of : ℕ → Str → List Entry → Payload
envelope_of sequence message op_entries =
    (codes "contract_version", text queue_contract_version)
    ∷ (codes "sequence", number (pos sequence))
    ∷ (codes "message", text message)
    ∷ (codes "ops", array (items (map (λ entry. object (fields entry)) op_entries)))
    ∷ []

unfoldable pub remove_tree_inside : Platform → Option Str → Disk → Disk
unfolding snapshots_root rmtree
remove_tree_inside p none disk = disk
remove_tree_inside p (some dir) disk =
    if p.is_inside dir (snapshots_root p) then rmtree dir disk else disk

unfoldable pub cleanup_failed_submission : Platform → StateName → Option Str → Store → Store
unfolding remove_tree_inside
cleanup_failed_submission p state_path snapshot_dir =
    in_disk (λ disk. remove_tree_inside p snapshot_dir (unlink state_path disk))

pub record StoredUpload : Type 0 where
  pub ops : List PublicationOp
  pub message : Str
  pub state_path : StateName
  pub snapshot_dir : Option Str
  pub op_shas : List (Option Json)

unfoldable pub stored_upload :
    Str → StateName → List (PublicationOp × Entry) → Option Str → StoredUpload
stored_upload message state_path made snapshot_dir = record {
  ops = map (λ (m : PublicationOp × Entry). m.0) made;
  message = message;
  state_path = state_path;
  snapshot_dir = snapshot_dir;
  op_shas = map (λ (m : PublicationOp × Entry). get (codes "sha256") m.1) made;
}

-- `atomic_write_text` of the envelope, which may raise and then writes nothing
unfoldable pub atomic_write : Result (Unit {0}) → StateName → Payload → Action (Unit {0})
atomic_write (ok done) name payload s = (ok tt, in_disk (write_envelope name payload) s)
atomic_write (err e) name payload s = (err e, s)

unfoldable pub persist_as :
    Platform → Result (Unit {0}) → List PublicationOp → Str → ℕ → Action StoredUpload
unfolding snapshot_operations snapshot_dir_for_sequence envelope_of cleanup_failed_submission
    stored_upload atomic_write on_error
persist_as p written ops message sequence =
    let state_path = numbered sequence in
    on_error (snapshot_operations p ops sequence)
      (cleanup_failed_submission p state_path (some (snapshot_dir_for_sequence p sequence)))
    >>= λ result.
        on_error
          (atomic_write written state_path
            (envelope_of sequence message (map (λ (m : PublicationOp × Entry). m.1) result.0)))
          (cleanup_failed_submission p state_path result.1)
        >>= λ _. pure (stored_upload message state_path result.0 result.1)

-- What the two writes of a submission reply: that of the high-water mark, and that of the envelope.
pub record Writes : Type 0 where
  pub marked : Result (Unit {0})
  pub enveloped : Result (Unit {0})

unfoldable pub persist : Platform → Writes → List PublicationOp → Str → Action StoredUpload
unfolding allocate_sequence persist_as
persist p writes ops message = allocate_sequence writes.marked >>= λ sequence.
    persist_as p writes.enveloped ops message sequence

-- `delete`
unfoldable pub delete_upload : Platform → StateName → Option Str → Action (Unit {0})
unfolding snapshots_root rmtree
delete_upload p state_path none s = (ok tt, in_disk (unlink state_path) s)
delete_upload p state_path (some dir) s =
    let unlinked = in_disk (unlink state_path) s in
    if p.is_inside dir (snapshots_root p)
    then (ok tt, in_disk (rmtree dir) unlinked)
    else (err value_error, unlinked)

-- `_snapshot_path`
unfoldable pub snapshot_of : PublicationOp → Option Str
snapshot_of op =
    if not (is_add op)
    then none
    else elim op.snapshot_path [ some path ↦ some path | none ↦ op.local_path ]

-- `actual == recorded_sha`
abbrev same_sha : Str → Json → Bool
same_sha actual (text sha) = actual == sha
same_sha actual _ = false

changed_snapshot : Platform → Json → Option Str → Result Bool
changed_snapshot p sha none = err file_not_found
changed_snapshot p sha (some content) = ok (not (same_sha (p.hash_file content) sha))

abbrev recorded : Option Json → Json
recorded none = null
recorded (some sha) = sha

-- whether the snapshot has changed; reading a file that is gone raises
unfoldable pub snapshot_mismatch :
    Platform → PublicationOp → Option Json → Dict Str Str → Result Bool
unfolding snapshot_of truthy changed_snapshot
snapshot_mismatch p op recorded_sha files = elim (snapshot_of op) [
  | none ↦ ok false
  | some path ↦
      if truthy (recorded recorded_sha)
      then changed_snapshot p (recorded recorded_sha) (get path files)
      else ok false
]
