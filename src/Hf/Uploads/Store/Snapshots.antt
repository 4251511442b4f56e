-- ===== src/Hf/Uploads/Store/Snapshots.antt =====
-- hf/_upload_state.py: what snapshots and their removal leave of the directory as it was.
use osm_polygon_wikidata_onl.Prelude.{
  ℕ, ◌+◌, ◌≡◌, refl, ◌∙◌, not, List, [], ◌∷◌, Option, none, some, if_cases, str_eq, Str, get,
  Result, ok, err,
}
use osm_polygon_wikidata_onl.Hf.Uploads.{
  PublicationOp, publication_op, state_name_eq, Platform, Disk, snapshots_root,
}
use osm_polygon_wikidata_onl.Hf.Uploads.Store.{
  Store, Action, after, ◌>>=◌, lift, rmtree, is_add, snapshot_add_operation, copied, copy_and_hash,
  snapshot_file_of, snapshot_operation, submission_snapshot_dir, snapshot_loop, Entry,
  snapshot_operations, remove_tree_inside, base_entry, snapshot_file,
}

-- The envelopes, the high-water mark and the counter are as they were.
pub record Same (s t : Store) : Type 0 where
  pub same_envelopes : t.disk.envelopes ≡ s.disk.envelopes
  pub same_highwater : t.disk.highwater ≡ s.disk.highwater
  pub same_next : t.next_sequence ≡ s.next_sequence

pub Same-refl : (s : Store) → Same s s
Same-refl s = record { same_envelopes = refl; same_highwater = refl; same_next = refl }

Same-trans : {s t u : Store} → Same s t → Same t u → Same s u
Same-trans a b = record {
  same_envelopes = b.same_envelopes ∙ a.same_envelopes;
  same_highwater = b.same_highwater ∙ a.same_highwater;
  same_next = b.same_next ∙ a.same_next;
}

-- An action that changes files at most.
abbrev Keeps : {A : Type 0} → Action A → Type 0
Keeps m = (s : Store) → Same s (m s).1

after-Same :
    {A B : Type 0} (f : A → Action B) (s : Store) (r : Result A × Store)
    → Same s r.1
    → ((a : A) → Keeps (f a))
    → Same s (after f r).1
after-Same f s (ok a, t) h k = Same-trans h (k a t)
after-Same f s (err e, t) h k = h

>>=-Keeps :
    {A B : Type 0} (m : Action A) (f : A → Action B)
    → Keeps m
    → ((a : A) → Keeps (f a))
    → Keeps (m >>= f)
unfolding ◌>>=◌
>>=-Keeps m f h k s = after-Same f s (m s) (h s) k

copied-Keeps :
    (p : Platform) (target : Str) (content : Option Str) → Keeps (copied p target content)
unfolding copied
copied-Keeps p target none s = Same-refl s
copied-Keeps p target (some content) s = record {
  same_envelopes = refl;
  same_highwater = refl;
  same_next = refl;
}

copy_and_hash-Keeps : (p : Platform) (source target : Str) → Keeps (copy_and_hash p source target)
unfolding copy_and_hash
copy_and_hash-Keeps p source target s = copied-Keeps p target (get source s.disk.files) s

snapshot_file_of-Keeps :
    (p : Platform) (op : PublicationOp) (op_index : ℕ) (dir : Str) (entry : Entry)
    (local : Option Str)
    → Keeps (snapshot_file_of p op op_index dir entry local)
unfolding snapshot_file_of
snapshot_file_of-Keeps p op op_index dir entry none = Same-refl
snapshot_file_of-Keeps p op op_index dir entry (some source) =
    >>=-Keeps _ _ (copy_and_hash-Keeps p source (snapshot_file dir op_index source)) (λ sha.
      >>=-Keeps
        (lift (
          publication_op op.action op.path_in_repo (some source)
            (some (snapshot_file dir op_index source))))
        _ Same-refl (λ rewritten. Same-refl))

snapshot_add_operation-Keeps :
    (p : Platform) (op : PublicationOp) (op_index : ℕ) (dir : Option Str)
    → Keeps (snapshot_add_operation p op op_index dir)
unfolding snapshot_add_operation
snapshot_add_operation-Keeps p op op_index none = Same-refl
snapshot_add_operation-Keeps p op op_index (some dir) =
    snapshot_file_of-Keeps p op op_index dir (base_entry op) op.local_path

snapshot_operation-Keeps :
    (p : Platform) (op : PublicationOp) (op_index : ℕ) (dir : Option Str)
    → Keeps (snapshot_operation p op op_index dir)
unfolding snapshot_operation
snapshot_operation-Keeps p op op_index dir =
    if_cases Keeps (not (is_add op)) (λ _. Same-refl)
      (λ _. snapshot_add_operation-Keeps p op op_index dir)

snapshot_loop-Keeps :
    (p : Platform) (dir : Option Str) (op_index : ℕ) (ops : List PublicationOp)
    → Keeps (snapshot_loop p dir op_index ops)
unfolding snapshot_loop
snapshot_loop-Keeps p dir op_index [] = Same-refl
snapshot_loop-Keeps p dir op_index (op ∷ ops) =
    >>=-Keeps _ _ (snapshot_operation-Keeps p op op_index dir)
      (λ made. >>=-Keeps _ _ (snapshot_loop-Keeps p dir (op_index + 1) ops) (λ rest. Same-refl))

pub snapshot_operations-Keeps :
    (p : Platform) (ops : List PublicationOp) (sequence : ℕ)
    → Keeps (snapshot_operations p ops sequence)
unfolding snapshot_operations
snapshot_operations-Keeps p ops sequence =
    >>=-Keeps _ _ (snapshot_loop-Keeps p (submission_snapshot_dir p ops sequence) 0 ops)
      (λ made. Same-refl)

-- Removing a tree changes no envelope.
pub remove_tree_inside_lem :
    (p : Platform) (dir : Option Str) (disk : Disk)
    → ((remove_tree_inside p dir disk).envelopes ≡ disk.envelopes)
      × ((remove_tree_inside p dir disk).highwater ≡ disk.highwater)
unfolding remove_tree_inside rmtree
remove_tree_inside_lem p none disk = (refl, refl)
remove_tree_inside_lem p (some dir) disk =
    if_cases (λ (d : Disk). (d.envelopes ≡ disk.envelopes) × (d.highwater ≡ disk.highwater))
      (p.is_inside dir (snapshots_root p)) (λ _. (refl, refl)) (λ _. (refl, refl))
