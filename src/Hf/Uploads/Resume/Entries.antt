-- ===== src/Hf/Uploads/Resume/Entries.antt =====
-- hf/_upload_state.py: the entries that `persist` writes for its operations, and what is restored of them.
use osm_polygon_wikidata_onl.Prelude.{
  ℕ, ◌+◌, ◌≡◌, refl, sym, ap, ap₂, ◌∙◌, Bool, true, false, not, List, [], ◌∷◌, ◌++◌, map, Option,
  none, some, if_cases, arith, Str, codes, get, str_eq, ◌==◌, is_empty, Result, ok, err,
  ok_injective, All,
}
use mathlib.Core.Path.{subst}
use osm_polygon_wikidata_onl.Json.{Json, text, object, fields, entries-fields, optional, truthy}
use osm_polygon_wikidata_onl.Hf.Uploads.{
  PublicationOp, add_action, publication_op, validate_action, validate_local_path,
  validate_snapshot_path, state_name_eq, Platform, snapshots_root, snapshot_dir_for_sequence,
  required_string,
}
use osm_polygon_wikidata_onl.Hf.Uploads.Store.{
  Store, Action, after, ◌>>=◌, lift, is_add, Entry, base_entry, hashed_entry, snapshot_file,
  copy_and_hash, snapshot_file_of, snapshot_add_operation, snapshot_operation, snapshot_loop,
}
use osm_polygon_wikidata_onl.Hf.Uploads.Envelopes.{
  path_of, entry_of, validate_resume_snapshot, resume_operation, resume_operations,
}

-- What links and the working directory do not disturb: a snapshot is inside its directory, which is
-- inside the root; and `str` of a text is the text.
pub record IsFaithful (p : Platform) : Type 0 where
  pub inside_root : (n : ℕ) → p.is_inside (snapshot_dir_for_sequence p n) (snapshots_root p) ≡ true
  pub inside_dir :
      (dir : Str) (op_index : ℕ) (path : Str)
      → p.is_inside (snapshot_file dir op_index path) dir ≡ true
  pub text_str : (t : Str) → p.str_of (text t) ≡ t

abbrev pub named_path : Option Str → Bool
named_path none = true
named_path (some path) = not (is_empty path)

-- An operation that the constructor accepts, whose path is not the empty text.
pub record IsMade (op : PublicationOp) : Type 0 where
  pub accepted : publication_op op.action op.path_in_repo op.local_path op.snapshot_path ≡ ok op
  pub named : named_path op.local_path ≡ true

-- What an action that returned has done first.
pub after-ok :
    {A B : Type 0} (f : A → Action B) (r : Result A × Store) {b : B} {t : Store}
    → after f r ≡ (ok b, t)
    → (a : A) × (s : Store) × (r ≡ (ok a, s)) × (f a s ≡ (ok b, t))
after-ok f (ok a, s) h = (a, s, refl, h)
after-ok f (err e, s) h = cc (ap (λ (x : Result _ × Store). x.0) h)

-- A result that an action only passes on.
pub lift-ok : {A : Type 0} (r : Result A) {a : A} {s t : Store} → lift r s ≡ (ok a, t) → r ≡ ok a
lift-ok r h = ap (λ (x : Result _ × Store). x.0) h

-- An operation that is no `add` carries no path.
no_paths :
    (action path_in_repo : Str) (local snapshot : Option Str) {op : PublicationOp}
    → publication_op action path_in_repo local snapshot ≡ ok op
    → (action == add_action) ≡ false
    → (local ≡ none) × (snapshot ≡ none)
unfolding publication_op validate_action validate_local_path validate_snapshot_path
no_paths action path_in_repo none none h e = (refl, refl)
no_paths action path_in_repo (some l) snapshot h e = absurd (ground (arith, h, e))
no_paths action path_in_repo none (some s) h e = absurd (ground (arith, h, e))

resumed_other :
    (p : Platform) (action path_in_repo dir : Str) (local snapshot : Option Str)
    (op : PublicationOp)
    → local ≡ none
    → publication_op action path_in_repo none none ≡ ok op
    → (action == add_action) ≡ false
    → resume_operation p
        ((codes "action", text action)
          ∷ (codes "path_in_repo", text path_in_repo)
          ∷ (codes "local_path", optional local)
          ∷ [])
        dir
      ≡ ok (op, none)
unfolding resume_operation required_string path_of truthy
resumed_other p action path_in_repo dir none snapshot op l made e = rw (e, made) refl
resumed_other p action path_in_repo dir (some x) snapshot op l made e = cc

resumed_add :
    (p : Platform) (action path_in_repo dir source target sha : Str) (rewritten : PublicationOp)
    → publication_op action path_in_repo (some source) (some target) ≡ ok rewritten
    → (action == add_action) ≡ true
    → is_empty source ≡ false
    → is_empty target ≡ false
    → p.is_inside target dir ≡ true
    → resume_operation p
        (hashed_entry
          ((codes "action", text action)
            ∷ (codes "path_in_repo", text path_in_repo)
            ∷ (codes "local_path", optional (some source))
            ∷ [])
          target
          sha)
        dir
      ≡ ok (rewritten, some (text sha))
unfolding resume_operation required_string path_of truthy validate_resume_snapshot
resumed_add p action path_in_repo dir source target sha rewritten made e s t inside =
    rw (e, s, t, inside, made) refl

is_empty-append : (a : Str) (c : ℕ) (b : Str) → is_empty (a ++ (c ∷ b)) ≡ false
is_empty-append [] c b = refl
is_empty-append (x ∷ a) c b = refl

snapshot_file-nonempty :
    (dir : Str) (i : ℕ) (path : Str) → is_empty (snapshot_file dir i path) ≡ false
unfolding snapshot_file
snapshot_file-nonempty dir i path = is_empty-append dir b'/' _

-- What an operation has been made into: restoring its entry gives it back, with its hash.
abbrev pub Restores : Platform → Str → PublicationOp × Entry → Type 0
Restores p dir made = resume_operation p made.1 dir ≡ ok (made.0, get (codes "sha256") made.1)

-- the value of the envelope's `ops`
abbrev pub as_values : List (PublicationOp × Entry) → List Json
as_values made =
    map (λ (entry : Entry). object (fields entry)) (map (λ (m : PublicationOp × Entry). m.1) made)

abbrev pub as_resumed : List (PublicationOp × Entry) → List (PublicationOp × Option Json)
as_resumed made = map (λ (m : PublicationOp × Entry). (m.0, get (codes "sha256") m.1)) made

module _ (p : Platform) (faithful : IsFaithful p) (dir : Str) where
  snapshot_file_of-Restores :
      (op : PublicationOp) (op_index : ℕ) (local : Option Str) (s : Store)
      {made : PublicationOp × Entry} {t : Store}
      → op.local_path ≡ local
      → is_add op ≡ true
      → named_path local ≡ true
      → snapshot_file_of p op op_index dir (base_entry op) local s ≡ (ok made, t)
      → Restores p dir made
  unfolding snapshot_file_of ◌>>=◌ base_entry
  snapshot_file_of-Restores op op_index none s l e n h =
      cc (ap (λ (x : Result (PublicationOp × Entry) × Store). x.0) h)
  snapshot_file_of-Restores op op_index (some source) s l e n h =
      let target = snapshot_file dir op_index source in
      let (sha, s1, copied, h1) = after-ok _ (copy_and_hash p source target s) h in
      let (rewritten, s2, lifted, h2) =
        after-ok _ (lift (publication_op op.action op.path_in_repo (some source) (some target)) s1)
          h1 in
      let made_op =
        lift-ok (publication_op op.action op.path_in_repo (some source) (some target)) {s = s1}
          lifted in
      let result = ok_injective (ap (λ (x : Result (PublicationOp × Entry) × Store). x.0) h2) in
      subst (Restores p dir) result (
        ap
          (λ l.
            resume_operation p
              (hashed_entry
                ((codes "action", text op.action)
                  ∷ (codes "path_in_repo", text op.path_in_repo)
                  ∷ (codes "local_path", optional l)
                  ∷ [])
                target sha)
              dir)
          l
        ∙ resumed_add p op.action op.path_in_repo dir source target sha rewritten made_op e
            (ground (arith, n)) (snapshot_file-nonempty dir op_index source)
            (faithful.inside_dir dir op_index source))

  -- the directory that an operation is snapshotted to, if there is one, is this one
  abbrev pub IsHere : Option Str → Type 0
  IsHere d = (found : Str) → d ≡ some found → dir ≡ found

  snapshot_add_operation-Restores :
      (op : PublicationOp) (op_index : ℕ) (d : Option Str) (s : Store)
      {made : PublicationOp × Entry} {t : Store}
      → IsHere d
      → is_add op ≡ true
      → named_path op.local_path ≡ true
      → snapshot_add_operation p op op_index d s ≡ (ok made, t)
      → Restores p dir made
  unfolding snapshot_add_operation
  snapshot_add_operation-Restores op op_index none s at_dir e n h =
      cc (ap (λ (x : Result (PublicationOp × Entry) × Store). x.0) h)
  snapshot_add_operation-Restores op op_index (some found) s {made} {t} at_dir e n h =
      snapshot_file_of-Restores op op_index op.local_path s refl e n (
        subst (λ f. snapshot_file_of p op op_index f (base_entry op) op.local_path s ≡ (ok made, t))
          (sym (at_dir found refl)) h)

  snapshot_operation-Restores :
      (op : PublicationOp) (op_index : ℕ) (d : Option Str) (s : Store)
      {made : PublicationOp × Entry} {t : Store}
      → IsHere d
      → IsMade op
      → snapshot_operation p op op_index d s ≡ (ok made, t)
      → Restores p dir made
  unfolding snapshot_operation base_entry
  snapshot_operation-Restores op op_index d s {made} {t} at_dir ready =
      if_cases (λ (m : Action (PublicationOp × Entry)). m s ≡ (ok made, t) → Restores p dir made)
        (not (is_add op))
        (λ e h.
          let other : is_add op ≡ false = ground (arith, e) in
          let (l, sn) =
            no_paths op.action op.path_in_repo op.local_path op.snapshot_path ready.accepted
              other in
          subst (Restores p dir)
            (ok_injective (ap (λ (x : Result (PublicationOp × Entry) × Store). x.0) h))
            (resumed_other p op.action op.path_in_repo dir op.local_path op.snapshot_path op l
              (ap₂ (publication_op op.action op.path_in_repo) (sym l) (sym sn) ∙ ready.accepted)
              other))
        (λ e h.
          snapshot_add_operation-Restores op op_index d s at_dir (ground (arith, e)) ready.named h)

  resume_operations-cons :
      (m : PublicationOp × Entry) (made : List (PublicationOp × Entry))
      → Restores p dir m
      → resume_operations p (as_values made) dir ≡ ok (as_resumed made)
      → resume_operations p (as_values (m ∷ made)) dir ≡ ok (as_resumed (m ∷ made))
  unfolding resume_operations entry_of
  resume_operations-cons m made h k = rw (entries-fields m.1, h, k) refl

  pub snapshot_loop-restores :
      (ops : List PublicationOp) (op_index : ℕ) (d : Option Str) (s : Store)
      {made : List (PublicationOp × Entry)} {t : Store}
      → IsHere d
      → All IsMade ops
      → snapshot_loop p d op_index ops s ≡ (ok made, t)
      → resume_operations p (as_values made) dir ≡ ok (as_resumed made)
  unfolding snapshot_loop ◌>>=◌ resume_operations
  snapshot_loop-restores [] op_index d s at_dir ready h =
      subst (λ made. resume_operations p (as_values made) dir ≡ ok (as_resumed made))
        (ok_injective (ap (λ (x : Result (List (PublicationOp × Entry)) × Store). x.0) h)) refl
  snapshot_loop-restores (op ∷ ops) op_index d s at_dir ready h =
      let (first, s1, one, h1) = after-ok _ (snapshot_operation p op op_index d s) h in
      let (rest, s2, others, h2) = after-ok _ (snapshot_loop p d (op_index + 1) ops s1) h1 in
      subst (λ made. resume_operations p (as_values made) dir ≡ ok (as_resumed made))
        (ok_injective (ap (λ (x : Result (List (PublicationOp × Entry)) × Store). x.0) h2))
        (resume_operations-cons first rest
          (snapshot_operation-Restores op op_index d s at_dir ready.0 one)
          (snapshot_loop-restores ops (op_index + 1) d s1 at_dir ready.1 others))
