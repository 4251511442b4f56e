-- ===== src/Hf/Uploads/Queue/Durability.antt =====
-- hf/upload_queue.py: a job that was accepted is on disk until its upload has returned.
use osm_polygon_wikidata_onl.Prelude.{
  ◌≡◌, refl, ap, ◌∙◌, Bool, true, false, ◌||◌, List, [], ◌∷◌, ◌++◌, Option, none, some, if_cases,
  arith, all, any, Str, get, has, has-get, erase, get-erase, ◌==◌, option_eq, Result, ok, err,
  is_some, Bool-cases, inl, inr, ◌⊎◌,
}
use osm_polygon_wikidata_onl.Hf.Uploads.{StateName, state_name_eq, Disk, snapshots_root}
use osm_polygon_wikidata_onl.Hf.Uploads.Store.{Store, delete_upload, rmtree}
use osm_polygon_wikidata_onl.Hf.Uploads.Attempts.{Ended, uploaded, failed, no_attempts}
use osm_polygon_wikidata_onl.Hf.Uploads.Queue.{
  UploadJob, Queue, Config, new_queue, close, delete_path, delete_job, count_error, after_upload,
  after_verification, verify_job_snapshot, process_job, Step, submitting, closing, putting, taking,
  working, stopping, Reach, here, next,
}
use osm_polygon_wikidata_onl.Hf.Uploads.Queue.Delivery.{new_queue-IsFresh}
use osm_polygon_wikidata_onl.Hf.Uploads.Queue.Keeping.{
  Envelopes, has_path, kept_path, kept, IsDurable, all_mono, any-snoc, submit-IsDurable,
}

-- What a deletion takes from the directory: nothing, or the envelope of the job.
record Deletes (job : UploadJob) (s t : Store) : Type 0 where
  same_next : t.next_sequence ≡ s.next_sequence
  at_most :
      (t.disk.envelopes ≡ s.disk.envelopes)
      ⊎ ((name : StateName) × (job.state_path ≡ some name)
          × (t.disk.envelopes ≡ erase name s.disk.envelopes))

delete_upload-Deletes :
    (config : Config) (job : UploadJob) (name : StateName) (dir : Option Str) (s : Store)
    → job.state_path ≡ some name
    → Deletes job s (delete_upload config.platform name dir s).1
unfolding delete_upload rmtree
delete_upload-Deletes config job name none s e = record {
  same_next = refl;
  at_most = inr (name, e, refl);
}
delete_upload-Deletes config job name (some dir) s e =
    if_cases (λ (r : Result (Unit {0}) × Store). Deletes job s r.1)
      (config.platform.is_inside dir (snapshots_root config.platform))
      (λ _. record { same_next = refl; at_most = inr (name, e, refl) })
      (λ _. record { same_next = refl; at_most = inr (name, e, refl) })

delete_path-Deletes :
    (config : Config) (job : UploadJob) (path : Option StateName) (s : Store)
    → job.state_path ≡ path
    → Deletes job s (delete_path config path job.snapshot_dir s).1
unfolding delete_path
delete_path-Deletes config job none s e = record { same_next = refl; at_most = inl refl }
delete_path-Deletes config job (some name) s e =
    if_cases (λ (r : Result (Unit {0}) × Store). Deletes job s r.1) config.durable
      (λ _. delete_upload-Deletes config job name job.snapshot_dir s e)
      (λ _. record { same_next = refl; at_most = inl refl })

erased_path :
    (envelopes : Envelopes) (delivered : List UploadJob) (job : UploadJob) (name : StateName)
    (path : Option StateName)
    → job.state_path ≡ some name
    → kept_path envelopes delivered path ≡ true
    → kept_path (erase name envelopes) (delivered ++ (job ∷ [])) path ≡ true
erased_path envelopes delivered job name none e h = refl
erased_path envelopes delivered job name (some other) e h = elim (Bool-cases (name == other)) [
  | inl same ↦
      let mine : has_path other job ≡ true =
        ap (λ (o : Option StateName). o == some other) e ∙ same in
      any-snoc_right envelopes delivered job other mine
  | inr differs ↦ ground (
    arith,
    has-get other envelopes,
    has-get other (erase name envelopes),
    get-erase name other envelopes,
    ap is_some {x = get other (erase name envelopes)} {y = get other envelopes},
    any-snoc (has_path other) delivered job,
    h,
    differs,
  )
]
  where
    any-snoc_right :
        (es : Envelopes) (jobs : List UploadJob) (j : UploadJob) (o : StateName)
        → has_path o j ≡ true
        → (has o (erase name es) || any (has_path o) (jobs ++ (j ∷ []))) ≡ true
    any-snoc_right es jobs j o mine = ground (arith, any-snoc (has_path o) jobs j, mine)

kept_delivered :
    (envelopes : Envelopes) (delivered : List UploadJob) (job : UploadJob) (path : Option StateName)
    → kept_path envelopes delivered path ≡ true
    → kept_path envelopes (delivered ++ (job ∷ [])) path ≡ true
kept_delivered envelopes delivered job none h = refl
kept_delivered envelopes delivered job (some name) h =
    ground (arith, any-snoc (has_path name) delivered job, h)

-- After the upload, when the envelope has been deleted or not.
deleted-kept :
    (q : Queue) (job : UploadJob) (t : Store)
    → IsDurable q
    → Deletes job q.store t
    → all (kept t.disk.envelopes (q.delivered ++ (job ∷ []))) q.accepted ≡ true
deleted-kept q job t d x = elim x.at_most [
  | inl same ↦ rw same (
      all_mono (kept q.store.disk.envelopes q.delivered) (kept q.store.disk.envelopes q.delivered) _
        q.accepted (λ j h k. kept_delivered q.store.disk.envelopes q.delivered job j.state_path h)
        d.all_kept d.all_kept)
  | inr (name, path, erased) ↦ rw erased (
      all_mono (kept q.store.disk.envelopes q.delivered) (kept q.store.disk.envelopes q.delivered) _
        q.accepted
        (λ j h k. erased_path q.store.disk.envelopes q.delivered job name j.state_path path h)
        d.all_kept d.all_kept)
]

count_error-IsDurable :
    (q : Queue) (job : UploadJob) (r : Result (Unit {0}) × Store)
    → IsDurable q
    → Deletes job q.store r.1
    → IsDurable (count_error (record q { delivered = q.delivered ++ (job ∷ []) }) r)
unfolding count_error
count_error-IsDurable q job (ok done, t) d x = record {
  all_kept = deleted-kept q job t d x;
  all_old = rw x.same_next d.all_old;
}
count_error-IsDurable q job (err e, t) d x = record {
  all_kept = deleted-kept q job t d x;
  all_old = rw x.same_next d.all_old;
}

after_verification-IsDurable :
    (config : Config) (q : Queue) (job : UploadJob) (ended : Ended) (r : Result Bool)
    → IsDurable q
    → IsDurable (after_verification config job ended q r)
unfolding after_verification after_upload delete_job
after_verification-IsDurable config q job uploaded (ok true) d =
    count_error-IsDurable q job _ d (delete_path-Deletes config job job.state_path q.store refl)
after_verification-IsDurable config q job (failed error) (ok true) d = record {
  all_kept = d.all_kept;
  all_old = d.all_old;
}
after_verification-IsDurable config q job no_attempts (ok true) d = record {
  all_kept = d.all_kept;
  all_old = d.all_old;
}
after_verification-IsDurable config q job ended (ok false) d = record {
  all_kept = d.all_kept;
  all_old = d.all_old;
}
after_verification-IsDurable config q job ended (err e) d = record {
  all_kept = d.all_kept;
  all_old = d.all_old;
}

Step-IsDurable : (config : Config) {q r : Queue} → Step config q r → IsDurable q → IsDurable r
unfolding close process_job
Step-IsDurable config (submitting q written ops message idle) d =
    submit-IsDurable config q written ops message d
Step-IsDurable config (closing q idle) d =
    if_cases IsDurable q.closed (λ _. d)
      (λ _. record { all_kept = d.all_kept; all_old = d.all_old })
Step-IsDurable config (putting q job rest e room) d = record {
  all_kept = d.all_kept;
  all_old = d.all_old;
}
Step-IsDurable config (taking q job rest working_on idle e) d = record {
  all_kept = d.all_kept;
  all_old = d.all_old;
}
Step-IsDurable config (working q job ended busy) d =
    after_verification-IsDurable config
      (record q { current = none; finished = q.finished ++ (job ∷ []) }) job ended
      (verify_job_snapshot config job q.store)
      (record { all_kept = d.all_kept; all_old = d.all_old })
Step-IsDurable config (stopping q rest working_on idle e) d = record {
  all_kept = d.all_kept;
  all_old = d.all_old;
}

Reach-IsDurable : (config : Config) {q r : Queue} → IsDurable q → Reach config q r → IsDurable r
Reach-IsDurable config d here = d
Reach-IsDurable config d (next steps step) =
    Step-IsDurable config step (Reach-IsDurable config d steps)

-- However submissions that succeed or fail, uploads with whatever replies and deletions interleave from a
-- new queue on: at every moment each accepted job that has a place in the state directory still has its
-- envelope there, or its upload has returned.
pub Reach-keeps :
    (config : Config) (disk : Disk) {q r : Queue}
    → new_queue config disk ≡ ok q
    → Reach config q r
    → all (kept r.store.disk.envelopes r.delivered) r.accepted ≡ true
Reach-keeps config disk {q} made steps =
    let (_, _, _, _, _, accepted, _, _, _) = new_queue-IsFresh config disk q made in
    (Reach-IsDurable config (record { all_kept = rw accepted refl; all_old = rw accepted refl })
      steps).all_kept
