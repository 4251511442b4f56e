-- ===== src/Hf/Uploads/Queue/Delivery.antt =====
-- hf/upload_queue.py: `close_and_wait` returns when every accepted job has been dealt with.
use mathlib.Core.Path.{subst}
use mathlib.Core.List.{append-nil}
use osm_polygon_wikidata_onl.Prelude.{
  ℕ, ◌≤◌, ◌≡◌, refl, sym, ap, ap₂, ◌∙◌, true, false, List, [], ◌∷◌, ◌++◌, map, Option, none, some,
  length, arith, Result, ok, err, ltb, if_cases, ok_injective,
}
use osm_polygon_wikidata_onl.Hf.Uploads.{Disk}
use osm_polygon_wikidata_onl.Hf.Uploads.Store.{Store, StoredUpload}
use osm_polygon_wikidata_onl.Hf.Uploads.Resume.{ResumeResult, resume_pending}
use osm_polygon_wikidata_onl.Hf.Uploads.Queue.{
  UploadJob, Queue, Config, new_queue, job_of, resumed, resume, Reach, Starts, fresh, after_resume,
}
use osm_polygon_wikidata_onl.Hf.Uploads.Queue.Marks.{in_hand}
use osm_polygon_wikidata_onl.Hf.Uploads.Queue.Order.{IsOrdered, Reach-IsOrdered}

map-map :
    (uploads : List StoredUpload)
    → map (λ upload. some (job_of upload)) uploads ≡ map some (map job_of uploads)
map-map [] = refl
map-map (u ∷ us) = ap (λ xs. some (job_of u) ∷ xs) (map-map us)

all_taken :
    (open_jobs : List UploadJob) (mark : List (Option UploadJob))
    → [] ≡ map some open_jobs ++ mark
    → open_jobs ≡ []
all_taken [] mark e = refl
all_taken (o ∷ os) mark e = cc

module _ (config : Config) where
  -- A queue that has just been made.
  abbrev pub IsFresh : Queue → Type 0
  IsFresh q =
      (q.jobs ≡ [])
      × (q.waiting ≡ [])
      × (q.current ≡ none)
      × (q.closed ≡ false)
      × (q.worker_done ≡ false)
      × (q.accepted ≡ [])
      × (q.finished ≡ [])
      × (q.delivered ≡ [])
      × (q.failures ≡ 0)

  abbrev pub FreshIfMade : Result Queue → Type 0
  FreshIfMade r = (q : Queue) → r ≡ ok q → IsFresh q

  pub new_queue-IsFresh : (disk : Disk) → FreshIfMade (new_queue config disk)
  unfolding new_queue
  new_queue-IsFresh disk =
      if_cases FreshIfMade (ltb config.max_pending 1) (λ e q h. cc (h))
        (λ _.
          if_cases FreshIfMade (ltb config.attempts 1) (λ e q h. cc (h))
            (λ _ q h.
              let same = ok_injective h in
              subst IsFresh same (refl, refl, refl, refl, refl, refl, refl, refl, refl)))

  fresh-IsOrdered : (q : Queue) → IsFresh q → IsOrdered config q
  fresh-IsOrdered q
        (jobs, waiting, current, closed, done, accepted, finished, delivered, failures) =
      record {
        open_jobs = [];
        shape = rw (jobs, waiting, closed) refl;
        ended = λ d. cc (d, done);
        accounted = rw (accepted, finished, current) refl;
        bounded = rw jobs (omega arith);
        honest = λ h. delivered ∙ sym finished;
      }

  resumed-IsOrdered :
      (q : Queue) {n : ℕ} {r : Queue} (result : Result ResumeResult × Store)
      → IsFresh q
      → resumed q result ≡ (ok n, r)
      → IsOrdered config r
  unfolding resumed
  resumed-IsOrdered q (err e, s) f h = cc (ap (λ (x : Result ℕ × Queue). x.0) h)
  resumed-IsOrdered q (ok found, s)
        (jobs, waiting, current, closed, done, accepted, finished, delivered, failures) h =
      subst (IsOrdered config) (ap (λ (x : Result ℕ × Queue). x.1) h) (record {
        open_jobs = map job_of found.uploads;
        shape =
            rw (jobs, waiting, closed)
              (map-map found.uploads ∙ sym (append-nil (map some (map job_of found.uploads))));
        ended = λ d. cc (d, done);
        accounted = rw (accepted, finished, current) refl;
        bounded = rw jobs (omega arith);
        honest = λ h. delivered ∙ sym finished;
      })

  Starts-IsOrdered : (disk : Disk) {q : Queue} → Starts config disk q → IsOrdered config q
  unfolding resume
  Starts-IsOrdered disk (fresh {q} made) = fresh-IsOrdered q (new_queue-IsFresh disk q made)
  Starts-IsOrdered disk (after_resume {q} {r} {n} made resumes) =
      if_cases (λ (x : Result ℕ × Queue). x ≡ (ok n, r) → IsOrdered config r) config.durable
        (λ e h.
          resumed-IsOrdered q (resume_pending config.platform q.store)
            (new_queue-IsFresh disk q made) h)
        (λ e h.
          subst (IsOrdered config) (ap (λ (x : Result ℕ × Queue). x.1) h)
            (fresh-IsOrdered q (new_queue-IsFresh disk q made)))
        resumes

  -- Where the queue was made, resumed what it found or not, and however its two threads interleave since,
  -- with whatever replies of the callback: no more jobs are queued than allowed; once the worker has
  -- stopped, it has dealt with every accepted job, in the order of acceptance; and if no failure was
  -- counted then, the jobs whose upload returned are all the accepted ones, in that order.
  pub Reach-delivers :
      (disk : Disk) {q r : Queue}
      → Starts config disk q
      → Reach config q r
      → (length r.jobs ≤ config.max_pending)
        × (r.worker_done ≡ true → r.finished ≡ r.accepted)
        × (r.worker_done ≡ true → r.failures ≡ 0 → r.delivered ≡ r.accepted)
  Reach-delivers disk {q} {r} starts steps =
      let o = Reach-IsOrdered config (Starts-IsOrdered disk starts) steps in
      let dealt : r.worker_done ≡ true → r.finished ≡ r.accepted = λ d.
        let (closed, emptied, idle) = o.ended d in
        let none_left = all_taken o.open_jobs _ (sym emptied ∙ o.shape) in
        sym (
          o.accounted
          ∙ (ap₂ (λ c xs. r.finished ++ (in_hand c ++ xs)) idle none_left
              ∙ append-nil r.finished)) in
      (o.bounded, dealt, λ d f. o.honest f ∙ dealt d)
