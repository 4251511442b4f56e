-- ===== src/Hf/Uploads/Queue/Order.antt =====
-- hf/upload_queue.py: every job that was accepted is dealt with, in the order of acceptance.
use mathlib.Core.List.{append_assoc}
use osm_polygon_wikidata_onl.Prelude.{
  ◌+◌, ◌≤◌, ◌≡◌, refl, sym, ap, ap₂, Str, ◌∙◌, Bool, true, false, List, [], ◌∷◌, ◌++◌, map, none,
  some, length, length-append, arith, Result, ok, err, if_cases,
}
use osm_polygon_wikidata_onl.Hf.Uploads.{PublicationOp}
use osm_polygon_wikidata_onl.Hf.Uploads.Store.{Store, Writes}
use osm_polygon_wikidata_onl.Hf.Uploads.Attempts.{Ended, uploaded, failed, no_attempts}
use osm_polygon_wikidata_onl.Hf.Uploads.Queue.{
  UploadJob, Queue, Config, build_job, put_built, submit, close, delete_job, count_error,
  after_upload, after_verification, verify_job_snapshot, process_job, Step, submitting, closing,
  putting, taking, working, stopping, Reach, here, next,
}
use osm_polygon_wikidata_onl.Hf.Uploads.Queue.Marks.{
  in_hand, end_mark, marked, closed_mark, no_mark, first_job, last_mark,
}

module _ (config : Config) where
  pub record IsOrdered (q : Queue) : Type 0 where
    pub open_jobs : List UploadJob
    pub shape : q.jobs ++ q.waiting ≡ map some open_jobs ++ end_mark q.closed q.worker_done
    pub ended :
        q.worker_done ≡ true → (q.closed ≡ true) × (q.jobs ++ q.waiting ≡ []) × (q.current ≡ none)
    pub accounted : q.accepted ≡ q.finished ++ (in_hand q.current ++ open_jobs)
    pub bounded : length q.jobs ≤ config.max_pending
    pub honest : q.failures ≡ 0 → q.delivered ≡ q.finished

  -- What the worker does with a job leaves the rest of the queue alone, and either counts a failure or
  -- has delivered the job.
  record Finishes (job : UploadJob) (q r : Queue) : Type 0 where
    same_jobs : r.jobs ≡ q.jobs
    same_waiting : r.waiting ≡ q.waiting
    same_current : r.current ≡ q.current
    same_closed : r.closed ≡ q.closed
    same_done : r.worker_done ≡ q.worker_done
    same_accepted : r.accepted ≡ q.accepted
    same_finished : r.finished ≡ q.finished
    delivers : r.failures ≡ 0 → (q.failures ≡ 0) × (r.delivered ≡ q.delivered ++ (job ∷ []))

  failing : (job : UploadJob) (q : Queue) → Finishes job q (record q { failures = q.failures + 1 })
  failing job q = record {
    same_jobs = refl;
    same_waiting = refl;
    same_current = refl;
    same_closed = refl;
    same_done = refl;
    same_accepted = refl;
    same_finished = refl;
    delivers = λ h. absurd (omega arith);
  }

  count_error-Finishes :
      (job : UploadJob) (q : Queue) (r : Result (Unit {0}) × Store)
      → Finishes job q (count_error (record q { delivered = q.delivered ++ (job ∷ []) }) r)
  unfolding count_error
  count_error-Finishes job q (ok done, s) = record {
    same_jobs = refl;
    same_waiting = refl;
    same_current = refl;
    same_closed = refl;
    same_done = refl;
    same_accepted = refl;
    same_finished = refl;
    delivers = λ h. (h, refl);
  }
  count_error-Finishes job q (err e, s) = record {
    same_jobs = refl;
    same_waiting = refl;
    same_current = refl;
    same_closed = refl;
    same_done = refl;
    same_accepted = refl;
    same_finished = refl;
    delivers = λ h. absurd (omega arith);
  }

  after_verification-Finishes :
      (job : UploadJob) (ended : Ended) (q : Queue) (r : Result Bool)
      → Finishes job q (after_verification config job ended q r)
  unfolding after_verification after_upload
  after_verification-Finishes job uploaded q (ok true) =
      count_error-Finishes job q (delete_job config job q.store)
  after_verification-Finishes job (failed error) q (ok true) = failing job q
  after_verification-Finishes job no_attempts q (ok true) = failing job q
  after_verification-Finishes job ended q (ok false) = failing job q
  after_verification-Finishes job ended q (err e) = failing job q

  process_job-IsOrdered :
      (q : Queue) (job : UploadJob) (ended : Ended)
      → IsOrdered q
      → q.current ≡ some job
      → IsOrdered (process_job config job ended (record q { current = none }))
  unfolding process_job
  process_job-IsOrdered q job ended o busy =
      let start = record q { current = none; finished = q.finished ++ (job ∷ []) } in
      let f =
        after_verification-Finishes job ended start (verify_job_snapshot config job q.store) in
      record {
        open_jobs = o.open_jobs;
        shape = rw (f.same_jobs, f.same_waiting, f.same_closed, f.same_done) o.shape;
        ended = λ h.
            let was = o.ended (sym f.same_done ∙ h) in
            (f.same_closed ∙ was.0, rw (f.same_jobs, f.same_waiting) was.1, f.same_current);
        accounted =
            f.same_accepted
            ∙ (o.accounted
                ∙ (ap (λ c. q.finished ++ (in_hand c ++ o.open_jobs)) busy
                    ∙ (sym (append_assoc q.finished (job ∷ []) o.open_jobs)
                        ∙ ap₂ (λ xs c. xs ++ (in_hand c ++ o.open_jobs)) (sym f.same_finished)
                            (sym f.same_current))));
        bounded = rw f.same_jobs o.bounded;
        honest = λ h.
            let (before, delivered) = f.delivers h in
            delivered ∙ (ap (λ xs. xs ++ (job ∷ [])) (o.honest before) ∙ sym f.same_finished);
      }

  put_built-IsOrdered :
      (q : Queue) (r : Result UploadJob × Store)
      → IsOrdered q
      → q.closed ≡ false
      → IsOrdered (put_built q r).1
  unfolding put_built
  put_built-IsOrdered q (err e, s) o h = record {
    open_jobs = o.open_jobs;
    shape = o.shape;
    ended = o.ended;
    accounted = o.accounted;
    bounded = o.bounded;
    honest = o.honest;
  }
  put_built-IsOrdered q (ok job, s) o h = record {
    open_jobs = o.open_jobs ++ (job ∷ []);
    shape =
        sym (append_assoc q.jobs q.waiting (some job ∷ []))
        ∙ (ap (λ xs. xs ++ (some job ∷ [])) o.shape
            ∙ marked o.open_jobs job q.closed q.worker_done h);
    ended = λ d. cc (h, (o.ended d).0);
    accounted =
        ap (λ xs. xs ++ (job ∷ [])) o.accounted
        ∙ (append_assoc q.finished (in_hand q.current ++ o.open_jobs) (job ∷ [])
            ∙ ap (λ xs. q.finished ++ xs)
                (append_assoc (in_hand q.current) o.open_jobs (job ∷ [])));
    bounded = o.bounded;
    honest = o.honest;
  }

  submit-IsOrdered :
      (q : Queue) (written : Writes) (ops : List PublicationOp) (message : Str)
      → IsOrdered q
      → IsOrdered (submit config written ops message q).1
  unfolding submit
  submit-IsOrdered q written ops message o =
      if_cases (λ (r : Result (Unit {0}) × Queue). IsOrdered r.1) q.closed (λ e. o)
        (λ e. put_built-IsOrdered q (build_job config written ops message q.store) o e)

  close-IsOrdered : (q : Queue) → IsOrdered q → IsOrdered (close q)
  unfolding close
  close-IsOrdered q o =
      if_cases IsOrdered q.closed (λ e. o)
        (λ e. record {
          open_jobs = o.open_jobs;
          shape =
              sym (append_assoc q.jobs q.waiting (none ∷ []))
              ∙ (ap (λ xs. xs ++ (none ∷ [])) o.shape
                  ∙ closed_mark o.open_jobs q.closed q.worker_done e (λ d. (o.ended d).0));
          ended = λ d. cc (e, (o.ended d).0);
          accounted = o.accounted;
          bounded = o.bounded;
          honest = o.honest;
        })

  Step-IsOrdered : {q r : Queue} → Step config q r → IsOrdered q → IsOrdered r
  Step-IsOrdered (submitting q written ops message idle) o =
      submit-IsOrdered q written ops message o
  Step-IsOrdered (closing q idle) o = close-IsOrdered q o
  Step-IsOrdered (putting q job rest e room) o =
      let same : (q.jobs ++ (job ∷ [])) ++ rest ≡ q.jobs ++ q.waiting =
        append_assoc q.jobs (job ∷ []) rest ∙ ap (λ xs. q.jobs ++ xs) (sym e) in
      record {
        open_jobs = o.open_jobs;
        shape = same ∙ o.shape;
        ended = λ d. let was = o.ended d in (was.0, same ∙ was.1, was.2);
        accounted = o.accounted;
        bounded = omega (arith, length-append q.jobs (job ∷ []));
        honest = o.honest;
      }
  Step-IsOrdered (taking q job rest working_on idle e) o =
      let (others, opened, shape) =
        first_job o.open_jobs q.closed q.worker_done job
          (ap (λ xs. xs ++ q.waiting) (sym e) ∙ o.shape) in
      record {
        open_jobs = others;
        shape = shape;
        ended = λ d. cc (working_on, d);
        accounted = o.accounted ∙ ap₂ (λ c xs. q.finished ++ (in_hand c ++ xs)) idle opened;
        bounded = omega (arith, o.bounded, ap length e);
        honest = o.honest;
      }
  Step-IsOrdered (working q job ended busy) o = process_job-IsOrdered q job ended o busy
  Step-IsOrdered (stopping q rest working_on idle e) o =
      let (closed, opened, left) =
        last_mark o.open_jobs q.closed q.worker_done
          (ap (λ xs. xs ++ q.waiting) (sym e) ∙ o.shape) in
      record {
        open_jobs = [];
        shape = left ∙ no_mark q.closed;
        ended = λ d. (closed, left, idle);
        accounted = o.accounted ∙ ap (λ xs. q.finished ++ (in_hand q.current ++ xs)) opened;
        bounded = omega (arith, o.bounded, ap length e);
        honest = o.honest;
      }

  pub Reach-IsOrdered : {q r : Queue} → IsOrdered q → Reach config q r → IsOrdered r
  Reach-IsOrdered o here = o
  Reach-IsOrdered o (next steps step) = Step-IsOrdered step (Reach-IsOrdered o steps)
