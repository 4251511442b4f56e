-- ===== src/Hf/Uploads/Queue/Marks.antt =====
-- hf/upload_queue.py: the queue of jobs with the mark that ends the worker.
use mathlib.Core.List.{append-nil, map-append}
use osm_polygon_wikidata_onl.Prelude.{
  ◌≡◌, refl, sym, ap, ◌∙◌, Bool, true, false, not, ◌&&◌, List, [], ◌∷◌, ◌++◌, map, Option, none,
  some, if◌then◌else◌,
}
use osm_polygon_wikidata_onl.Hf.Uploads.Queue.{UploadJob}

abbrev pub in_hand : Option UploadJob → List UploadJob
in_hand none = []
in_hand (some job) = job ∷ []

-- The None that ends the worker, from its `put` to its `get`.
abbrev pub end_mark : Bool → Bool → List (Option UploadJob)
end_mark closed done = if closed && not done then none ∷ [] else []

pub marked :
    (open_jobs : List UploadJob) (job : UploadJob) (closed done : Bool)
    → closed ≡ false
    → (map some open_jobs ++ end_mark closed done) ++ (some job ∷ [])
      ≡ map some (open_jobs ++ (job ∷ [])) ++ end_mark closed done
marked open_jobs job false done h =
    ap (λ xs. xs ++ (some job ∷ [])) (append-nil (map some open_jobs))
    ∙ (sym (map-append some open_jobs (job ∷ []))
        ∙ sym (append-nil (map some (open_jobs ++ (job ∷ [])))))
marked open_jobs job true done h = cc

pub closed_mark :
    (open_jobs : List UploadJob) (closed done : Bool)
    → closed ≡ false
    → (done ≡ true → closed ≡ true)
    → (map some open_jobs ++ end_mark closed done) ++ (none ∷ [])
      ≡ map some open_jobs ++ end_mark true done
closed_mark open_jobs false false h k =
    ap (λ xs. xs ++ (none ∷ [])) (append-nil (map some open_jobs))
closed_mark open_jobs false true h k = cc (k refl)
closed_mark open_jobs true done h k = cc

pub no_mark : (closed : Bool) → [] ≡ end_mark closed true
no_mark true = refl
no_mark false = refl

-- The first of the jobs that are open.
pub first_job :
    (open_jobs : List UploadJob) (closed done : Bool) (job : UploadJob)
    {rest : List (Option UploadJob)}
    → some job ∷ rest ≡ map some open_jobs ++ end_mark closed done
    → (others : List UploadJob) × (open_jobs ≡ job ∷ others)
      × (rest ≡ map some others ++ end_mark closed done)
first_job [] true true job e = cc
first_job [] true false job e = cc
first_job [] false done job e = cc
first_job (o ∷ os) closed done job e = (os, cc, cc)

-- The end mark stands last.
pub last_mark :
    (open_jobs : List UploadJob) (closed done : Bool) {rest : List (Option UploadJob)}
    → none ∷ rest ≡ map some open_jobs ++ end_mark closed done
    → (closed ≡ true) × (open_jobs ≡ []) × (rest ≡ [])
last_mark [] true true e = cc
last_mark [] true false e = (refl, refl, cc)
last_mark [] false done e = cc
last_mark (o ∷ os) closed done e = cc
