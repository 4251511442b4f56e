-- ===== src/Hf/Uploads/Queue/Keeping.antt =====
-- hf/upload_queue.py: a submission that is accepted has its envelope on disk.
use osm_polygon_wikidata_onl.Prelude.{
  ℕ, ◌+◌, ◌≡◌, refl, ap, Bool, true, false, ◌||◌, List, [], ◌∷◌, ◌++◌, Option, none, some, if_cases,
  ltb, arith, all, any, Str, Dict, get, has, has-get, ◌==◌, option_eq, Result, ok, err, is_some,
}
use osm_polygon_wikidata_onl.Hf.Uploads.{
  StateName, numbered, named, state_name_eq, Payload, PublicationOp,
}
use osm_polygon_wikidata_onl.Hf.Uploads.Store.{Writes, Store, StoredUpload, persist}
use osm_polygon_wikidata_onl.Hf.Uploads.Store.Persisting.{Persists, persist-Persists}
use osm_polygon_wikidata_onl.Hf.Uploads.Queue.{
  UploadJob, Queue, Config, job_of, built, build_job, put_built, submit,
}

abbrev pub Envelopes : Type 0
Envelopes = Dict StateName (Option Payload)

abbrev pub has_path : StateName → UploadJob → Bool
has_path name job = job.state_path == some name

abbrev pub kept_path : Envelopes → List UploadJob → Option StateName → Bool
kept_path envelopes delivered none = true
kept_path envelopes delivered (some name) = has name envelopes || any (has_path name) delivered

-- A job without a state directory, or one whose envelope is on disk or whose upload has returned.
abbrev pub kept : Envelopes → List UploadJob → UploadJob → Bool
kept envelopes delivered job = kept_path envelopes delivered job.state_path

abbrev old_path : ℕ → Option StateName → Bool
old_path n none = true
old_path n (some (numbered m)) = ltb m n
old_path n (some (named name)) = true

abbrev old : ℕ → UploadJob → Bool
old n job = old_path n job.state_path

pub record IsDurable (q : Queue) : Type 0 where
  pub all_kept : all (kept q.store.disk.envelopes q.delivered) q.accepted ≡ true
  pub all_old : all (old q.store.next_sequence) q.accepted ≡ true

-- Tests on lists.
pub all_mono :
    (f g h : UploadJob → Bool) (jobs : List UploadJob)
    → ((job : UploadJob) → f job ≡ true → g job ≡ true → h job ≡ true)
    → all f jobs ≡ true
    → all g jobs ≡ true
    → all h jobs ≡ true
all_mono f g h [] m p q = refl
all_mono f g h (job ∷ jobs) m p q = ground (arith, all_mono f g h jobs m, m job, p, q)

all-snoc :
    (f : UploadJob → Bool) (jobs : List UploadJob) (job : UploadJob)
    → all f jobs ≡ true
    → f job ≡ true
    → all f (jobs ++ (job ∷ [])) ≡ true
all-snoc f [] job h k = ground (arith, k)
all-snoc f (j ∷ jobs) job h k = ground (arith, all-snoc f jobs job, h, k)

pub any-snoc :
    (f : UploadJob → Bool) (jobs : List UploadJob) (job : UploadJob)
    → any f (jobs ++ (job ∷ [])) ≡ (any f jobs || f job)
any-snoc f [] job = ground arith
any-snoc f (j ∷ jobs) job = ground (arith, any-snoc f jobs job)

-- Envelopes that keep their place under old names.
kept_again :
    (n : ℕ) (before after : Envelopes) (delivered : List UploadJob)
    → ((name : StateName) → (numbered n == name) ≡ false → get name after ≡ get name before)
    → (path : Option StateName) → kept_path before delivered path ≡ true
    → old_path n path ≡ true
    → kept_path after delivered path ≡ true
kept_again n before after delivered same none h k = refl
kept_again n before after delivered same (some (numbered m)) h k = ground (
  arith,
  same (numbered m),
  has-get (numbered m) before,
  has-get (numbered m) after,
  ap is_some {x = get (numbered m) after} {y = get (numbered m) before},
  h,
  k,
)
kept_again n before after delivered same (some (named name)) h k = ground (
  arith,
  same (named name),
  has-get (named name) before,
  has-get (named name) after,
  ap is_some {x = get (named name) after} {y = get (named name) before},
  h,
)

older : (n : ℕ) (path : Option StateName) → old_path n path ≡ true → old_path (n + 1) path ≡ true
older n none h = refl
older n (some (numbered m)) h = ground (arith, h)
older n (some (named name)) h = refl

-- The others of the queue's jobs, after `persist`.
persisted-kept :
    (marked : Result (Unit {0})) (q : Queue) (r : Result StoredUpload × Store)
    → IsDurable q
    → Persists marked q.store r
    → (all (kept r.1.disk.envelopes q.delivered) q.accepted ≡ true)
      × (all (old r.1.next_sequence) q.accepted ≡ true)
persisted-kept marked q r d p = (
  all_mono (kept q.store.disk.envelopes q.delivered) (old q.store.next_sequence)
      (kept r.1.disk.envelopes q.delivered) q.accepted
      (λ job.
        kept_again q.store.next_sequence q.store.disk.envelopes r.1.disk.envelopes q.delivered
          p.others job.state_path)
      d.all_kept d.all_old,
  rw p.counted (
      all_mono (old q.store.next_sequence) (old q.store.next_sequence)
        (old (q.store.next_sequence + 1)) q.accepted
        (λ job h k. older q.store.next_sequence job.state_path h) d.all_old d.all_old),
)

put_built-IsDurable :
    (marked : Result (Unit {0})) (q : Queue) (r : Result StoredUpload × Store)
    → IsDurable q
    → Persists marked q.store r
    → IsDurable (put_built q (built r)).1
unfolding put_built built
put_built-IsDurable marked q (err e, s) d p =
    let (all_kept, all_old) = persisted-kept marked q (err e, s) d p in
    record { all_kept = all_kept; all_old = all_old }
put_built-IsDurable marked q (ok upload, s) d p =
    let (all_kept, all_old) = persisted-kept marked q (ok upload, s) d p in
    let (path, on_disk) = p.stored upload refl in
    record {
      all_kept =
          all-snoc (kept s.disk.envelopes q.delivered) q.accepted (job_of upload) all_kept
            (ap (λ b. b || any (has_path upload.state_path) q.delivered) on_disk);
      all_old =
          all-snoc (old s.next_sequence) q.accepted (job_of upload) all_old
            (rw (path, p.counted) (ground arith));
    }

in_memory :
    (q : Queue) (job : UploadJob)
    → IsDurable q
    → job.state_path ≡ none
    → IsDurable (put_built q (ok job, q.store)).1
unfolding put_built
in_memory q job d e = record {
  all_kept =
      all-snoc (kept q.store.disk.envelopes q.delivered) q.accepted job d.all_kept (rw e refl);
  all_old = all-snoc (old q.store.next_sequence) q.accepted job d.all_old (rw e refl);
}

pub submit-IsDurable :
    (config : Config) (q : Queue) (written : Writes) (ops : List PublicationOp) (message : Str)
    → IsDurable q
    → IsDurable (submit config written ops message q).1
unfolding submit build_job
submit-IsDurable config q written ops message d =
    if_cases (λ (r : Result (Unit {0}) × Queue). IsDurable r.1) q.closed (λ _. d)
      (λ _.
        if_cases (λ (r : Result UploadJob × Store). IsDurable (put_built q r).1) config.durable
          (λ _.
            put_built-IsDurable written.marked q
              (persist config.platform written ops message q.store) d
              (persist-Persists config.platform written ops message q.store))
          (λ _. in_memory q _ d refl))
