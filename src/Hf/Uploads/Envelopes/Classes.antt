-- ===== src/Hf/Uploads/Envelopes/Classes.antt =====
-- hf/_upload_state.py: which files `_pending_envelopes` takes for what, and which directories it refuses.
use osm_polygon_wikidata_onl.Prelude.{
  ℕ, ◌≡◌, refl, sym, ap, ◌∙◌, Bool, true, false, ◌&&◌, not, List, [], ◌∷◌, ◌++◌, map, Option, none,
  some, all, if◌then◌else◌, arith, Result, ok, err, value_error, contains, distinct, nat_eq, ◌==◌,
  ==_iff, sort, get, has-get, is_some, codes, str_eq, Bool-cases, inl, inr, ltb,
}
use mathlib.Core.List.{append-nil, append_assoc}
use osm_polygon_wikidata_onl.Json.{Json, null, boolean, number, fraction, text, array, object}
use osm_polygon_wikidata_onl.Domain.Values.{pos, negsuc}
use osm_polygon_wikidata_onl.Hf.Uploads.{
  StateName, Payload, Disk, is_legacy_envelope, current_sequence, positive_sequence, is_text,
  is_array,
}
use osm_polygon_wikidata_onl.Hf.Uploads.Envelopes.{
  Job, Classified, legacy, current, is_version, current_of, classify_envelope, Found, add_found,
  found_next, collect_envelopes, by_name, pending_envelopes,
}

-- What a file is, by what it decodes to.
pub data Kind : Type 0 where
  unusable : Kind
  old : Payload → Kind
  queued : Payload → ℕ → Kind

-- the kind of an envelope with a version, of its sequence number
abbrev numbered_kind : Payload → Option Json → Kind
numbered_kind payload (some (number (pos n))) = if ltb 0 n then queued payload n else unusable
numbered_kind payload _ = unusable

-- Without a version an envelope is an old one if its message is a text and its operations are a list;
-- with the version of the queue it is a queued one if its sequence number is positive.
abbrev pub kind_of : Payload → Option Json → Option Json → Option Json → Option Json → Kind
kind_of payload none message ops sequence =
    if is_text message && is_array ops then old payload else unusable
kind_of payload (some (text version)) message ops sequence =
    if version == codes "bg-upload-v1" then numbered_kind payload sequence else unusable
kind_of payload (some _) message ops sequence = unusable

abbrev pub kind : Option Payload → Kind
kind none = unusable
kind (some payload) =
    kind_of payload (get (codes "contract_version") payload) (get (codes "message") payload)
      (get (codes "ops") payload) (get (codes "sequence") payload)

abbrev pub Files : Type 0
Files = List (StateName × Option Payload)

abbrev pub is_usable : Kind → Bool
is_usable unusable = false
is_usable _ = true

abbrev pub with_job : StateName → Kind → List Job → List Job
with_job name (queued payload n) jobs =
    record { sequence = n; state_path = name; envelope = payload } ∷ jobs
with_job name _ jobs = jobs

abbrev pub with_old : StateName → Kind → List (StateName × Payload) → List (StateName × Payload)
with_old name (old payload) rest = (name, payload) ∷ rest
with_old name _ rest = rest

-- the queued envelopes among some files, and the old ones
abbrev pub jobs_in : Files → List Job
jobs_in [] = []
jobs_in ((name, payload) ∷ files) = with_job name (kind payload) (jobs_in files)

abbrev pub olds_in : Files → List (StateName × Payload)
olds_in [] = []
olds_in ((name, payload) ∷ files) = with_old name (kind payload) (olds_in files)

abbrev pub all_usable : Files → Bool
all_usable [] = true
all_usable ((name, payload) ∷ files) = is_usable (kind payload) && all_usable files

abbrev pub sequences : List Job → List ℕ
sequences jobs = map (λ (job : Job). job.sequence) jobs

-- a set with more numbers, the last one first
abbrev pub added : List ℕ → List ℕ → List ℕ
added seen [] = seen
added seen (n ∷ ns) = added (n ∷ seen) ns

-- The answer of `_classify_pending_envelope` for a kind.
abbrev answer : Kind → List ℕ → Result Classified
answer unusable seen = err value_error
answer (old payload) seen = ok (legacy payload)
answer (queued payload n) seen = if contains seen n then err value_error else ok (current payload n)

numbered_answer :
    (payload : Payload) (seen : List ℕ) (sequence : Option Json)
    → current_of payload seen (positive_sequence sequence)
      ≡ answer (numbered_kind payload sequence) seen
unfolding current_of positive_sequence
numbered_answer payload seen none = refl
numbered_answer payload seen (some null) = refl
numbered_answer payload seen (some (boolean b)) = refl
numbered_answer payload seen (some (fraction f)) = refl
numbered_answer payload seen (some (text t)) = refl
numbered_answer payload seen (some (array a)) = refl
numbered_answer payload seen (some (object o)) = refl
numbered_answer payload seen (some (number (negsuc n))) = refl
numbered_answer payload seen (some (number (pos n))) = elim (Bool-cases (ltb 0 n)) [
  | inl e ↦ rw e refl
  | inr e ↦ rw e refl
]

kind_answer :
    (payload : Payload) (seen : List ℕ) (version message ops sequence : Option Json)
    → (if not (is_some version) && is_text message && is_array ops
        then ok (legacy payload)
        else if is_version version
        then current_of payload seen (positive_sequence sequence)
        else err value_error)
      ≡ answer (kind_of payload version message ops sequence) seen
kind_answer payload seen none message ops sequence =
    elim (Bool-cases (is_text message && is_array ops)) [ inl e ↦ rw e refl | inr e ↦ rw e refl ]
kind_answer payload seen (some (text version)) message ops sequence =
    elim (Bool-cases (version == codes "bg-upload-v1")) [
      | inl e ↦ rw e (numbered_answer payload seen sequence)
      | inr e ↦ rw e refl
    ]
kind_answer payload seen (some null) message ops sequence = refl
kind_answer payload seen (some (boolean b)) message ops sequence = refl
kind_answer payload seen (some (number n)) message ops sequence = refl
kind_answer payload seen (some (fraction f)) message ops sequence = refl
kind_answer payload seen (some (array a)) message ops sequence = refl
kind_answer payload seen (some (object o)) message ops sequence = refl

classify_envelope-answer :
    (payload : Option Payload) (seen : List ℕ)
    → classify_envelope payload seen ≡ answer (kind payload) seen
unfolding classify_envelope current_sequence is_legacy_envelope
classify_envelope-answer none seen = refl
classify_envelope-answer (some payload) seen = rw (has-get (codes "contract_version") payload) (
    kind_answer payload seen (get (codes "contract_version") payload)
      (get (codes "message") payload) (get (codes "ops") payload) (get (codes "sequence") payload))

-- Numbers that a set does not have, and of which none occurs twice.
abbrev fresh : List ℕ → List ℕ → Bool
fresh seen [] = true
fresh seen (n ∷ ns) = not (contains seen n) && fresh (n ∷ seen) ns

-- What the loop gives from what it has found.
abbrev gathered : Found → Files → Result Found
gathered found files =
    if all_usable files && fresh found.seen_sequences (sequences (jobs_in files))
    then ok (record {
      currents = found.currents ++ jobs_in files;
      legacies = found.legacies ++ olds_in files;
      seen_sequences = added found.seen_sequences (sequences (jobs_in files));
    })
    else err value_error

module _ (name : StateName) (files : Files) (found : Found)
    (rest : (f : Found) → collect_envelopes files f ≡ gathered f files) where
  gathered_next :
      (k : Kind)
      → found_next (collect_envelopes files) name found (answer k found.seen_sequences) ≡ (
          if (is_usable k && all_usable files)
            && fresh found.seen_sequences (sequences (with_job name k (jobs_in files)))
          then ok (record {
            currents = found.currents ++ with_job name k (jobs_in files);
            legacies = found.legacies ++ with_old name k (olds_in files);
            seen_sequences =
                added found.seen_sequences (sequences (with_job name k (jobs_in files)));
          })
          else err value_error)
  unfolding found_next add_found
  gathered_next unusable = refl
  gathered_next (old payload) =
      rw (sym (append_assoc found.legacies ((name, payload) ∷ []) (olds_in files))) (rest _)
  gathered_next (queued payload n) = elim (Bool-cases (contains found.seen_sequences n)) [
    | inl e ↦ rw e (elim (Bool-cases (all_usable files)) [ inl u ↦ rw u refl | inr u ↦ rw u refl ])
    | inr e ↦
        let job : Job = record { sequence = n; state_path = name; envelope = payload } in
        rw e (rw (sym (append_assoc found.currents (job ∷ []) (jobs_in files))) (rest _))
  ]

collect_envelopes-gathered :
    (files : Files) (found : Found) → collect_envelopes files found ≡ gathered found files
unfolding collect_envelopes
collect_envelopes-gathered [] found =
    rw (append-nil found.currents) (rw (append-nil found.legacies) refl)
collect_envelopes-gathered ((name, payload) ∷ files) found =
    rw (classify_envelope-answer payload found.seen_sequences)
      (gathered_next name files found (collect_envelopes-gathered files) (kind payload))

-- One number more in the set.
all_new :
    (seen : List ℕ) (n : ℕ) (ns : List ℕ)
    → all (λ m. not (contains (n ∷ seen) m)) ns
      ≡ (not (contains ns n) && all (λ m. not (contains seen m)) ns)
all_new seen n [] = refl
all_new seen n (m ∷ ns) = ground (arith, all_new seen n ns, ==_iff n m, ==_iff m n)

fresh-distinct :
    (seen ns : List ℕ) → fresh seen ns ≡ (all (λ n. not (contains seen n)) ns && distinct ns)
fresh-distinct seen [] = refl
fresh-distinct seen (n ∷ ns) = ground (arith, fresh-distinct (n ∷ seen) ns, all_new seen n ns)

nothing_seen : (ns : List ℕ) → all (λ n. not (contains {A = ℕ} [] n)) ns ≡ true
nothing_seen [] = refl
nothing_seen (n ∷ ns) = nothing_seen ns

-- `_pending_envelopes` takes the files in the order of their names. If each is a queued envelope or an old
-- one, and no sequence number occurs twice, it gives the queued ones with their numbers, the old ones, and
-- the numbers; otherwise it raises a ValueError. What is a queued or an old envelope is said by the fields
-- that it has.
pub pending_envelopes_lem :
    (disk : Disk)
    → let files = sort by_name disk.envelopes in
      pending_envelopes disk ≡ (
        if all_usable files && distinct (sequences (jobs_in files))
        then ok (record {
          currents = jobs_in files;
          legacies = olds_in files;
          seen_sequences = added [] (sequences (jobs_in files));
        })
        else err value_error)
unfolding pending_envelopes
pending_envelopes_lem disk =
    let files = sort by_name disk.envelopes in
    let numbers = sequences (jobs_in files) in
    let same : fresh [] numbers ≡ distinct numbers =
      fresh-distinct [] numbers ∙ ap (λ b. b && distinct numbers) (nothing_seen numbers) in
    rw (sym same) (collect_envelopes-gathered files _)
