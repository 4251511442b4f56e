-- ===== src/Examples/Rejections.antt =====
-- A stem with a polygon of Q1, a document of Q1 with one section, and a document of Q2 with two.
use osm_polygon_wikidata_onl.Prelude.{
  ℕ, ◌≡◌, refl, false, List, [], ◌∷◌, ◌++◌, none, some, Str, codes, ok, err, value_error, sort,
  arith,
}
use osm_polygon_wikidata_onl.Domain.Values.{Value, null, text, Row, str_of, get_or}
use osm_polygon_wikidata_onl.Augmentation.RejectionLedger.{
  RejectionRecord, merge_records, record_leq, is_supported, has_valid_qid, orderable,
  rejection_record, require_nonempty_string, validate_source_table, validate_rejection_qid,
  validate_cascaded_sections,
}
use osm_polygon_wikidata_onl.Augmentation.RejectionLedger.Records.{is_valid}
use osm_polygon_wikidata_onl.Augmentation.RejectionLedger.Merge.{Summarized, merge_records_lem}
use osm_polygon_wikidata_onl.Augmentation.RejectionLedger.Files.{
  LedgerFile, absent, holds, Floats, payload, to_dict, load_ledger, load_payload, load_record,
  get_of, item_of, check_version, iterated, int_of_json, save_ledger,
}
use osm_polygon_wikidata_onl.Augmentation.RejectionLedger.Files.RoundTrip.{save_ledger-load}
use osm_polygon_wikidata_onl.Augmentation.RejectionLedger.Plan.{
  Shard, IntegrityPlan, Tables, load_normalization_rows, retain_documents, rejection_of, valid_qids,
  absent_reason, plan_integrity_normalization, apply_integrity_normalization, apply_steps,
  run_writes, first_writes,
}
use osm_polygon_wikidata_onl.Augmentation.RejectionLedger.Plan.Rejections.{
  IsPlan, plan_integrity_normalization_lem,
}
use osm_polygon_wikidata_onl.Augmentation.RejectionLedger.Plan.Application.{
  CanApply, apply_integrity_normalization-keeps, apply_integrity_normalization-resumes,
}
use osm_polygon_wikidata_onl.Domain.Qids.{qids_from_osm_tag, is_valid_qid, from_keys}
use osm_polygon_wikidata_onl.Domain.Chars.{split, strip, is_space}
use osm_polygon_wikidata_onl.Augmentation.WikivoyageMembership.{
  cell_text, partition_wikivoyage_documents,
}

abbrev stem : Str
stem = codes "monaco"

abbrev polygons : List Value
polygons = text (codes "Q1") ∷ []

abbrev document : Str → Str → Row
document id qid = (codes "document_id", text id) ∷ (codes "wikidata", text qid) ∷ []

abbrev section : Str → Row
section id = (codes "document_id", text id) ∷ []

abbrev documents : List Row
documents = document (codes "a") (codes "Q1") ∷ document (codes "b") (codes "Q2") ∷ []

abbrev sections : List Row
sections = section (codes "b") ∷ section (codes "a") ∷ section (codes "b") ∷ []

abbrev files : Shard
files = record {
  polygons = some polygons;
  documents = some documents;
  sections = some sections;
  stem_ledger = absent;
  ledger = absent;
}

plan_integrity_normalization_lem_example :
    (plan : IntegrityPlan) × (plan_integrity_normalization files stem ≡ ok plan)
    × IsPlan stem (valid_qids polygons) documents sections plan
unfolding valid_qids has_valid_qid str_of cell_text get_or qids_from_osm_tag split is_valid_qid
    strip is_space from_keys
plan_integrity_normalization_lem_example =
    plan_integrity_normalization_lem files stem polygons documents refl refl refl refl

-- the rejected document, as it is counted now and as it was before
abbrev rejection : Str → ℕ → RejectionRecord
rejection shard count = record {
  shard = shard;
  source_table = codes "wikivoyage_documents";
  identifier = codes "b";
  wikidata = some (codes "Q2");
  expected = none;
  reason = absent_reason;
  cascaded_sections = count;
}

abbrev counts : List RejectionRecord
counts = rejection stem 2 ∷ rejection stem 5 ∷ []

merge_records_lem_example :
    (merged : List RejectionRecord) × (merge_records counts ≡ ok merged) × Summarized counts merged
unfolding is_valid has_valid_qid orderable is_supported qids_from_osm_tag split is_valid_qid strip
    is_space from_keys
merge_records_lem_example = merge_records_lem counts refl refl

-- Python's floats, of which none occurs here
abbrev floats : Floats
floats = record { equals = λ f n. false; truncated = λ f. err value_error }

save_ledger-load_example :
    (saved : LedgerFile) × (save_ledger floats absent counts ≡ ok saved)
    × (load_ledger floats saved ≡ ok (sort record_leq counts))
    × (save_ledger floats saved counts ≡ ok saved)
unfolding is_valid has_valid_qid orderable is_supported qids_from_osm_tag split is_valid_qid strip
    is_space from_keys
save_ledger-load_example =
    save_ledger-load floats absent counts (λ f n h. absurd (cc h)) refl refl refl

abbrev tables : Tables
tables = record { stored = λ columns rows. ok rows }

abbrev plan : IntegrityPlan
plan = record {
  stem = stem;
  retained_documents = document (codes "a") (codes "Q1") ∷ [];
  retained_sections = section (codes "a") ∷ [];
  rejections = rejection stem 2 ∷ [];
}

abbrev olds : List RejectionRecord
olds = rejection (codes "malta") 1 ∷ rejection stem 5 ∷ []

abbrev with_history : Shard
with_history = record files { ledger = holds (payload olds) }

can_apply :
    CanApply floats tables plan with_history olds plan.retained_documents plan.retained_sections
unfolding is_valid has_valid_qid orderable is_supported qids_from_osm_tag split is_valid_qid strip
    is_space from_keys payload to_dict load_ledger load_payload load_record get_of item_of
    check_version iterated int_of_json rejection_record require_nonempty_string
    validate_source_table validate_rejection_qid validate_cascaded_sections
can_apply = record {
  documents_stored = refl;
  sections_stored = refl;
  decodable = refl;
  loaded = refl;
  valid = refl;
  in_order = refl;
  sortable = refl;
}

apply_integrity_normalization-keeps_example :
    (merged : List RejectionRecord) × (final : Shard) × (apply_integrity_normalization floats tables
        plan with_history
      ≡ (final, ok tt))
    × (final.documents ≡ some plan.retained_documents)
    × (final.sections ≡ some plan.retained_sections)
    × (load_ledger floats final.ledger ≡ ok merged)
    × Summarized (plan.rejections ++ olds) merged
apply_integrity_normalization-keeps_example =
    apply_integrity_normalization-keeps floats tables (λ f n h. absurd (cc h)) plan with_history
      olds plan.retained_documents plan.retained_sections can_apply

apply_integrity_normalization-resumes_example :
    apply_integrity_normalization floats tables plan
      (run_writes (first_writes 2 (apply_steps floats tables plan)) with_history).0
    ≡ apply_integrity_normalization floats tables plan with_history
apply_integrity_normalization-resumes_example =
    apply_integrity_normalization-resumes floats tables (λ f n h. absurd (cc h)) plan with_history
      olds plan.retained_documents plan.retained_sections can_apply 2 (omega arith)

-- A document whose Wikidata identifier is null ends the planning of its stem.
null_document :
    plan_integrity_normalization
      (record files {
        documents =
            some (((codes "document_id", text (codes "c")) ∷ (codes "wikidata", null) ∷ []) ∷ []);
      })
      stem
    ≡ err value_error
unfolding plan_integrity_normalization load_normalization_rows retain_documents
    partition_wikivoyage_documents valid_qids qids_from_osm_tag split str_of is_valid_qid strip
    is_space from_keys get_or rejection_of rejection_record is_supported
null_document = refl

abbrev expecting : RejectionRecord
expecting = record (rejection stem 1) { expected = some (codes "Q1") }

-- Records that differ in the expected identifier only are kept in the order they came in.
order_of_arrival :
    (sort record_leq (rejection stem 1 ∷ expecting ∷ []) ≡ rejection stem 1 ∷ expecting ∷ [])
    × (sort record_leq (expecting ∷ rejection stem 1 ∷ []) ≡ expecting ∷ rejection stem 1 ∷ [])
order_of_arrival = (refl, refl)
