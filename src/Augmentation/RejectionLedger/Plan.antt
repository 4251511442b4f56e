-- ===== src/Augmentation/RejectionLedger/Plan.antt =====
-- `plan_integrity_normalization` and `apply_integrity_normalization`. The files of one stem are fields
-- of a record; a Parquet file is missing or holds rows. What pyarrow makes of rows under a schema is a
-- parameter.
pub mod Retained
pub mod Acceptance
pub mod Rejections
pub mod Loading
pub mod History
pub mod Application
use osm_polygon_wikidata_onl.Prelude.{
  ℕ, zero, suc, ◌+◌, Bool, true, false, List, [], ◌∷◌, ◌++◌, map, Option, none, some, if◌then◌else◌,
  contains, Str, codes, str_eq, Dict, get, put, Result, ok, err, file_not_found, ◌>>=◌, traverse,
  not,
}
use osm_polygon_wikidata_onl.Json.{null, text}
use osm_polygon_wikidata_onl.Domain.Values.{Value, Row, str_of, pos}
use osm_polygon_wikidata_onl.Domain.Qids.{qids_from_osm_tag}
use osm_polygon_wikidata_onl.Augmentation.WikivoyageMembership.{
  document_columns, projected, cell_text, RejectedDocument, Partition,
  partition_wikivoyage_documents,
}
use osm_polygon_wikidata_onl.Augmentation.RejectionLedger.{
  RejectionRecord, rejection_record, with_cascaded_sections, merge_records,
}
use osm_polygon_wikidata_onl.Augmentation.RejectionLedger.Files.{
  LedgerFile, absent, malformed, holds, Floats, save_ledger, merge_ledger_files,
}

-- `polygons` holds the `wikidata` column alone.
pub record Shard : Type 0 where
  pub polygons : Option (List Value)
  pub documents : Option (List Row)
  pub sections : Option (List Row)
  pub stem_ledger : LedgerFile
  pub ledger : LedgerFile

pub record IntegrityPlan : Type 0 where
  pub stem : Str
  pub retained_documents : List Row
  pub retained_sections : List Row
  pub rejections : List RejectionRecord

abbrev pub section_columns : List Str
section_columns =
    codes "section_id"
    ∷ codes "document_id"
    ∷ codes "article_id"
    ∷ codes "wikidata"
    ∷ codes "project"
    ∷ codes "language"
    ∷ codes "site"
    ∷ codes "page_id"
    ∷ codes "revision_id"
    ∷ codes "section_index"
    ∷ codes "heading"
    ∷ codes "anchor"
    ∷ codes "level"
    ∷ codes "parent_section_id"
    ∷ codes "section_path"
    ∷ codes "text"
    ∷ codes "text_length_chars"
    ∷ codes "text_length_words"
    ∷ codes "text_length_tokens_estimate"
    ∷ codes "content_hash"
    ∷ codes "license"
    ∷ codes "attribution"
    ∷ []

-- the loop over the polygons' tags
unfoldable pub valid_qids : List Value → List Str
valid_qids [] = []
valid_qids (raw ∷ rest) = qids_from_osm_tag (str_of raw) ++ valid_qids rest

abbrev pub required_file {ℓ} : {A : Type ℓ} → Option A → Result A
required_file none = err file_not_found
required_file (some a) = ok a

-- `_read_sections`
abbrev pub read_sections : Option (List Row) → List Row
read_sections none = []
read_sections (some rows) = rows

unfoldable pub load_normalization_rows : Shard → Result (List Str × (List Row × List Row))
load_normalization_rows shard = do
  polygons ← required_file shard.polygons
  documents ← required_file shard.documents
  ok (valid_qids polygons, (documents, read_sections shard.sections))

abbrev pub absent_reason : Str
absent_reason = codes "wikidata_absent_from_polygons"

unfoldable pub rejection_of : Str → RejectedDocument → Result RejectionRecord
rejection_of stem rejected =
    rejection_record (text stem) (text (codes "wikivoyage_documents")) (text rejected.document_id)
      (text rejected.wikidata) null (text absent_reason) (pos 0)

unfoldable pub retain_documents :
    Str → List Str → List Row → Result (List Row × (List Str × List RejectionRecord))
retain_documents stem qids rows =
    let partition = partition_wikivoyage_documents rows qids in
    traverse (rejection_of stem) partition.rejected_documents >>= λ rejections. ok (
      partition.retained_rows,
      (
        map (λ (rejected : RejectedDocument). rejected.document_id) partition.rejected_documents,
        rejections,
      ),
    )

abbrev pub or_zero : Option ℕ → ℕ
or_zero none = 0
or_zero (some n) = n

-- The loop, with the retained rows and the counts so far.
unfoldable pub retain_sections : List Str → List Row → Dict Str ℕ → List Row → List Row × Dict Str ℕ
retain_sections rejected_ids retained cascades [] = (retained, cascades)
retain_sections rejected_ids retained cascades (row ∷ rows) =
    let document_id = cell_text (codes "document_id") row in
    let dropped =
      retain_sections rejected_ids retained
        (put document_id (or_zero (get document_id cascades) + 1) cascades) rows in
    let kept =
      retain_sections rejected_ids (retained ++ (projected section_columns row ∷ [])) cascades
        rows in
    if contains rejected_ids document_id then dropped else kept

unfoldable pub attach_cascade_counts :
    List RejectionRecord → Dict Str ℕ → Result (List RejectionRecord)
attach_cascade_counts rejections cascades =
    traverse (λ r. with_cascaded_sections r (or_zero (get r.identifier cascades))) rejections

unfoldable pub plan_integrity_normalization : Shard → Str → Result IntegrityPlan
plan_integrity_normalization shard stem = load_normalization_rows shard >>= λ rows.
    retain_documents stem rows.0 rows.1.0 >>= λ documents.
    let sections = retain_sections documents.1.0 [] [] rows.1.1 in
    attach_cascade_counts documents.1.1 sections.1 >>= λ counted.
    merge_records counted >>= λ rejections. ok (record {
      stem = stem;
      retained_documents = documents.0;
      retained_sections = sections.0;
      rejections = rejections;
    })

-- the rows that a written table reads back as
pub record Tables : Type 0 where
  pub stored : List Str → List Row → Result (List Row)

-- the cumulative ledger is a source when it is there
abbrev pub ledger_source : LedgerFile → List LedgerFile
ledger_source absent = []
ledger_source file = file ∷ []

-- The writes in their order; one that raises leaves those before it in place.
abbrev pub run_writes : List (Shard → Result Shard) → Shard → Shard × Result (Unit {0})
run_writes [] shard = (shard, ok tt)
run_writes (step ∷ steps) shard = elim (step shard) [
  | err raised ↦ (shard, err raised)
  | ok next ↦ run_writes steps next
]

-- the writes that are done when the application is interrupted
abbrev pub first_writes {ℓ} : {A : Type ℓ} → ℕ → List A → List A
first_writes n [] = []
first_writes zero (x ∷ xs) = []
first_writes (suc n) (x ∷ xs) = x ∷ first_writes n xs

module _ (floats : Floats) (tables : Tables) where
  unfoldable pub write_documents : IntegrityPlan → Shard → Result Shard
  write_documents plan shard = tables.stored document_columns plan.retained_documents >>= λ rows.
      ok (record shard { documents = some rows })

  unfoldable pub write_sections : IntegrityPlan → Shard → Result Shard
  write_sections plan shard = tables.stored section_columns plan.retained_sections >>= λ rows.
      ok (record shard { sections = some rows })

  unfoldable pub save_stem_ledger : IntegrityPlan → Shard → Result Shard
  save_stem_ledger plan shard = save_ledger floats shard.stem_ledger plan.rejections >>= λ saved.
      ok (record shard { stem_ledger = saved })

  unfoldable pub merge_cumulative : IntegrityPlan → Shard → Result Shard
  merge_cumulative plan shard =
      merge_ledger_files floats (shard.stem_ledger ∷ ledger_source shard.ledger) shard.ledger
      >>= λ merged. ok (record shard { ledger = merged })

  abbrev pub apply_steps : IntegrityPlan → List (Shard → Result Shard)
  apply_steps plan =
      write_documents plan
      ∷ write_sections plan
      ∷ save_stem_ledger plan
      ∷ merge_cumulative plan
      ∷ []

  unfoldable pub apply_integrity_normalization : IntegrityPlan → Shard → Shard × Result (Unit {0})
  apply_integrity_normalization plan = run_writes (apply_steps plan)
