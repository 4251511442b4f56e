-- ===== src/Augmentation/RejectionLedger/Plan/Rejections.antt =====
-- What the planning of a stem returns.
use osm_polygon_wikidata_onl.Prelude.{
  all-map, all_of_true, all_both, all_implies, all_in_images, traverse-map, ◌≡◌, refl, ap, ◌∙◌,
  true, ◌&&◌, ◌||◌, not, List, [], ◌∷◌, map, some, is_empty, contains, filter, all, Str, str_eq,
  pair_eq, option_eq, ◌==◌, ==_refl, arith, ok, traverse, is_sorted, distinct, Bool_ext,
}
use osm_polygon_wikidata_onl.Domain.Values.{Value, Row}
use osm_polygon_wikidata_onl.Augmentation.WikivoyageMembership.{
  document_columns, projected, RejectedDocument,
}
use osm_polygon_wikidata_onl.Augmentation.RejectionLedger.{
  RejectionRecord, record_eq, Identity, identity, record_leq, merge_records,
}
use osm_polygon_wikidata_onl.Augmentation.RejectionLedger.Records.{
  is_valid, counted, rejection_record_of_valid, with_cascaded_sections_of_valid,
}
use osm_polygon_wikidata_onl.Augmentation.RejectionLedger.Merge.{is_sortable, merge_records_lem}
use osm_polygon_wikidata_onl.Augmentation.RejectionLedger.Determined.{summary_of_determined}
use osm_polygon_wikidata_onl.Augmentation.RejectionLedger.Plan.{
  Shard, IntegrityPlan, section_columns, valid_qids, read_sections, absent_reason, rejection_of,
  retain_documents, retain_sections, attach_cascade_counts, load_normalization_rows,
  plan_integrity_normalization,
}
use osm_polygon_wikidata_onl.Augmentation.RejectionLedger.Plan.Retained.{
  document_id, is_member, rejected_document, rejected_rows, partition-filters, sections_of, is_kept,
  retain_sections-rows, retain_sections-count,
}
use osm_polygon_wikidata_onl.Augmentation.RejectionLedger.Plan.Acceptance.{
  record_of, is_acceptable, record_of-is_valid, orderable-record_of, ids_lem,
}

module _ (stem : Str) (qids : List Str) (documents sections : List Row) where
  -- What a returned plan is: the rows it keeps, in their order, and its rejections.
  pub record IsPlan (plan : IntegrityPlan) : Type 0 where
    pub documents_kept :
        plan.retained_documents
        ≡ map (projected document_columns) (filter (is_member qids) documents)
    pub sections_kept :
        plan.retained_sections
        ≡ map (projected section_columns) (
            filter
              (λ row.
                not (contains (map document_id (rejected_rows qids documents)) (document_id row)))
              sections)
    pub in_order : is_sorted record_leq plan.rejections ≡ true
    pub unique : distinct (map identity plan.rejections) ≡ true
    pub rejected :
        (r : RejectionRecord)
        → contains plan.rejections r
          ≡ contains (map (record_of stem sections) (rejected_rows qids documents)) r

module _ (stem : Str) (qids : List Str) (documents sections : List Row)
    (named : not (is_empty stem) ≡ true)
    (acceptable : all (λ row. is_member qids row || is_acceptable row) documents ≡ true) where
  abbrev dropped : List Row
  dropped = rejected_rows qids documents

  abbrev records : List RejectionRecord
  records = map (record_of stem sections) dropped

  dropped-acceptable : all is_acceptable dropped ≡ true
  dropped-acceptable = all_of_contains_rows documents acceptable
    where
      all_of_contains_rows :
          (rows : List Row)
          → all (λ row. is_member qids row || is_acceptable row) rows ≡ true
          → all is_acceptable (rejected_rows qids rows) ≡ true
      all_of_contains_rows [] h = refl
      all_of_contains_rows (row ∷ rows) h = ground (arith, all_of_contains_rows rows)

  rejection_of-ok :
      traverse (rejection_of stem) (map rejected_document dropped)
      ≡ ok (map (record_of stem []) dropped)
  unfolding rejection_of
  rejection_of-ok =
      traverse-map (rejection_of stem) rejected_document (record_of stem []) is_acceptable dropped
        (λ row h.
          rejection_record_of_valid (record_of stem [] row) 0
            (record_of-is_valid stem [] row named h))
        dropped-acceptable

  abbrev ids : List Str
  ids = map (λ (r : RejectedDocument). r.document_id) (map rejected_document dropped)

  dropped-in_ids : all (λ row. contains ids (document_id row)) dropped ≡ true
  dropped-in_ids =
      all_in_images document_id dropped ids (λ k m. ap (λ l. contains l k) (ids_lem dropped) ∙ m)

  attach_cascade_counts-ok :
      attach_cascade_counts (map (record_of stem []) dropped) (retain_sections ids [] [] sections).1
      ≡ ok records
  unfolding attach_cascade_counts
  attach_cascade_counts-ok =
      traverse-map _ (record_of stem []) (record_of stem sections)
        (λ row. contains ids (document_id row) && is_acceptable row) dropped
        (λ row h.
          with_cascaded_sections_of_valid (record_of stem [] row) _
            (record_of-is_valid stem [] row named (ground (arith, h)))
          ∙ ap (λ n. ok (counted (record_of stem [] row) n))
              (retain_sections-count ids sections (document_id row) (ground (arith, h))))
        (all_both (λ row. contains ids (document_id row)) is_acceptable dropped dropped-in_ids
          dropped-acceptable)

  records-is_valid : all is_valid records ≡ true
  records-is_valid =
      all-map is_valid (record_of stem sections) dropped
      ∙ all_implies is_acceptable _ dropped (λ row h. record_of-is_valid stem sections row named h)
          dropped-acceptable

  records-is_sortable : is_sortable records ≡ true
  records-is_sortable =
      all-map _ (record_of stem sections) dropped
      ∙ all_of_true _ dropped (λ a.
        all-map _ (record_of stem sections) dropped
        ∙ all_of_true _ dropped (λ b. orderable-record_of stem sections a b))

  abbrev canonical : Identity → RejectionRecord
  canonical k = record {
    shard = k.0;
    source_table = k.1.0;
    identifier = k.1.1.0;
    wikidata = k.1.1.1.0;
    expected = k.1.1.1.1;
    reason = absent_reason;
    cascaded_sections = sections_of k.1.1.0 sections;
  }

  records-determined : all (λ r. r == canonical (identity r)) records ≡ true
  records-determined =
      all-map _ (record_of stem sections) dropped
      ∙ all_of_true _ dropped (λ row. ==_refl (record_of stem sections row))

  planned :
      (merged : List RejectionRecord) × (merge_records records ≡ ok merged)
      × IsPlan stem qids documents sections (record {
        stem = stem;
        retained_documents = map (projected document_columns) (filter (is_member qids) documents);
        retained_sections = (retain_sections ids [] [] sections).0;
        rejections = merged;
      })
  planned =
      let (merged, returned, sums) =
        merge_records_lem records records-is_valid records-is_sortable in
      (
        merged,
        returned,
        record {
          documents_kept = refl;
          sections_kept =
              retain_sections-rows ids [] [] sections
              ∙ ap (λ l. map (projected section_columns) (filter (is_kept l) sections))
                  (ids_lem dropped);
          in_order = sums.in_order;
          unique = sums.unique;
          rejected = λ r.
              let same = summary_of_determined canonical records records-determined r in
              Bool_ext (λ m. same.0 ((sums.members r).0 m)) (λ m. (sums.members r).1 (same.1 m));
        },
      )

-- When the polygons and the documents are there, the stem is a name and each rejected document has an
-- identifier and a Wikidata identifier, the planning returns. It keeps, in their order and with the
-- columns of the schema, the documents whose identifier some polygon carries, and the sections that
-- name no rejected document. Its rejections are, in order and each once, the rejected documents, each
-- with the number of sections that name it.
pub plan_integrity_normalization_lem :
    (shard : Shard) (stem : Str) (polygons : List Value) (documents : List Row)
    → shard.polygons ≡ some polygons
    → shard.documents ≡ some documents
    → not (is_empty stem) ≡ true
    → all (λ row. is_member (valid_qids polygons) row || is_acceptable row) documents ≡ true
    → (plan : IntegrityPlan) × (plan_integrity_normalization shard stem ≡ ok plan)
      × IsPlan stem (valid_qids polygons) documents (read_sections shard.sections) plan
unfolding plan_integrity_normalization load_normalization_rows retain_documents
plan_integrity_normalization_lem shard stem polygons documents has_polygons has_documents named
      acceptable =
    let qids = valid_qids polygons in
    let sections = read_sections shard.sections in
    let (merged, returned, is_plan) = planned stem qids documents sections named acceptable in
    let (kept, dropped_documents) = partition-filters documents qids in
    (
      _,
      rw
          (
            has_polygons,
            has_documents,
            kept,
            dropped_documents,
            rejection_of-ok stem qids documents sections named acceptable,
            attach_cascade_counts-ok stem qids documents sections named acceptable,
            returned,
          )
          refl,
      is_plan,
    )
