-- ===== src/Augmentation/RejectionLedger/Plan/Acceptance.antt =====
-- The rejected rows, and the records that stand for them.
use osm_polygon_wikidata_onl.Prelude.{
  ◌≡◌, refl, ap, Bool, true, false, ◌&&◌, not, List, [], ◌∷◌, map, none, some, is_empty, Str, codes,
  str_eq, str_beq, pair_eq, option_eq, ◌==◌, arith, if◌then◌else◌,
}
use osm_polygon_wikidata_onl.Domain.Values.{Row}
use osm_polygon_wikidata_onl.Augmentation.WikivoyageMembership.{RejectedDocument}
use osm_polygon_wikidata_onl.Augmentation.RejectionLedger.{
  RejectionRecord, record_eq, is_supported, has_valid_qid, orderable,
}
use osm_polygon_wikidata_onl.Augmentation.RejectionLedger.Records.{is_valid}
use osm_polygon_wikidata_onl.Augmentation.RejectionLedger.Plan.{absent_reason}
use osm_polygon_wikidata_onl.Augmentation.RejectionLedger.Plan.Retained.{
  document_id, wikidata_of, rejected_document, sections_of,
}

-- The record of a rejected document: it counts the sections that name the document.
abbrev pub record_of : Str → List Row → Row → RejectionRecord
record_of stem sections row = record {
  shard = stem;
  source_table = codes "wikivoyage_documents";
  identifier = document_id row;
  wikidata = some (wikidata_of row);
  expected = none;
  reason = absent_reason;
  cascaded_sections = sections_of (document_id row) sections;
}

-- The constructor of the records accepts a rejected row.
abbrev pub is_acceptable : Row → Bool
is_acceptable row = not (is_empty (document_id row)) && has_valid_qid (wikidata_of row)

valid_parts :
    (named there valid : Bool)
    → named ≡ true
    → (there && valid) ≡ true
    → (named && there && true && true && valid && true) ≡ true
valid_parts named there valid h k = ground arith

pub record_of-is_valid :
    (stem : Str) (sections : List Row) (row : Row)
    → not (is_empty stem) ≡ true
    → is_acceptable row ≡ true
    → is_valid (record_of stem sections row) ≡ true
unfolding is_valid is_supported
record_of-is_valid stem sections row named h =
    valid_parts (not (is_empty stem)) (not (is_empty (document_id row)))
      (has_valid_qid (wikidata_of row)) named h

either_true : (b : Bool) → (if b then true else true) ≡ true
either_true true = refl
either_true false = refl

pub ids_lem :
    (rows : List Row)
    → map (λ (r : RejectedDocument). r.document_id) (map rejected_document rows)
      ≡ map document_id rows
ids_lem [] = refl
ids_lem (row ∷ rows) = ap (λ l. document_id row ∷ l) (ids_lem rows)

pub orderable-record_of :
    (stem : Str) (sections : List Row) (a b : Row)
    → orderable (record_of stem sections a) (record_of stem sections b) ≡ true
unfolding orderable
orderable-record_of stem sections a b =
    either_true (str_beq stem stem && true && document_id a == document_id b)
