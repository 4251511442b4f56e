-- ===== src/Domain/Links/Validate/Rows.antt =====
-- What a coerced row satisfies, and that a canonical row is coerced to itself.
use osm_polygon_wikidata_onl.Prelude.{◌≡◌, true, [], ◌∷◌, arith, codes, ok, >>=-eq-ok}
use osm_polygon_wikidata_onl.Domain.Stems.{is_safe_stem}
use osm_polygon_wikidata_onl.Domain.Qids.{is_valid_qid}
use osm_polygon_wikidata_onl.Domain.Values.{text, int, Row, str_of, int_of}
use osm_polygon_wikidata_onl.Domain.Links.{
  LinkRow, document_id_project, document_id_wikidata, document_id_language,
}
use osm_polygon_wikidata_onl.Domain.Links.Validate.{
  Cells, is_project, slot_is, slot_allows, copy_canonical_columns, coerce_cells, coerce_row,
}

-- The strict identity invariants of the module.
pub record IsCanonical (r : LinkRow) : Type 0 where
  pub safe_polygon : is_safe_stem (str_of r.polygon_id) ≡ true
  pub known_project : is_project r.project ≡ true
  pub project_slot : slot_is (document_id_project (str_of r.document_id)) r.project ≡ true
  pub language_slot : slot_allows (document_id_language (str_of r.document_id)) r.language ≡ true
  pub valid_qid : is_valid_qid (str_of r.wikidata) ≡ true
  pub wikidata_slot :
      slot_allows (document_id_wikidata (str_of r.document_id)) (text (str_of r.wikidata)) ≡ true

-- The dictionary that a link row is in Python.
unfoldable pub to_row : LinkRow → Row
to_row r =
    (codes "polygon_id", r.polygon_id)
    ∷ (codes "document_id", r.document_id)
    ∷ (codes "project", r.project)
    ∷ (codes "wikidata", r.wikidata)
    ∷ (codes "language", r.language)
    ∷ (codes "source_pbf", r.source_pbf)
    ∷ (codes "region", r.region)
    ∷ (codes "osm_type", r.osm_type)
    ∷ (codes "osm_id", int r.osm_id)
    ∷ (codes "page_id", int r.page_id)
    ∷ (codes "revision_id", int r.revision_id)
    ∷ []

coerce_cells-IsCanonical : (c : Cells) (r : LinkRow) → coerce_cells c ≡ ok r → IsCanonical r
unfolding coerce_cells
coerce_cells-IsCanonical c r h = ground arith

pub coerce_row-IsCanonical : (row : Row) (r : LinkRow) → coerce_row row ≡ ok r → IsCanonical r
unfolding coerce_row
coerce_row-IsCanonical row r h =
    let (c, copied, coerced) = >>=-eq-ok (copy_canonical_columns row) coerce_cells h in
    coerce_cells-IsCanonical c r coerced

pub coerce_row-to_row : (r : LinkRow) → IsCanonical r → coerce_row (to_row r) ≡ ok r
unfolding coerce_row to_row int_of
coerce_row-to_row r c = ground arith
