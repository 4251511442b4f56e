-- ===== src/Domain/Links/Build.antt =====
-- `build_polygon_document_links`: polygons and documents are joined by their Wikidata identifiers.
pub mod Join
use osm_polygon_wikidata_onl.Prelude.{
  ◌≡◌, Bool, true, false, ◌&&◌, not, List, [], ◌∷◌, ◌++◌, Option, none, some, if◌then◌else◌, Str,
  codes, ◌==◌, str_eq, option_eq, is_empty, contains, Result, ok, err, value_error, ◌>>=◌, ◌>>◌,
  guard, Dict, get, put, traverse,
}
use osm_polygon_wikidata_onl.Domain.Stems.{is_safe_stem}
use osm_polygon_wikidata_onl.Domain.Qids.{is_valid_qid, qids_from_osm_tag}
use osm_polygon_wikidata_onl.Domain.Values.{ℤ, pos, Value, text, int, Row, str_of, int_of, get_or}
use osm_polygon_wikidata_onl.Domain.Links.{LinkRow, projects, document_id_project}
use osm_polygon_wikidata_onl.Domain.Links.Validate.{validate_polygon_document_links}
use osm_polygon_wikidata_onl.Domain.Links.Validate.Rows.{to_row}

pub record PolygonFields : Type 0 where
  pub polygon_id : Str
  pub wikidata_qids : List Str
  pub source_pbf : Str
  pub region : Str
  pub osm_type : Str
  pub osm_id : ℤ

-- `str(row.get(key, ""))`
abbrev pub text_of : Str → Row → Str
text_of key row = str_of (get_or key (text []) row)

-- `int(row.get(key, 0))`
abbrev pub number_of : Str → Row → Result ℤ
number_of key row = int_of (get_or key (int (pos 0)) row)

unfoldable pub coerce_polygon_row : Row → Result PolygonFields
coerce_polygon_row polygon =
    let polygon_id = text_of (codes "polygon_id") polygon in
    let qids = qids_from_osm_tag (text_of (codes "wikidata") polygon) in
    do
      guard (is_safe_stem polygon_id) value_error
      guard (not (is_empty qids)) value_error
      osm_id ← number_of (codes "osm_id") polygon
      ok (record {
        polygon_id = polygon_id;
        wikidata_qids = qids;
        source_pbf = text_of (codes "source_pbf") polygon;
        region = text_of (codes "region") polygon;
        osm_type = text_of (codes "osm_type") polygon;
        osm_id = osm_id;
      })

unfoldable pub validate_document : Row → Result (Unit {0})
validate_document doc =
    let document_id = text_of (codes "document_id") doc in
    let project = text_of (codes "project") doc in
    do
      guard (not (is_empty document_id)) value_error
      guard (contains projects project) value_error
      guard (document_id_project document_id == some project) value_error
      guard (is_valid_qid (text_of (codes "wikidata") doc)) value_error

unfoldable pub build_link_row : Row → PolygonFields → Result Row
unfolding to_row
build_link_row doc p = do
  page_id ← number_of (codes "page_id") doc
  revision_id ← number_of (codes "revision_id") doc
  ok (
      to_row (record {
        polygon_id = text p.polygon_id;
        document_id = text (text_of (codes "document_id") doc);
        project = text (text_of (codes "project") doc);
        wikidata = text (text_of (codes "wikidata") doc);
        language = text (text_of (codes "language") doc);
        source_pbf = text p.source_pbf;
        region = text p.region;
        osm_type = text p.osm_type;
        osm_id = p.osm_id;
        page_id = page_id;
        revision_id = revision_id;
      }))

abbrev pub ByQid : Type 0
ByQid = Dict Str (List PolygonFields)

-- `by_qid.get(qid, ())`
unfoldable pub polygons_of : Str → ByQid → List PolygonFields
polygons_of qid by_qid = elim (get qid by_qid) [ none ↦ [] | some ps ↦ ps ]

-- `by_qid.setdefault(qid, []).append(fields)`, for each identifier of a polygon
unfoldable pub add_polygon : PolygonFields → List Str → ByQid → ByQid
unfolding polygons_of
add_polygon p [] by_qid = by_qid
add_polygon p (qid ∷ qids) by_qid =
    add_polygon p qids (put qid (polygons_of qid by_qid ++ (p ∷ [])) by_qid)

unfoldable pub index_polygons : ByQid → List Row → Result ByQid
unfolding add_polygon
index_polygons by_qid [] = ok by_qid
index_polygons by_qid (raw ∷ rest) = do
  p ← coerce_polygon_row raw
  index_polygons (add_polygon p p.wikidata_qids by_qid) rest

-- the loop over the documents: what each adds to `links`
unfoldable pub link_documents : ByQid → List Row → Result (List Row)
link_documents by_qid [] = ok []
link_documents by_qid (doc ∷ rest) = do
  validate_document doc
  links ← traverse (build_link_row doc) (polygons_of (text_of (codes "wikidata") doc) by_qid)
  more ← link_documents by_qid rest
  ok (links ++ more)

unfoldable pub build_polygon_document_links : List Row → List Row → List Row → Result (List LinkRow)
unfolding index_polygons link_documents
build_polygon_document_links polygons wikipedia_documents wikivoyage_documents = do
  by_qid ← index_polygons [] polygons
  links ← link_documents by_qid (wikipedia_documents ++ wikivoyage_documents)
  validate_polygon_document_links links
