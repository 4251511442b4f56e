-- ===== src/Domain/Links/Validate.antt =====
-- `validate_polygon_document_links`: rows are checked and coerced, equal ones collapse, and the rest
-- is sorted by identity.
pub mod Rows
pub mod Merge
pub mod Order
pub mod Idempotence
pub mod Total
use osm_polygon_wikidata_onl.Prelude.{
  ◌≡◌, Bool, true, false, ◌&&◌, not, List, [], ◌∷◌, Option, none, some, if◌then◌else◌, Str, codes,
  ◌==◌, str_eq, pair_eq, pair_leq, contains, Result, ok, err, value_error, type_error, ◌>>=◌, ◌>>◌,
  guard, Dict, get, put, values, sort, all, Ord, pair_ord,
}
use osm_polygon_wikidata_onl.Domain.Stems.{is_safe_stem}
use osm_polygon_wikidata_onl.Domain.Qids.{is_valid_qid}
use osm_polygon_wikidata_onl.Domain.Values.{
  Value, text, Row, value_eq, value_ord, same_type, str_of, int_of,
}
use osm_polygon_wikidata_onl.Domain.Links.{
  LinkRow, link_eq, Key, key_of, projects, document_id_project, document_id_wikidata,
  document_id_language,
}

-- one step of `_copy_canonical_columns`
unfoldable pub column : Row → Str → Result Value
column row name = elim (get name row) [ none ↦ err value_error | some v ↦ ok v ]

-- the eleven columns as they stand in the row
pub record Cells : Type 0 where
  pub polygon_id : Value
  pub document_id : Value
  pub project : Value
  pub wikidata : Value
  pub language : Value
  pub source_pbf : Value
  pub region : Value
  pub osm_type : Value
  pub osm_id : Value
  pub page_id : Value
  pub revision_id : Value

unfoldable pub copy_canonical_columns : Row → Result Cells
unfolding column
copy_canonical_columns row = do
  polygon ← column row (codes "polygon_id")
  document ← column row (codes "document_id")
  project ← column row (codes "project")
  wikidata ← column row (codes "wikidata")
  language ← column row (codes "language")
  source_pbf ← column row (codes "source_pbf")
  region ← column row (codes "region")
  osm_type ← column row (codes "osm_type")
  osm_id ← column row (codes "osm_id")
  page_id ← column row (codes "page_id")
  revision_id ← column row (codes "revision_id")
  ok (record {
    polygon_id = polygon;
    document_id = document;
    project = project;
    wikidata = wikidata;
    language = language;
    source_pbf = source_pbf;
    region = region;
    osm_type = osm_type;
    osm_id = osm_id;
    page_id = page_id;
    revision_id = revision_id;
  })

unfoldable pub validated_polygon_id : Value → Result Str
validated_polygon_id value =
    if is_safe_stem (str_of value) then ok (str_of value) else err value_error

-- `project in PROJECTS`
abbrev pub is_project : Value → Bool
is_project (text s) = contains projects s
is_project _ = false

-- `declared == actual`, where None equals no text
abbrev pub slot_is : Option Str → Value → Bool
slot_is none actual = false
slot_is (some declared) actual = text declared == actual

-- `declared is None or declared == actual`
abbrev pub slot_allows : Option Str → Value → Bool
slot_allows none actual = true
slot_allows (some declared) actual = text declared == actual

unfoldable pub validate_document_project : Str → Value → Result (Unit {0})
validate_document_project document_id project = do
  guard (is_project project) value_error
  guard (slot_is (document_id_project document_id) project) value_error

unfoldable pub validate_document_language : Str → Value → Result (Unit {0})
validate_document_language document_id language =
    guard (slot_allows (document_id_language document_id) language) value_error

unfoldable pub validate_document_wikidata : Str → Value → Result (Unit {0})
validate_document_wikidata document_id value = do
  guard (is_valid_qid (str_of value)) value_error
  guard (slot_allows (document_id_wikidata document_id) (text (str_of value))) value_error

unfoldable pub coerce_numeric_columns : Cells → Result LinkRow
coerce_numeric_columns c = do
  osm ← int_of c.osm_id
  page ← int_of c.page_id
  revision ← int_of c.revision_id
  ok (record {
    polygon_id = c.polygon_id;
    document_id = c.document_id;
    project = c.project;
    wikidata = c.wikidata;
    language = c.language;
    source_pbf = c.source_pbf;
    region = c.region;
    osm_type = c.osm_type;
    osm_id = osm;
    page_id = page;
    revision_id = revision;
  })

unfoldable pub coerce_cells : Cells → Result LinkRow
unfolding validated_polygon_id validate_document_project validate_document_language
    validate_document_wikidata coerce_numeric_columns
coerce_cells c = do
  _ ← validated_polygon_id c.polygon_id
  validate_document_project (str_of c.document_id) c.project
  validate_document_language (str_of c.document_id) c.language
  validate_document_wikidata (str_of c.document_id) c.wikidata
  coerce_numeric_columns c

unfoldable pub coerce_row : Row → Result LinkRow
unfolding copy_canonical_columns coerce_cells
coerce_row row = do c ← copy_canonical_columns row; coerce_cells c

abbrev pub Merged : Type 0
Merged = Dict Key LinkRow

unfoldable pub merge_link_row : Merged → LinkRow → Result Merged
merge_link_row out row = elim (get (key_of row) out) [
  | none ↦ ok (put (key_of row) row out)
  | some existing ↦ if existing == row then ok out else err value_error
]

-- the loop over the rows: each is coerced, then merged
unfoldable pub merge_rows : Merged → List Row → Result Merged
merge_rows out [] = ok out
merge_rows out (raw ∷ rest) = do
  row ← coerce_row raw
  merged ← merge_link_row out row
  merge_rows merged rest

-- Two keys differ first where Python can order them, unless the types of the polygons differ.
abbrev pub comparable : Merged → Bool
comparable [] = true
comparable ((k, r) ∷ rest) =
    all (λ (e : Key × LinkRow). same_type k.0 e.0.0) rest && comparable rest

abbrev pub entry_leq : Key × LinkRow → Key × LinkRow → Bool
entry_leq a b = pair_leq a.0 b.0

-- `[out[k] for k in sorted(out.keys())]`
unfoldable pub sorted_rows : Merged → Result (List LinkRow)
sorted_rows out = if comparable out then ok (values (sort entry_leq out)) else err type_error

unfoldable pub validate_polygon_document_links : List Row → Result (List LinkRow)
unfolding merge_rows merge_link_row sorted_rows
validate_polygon_document_links rows = do out ← merge_rows [] rows; sorted_rows out
