-- ===== src/Domain/Links.antt =====
-- domain/polygon_document_links.py: the canonical link rows, their validation and their construction.
pub mod Validate
pub mod Build
use osm_polygon_wikidata_onl.Prelude.{
  ◌≡◌, ap, ◌↔◌, Bool, true, false, ◌&&◌, not, List, [], ◌∷◌, Option, none, some, arith,
  if◌then◌else◌, Str, codes, ==_iff, ◌==◌, str_eq, pair_eq, option_eq, Eq, Ord, pair_ord, contains,
  nat_eq, Result, ok, err, value_error, type_error, ◌>>=◌, ◌>>◌, guard, Dict, get, has, put,
}
use osm_polygon_wikidata_onl.Domain.Chars.{split}
use osm_polygon_wikidata_onl.Domain.Stems.{is_safe_stem}
use osm_polygon_wikidata_onl.Domain.Qids.{is_valid_qid}
use osm_polygon_wikidata_onl.Domain.Values.{
  ℤ, int_eq, Value, text, Row, value_beq, value_eq, value_ord, str_of, int_of,
}

pub record LinkRow : Type 0 where
  pub polygon_id : Value
  pub document_id : Value
  pub project : Value
  pub wikidata : Value
  pub language : Value
  pub source_pbf : Value
  pub region : Value
  pub osm_type : Value
  pub osm_id : ℤ
  pub page_id : ℤ
  pub revision_id : ℤ

-- The identity of a link, `(polygon_id, project, document_id)`.
abbrev pub Key : Type 0
Key = Value × (Value × Value)

abbrev pub key_of : LinkRow → Key
key_of r = (r.polygon_id, (r.project, r.document_id))

-- `existing == row` compares the columns, which are here one nested tuple.
abbrev Columns : Type 0
Columns = Key × (Value × (Value × (Value × (Value × (Value × (ℤ × (ℤ × ℤ)))))))

abbrev columns : LinkRow → Columns
columns r = (
  key_of r,
  (
    r.wikidata,
    (r.language, (r.source_pbf, (r.region, (r.osm_type, (r.osm_id, (r.page_id, r.revision_id)))))),
  ),
)

of_columns : Columns → LinkRow
of_columns c = record {
  polygon_id = c.0.0;
  project = c.0.1.0;
  document_id = c.0.1.1;
  wikidata = c.1.0;
  language = c.1.1.0;
  source_pbf = c.1.1.1.0;
  region = c.1.1.1.1.0;
  osm_type = c.1.1.1.1.1.0;
  osm_id = c.1.1.1.1.1.1.0;
  page_id = c.1.1.1.1.1.1.1.0;
  revision_id = c.1.1.1.1.1.1.1.1;
}

unfoldable pub link_beq : LinkRow → LinkRow → Bool
link_beq a b = columns a == columns b

pub link_beq_iff : (a b : LinkRow) → (link_beq a b ≡ true) ↔ (a ≡ b)
unfolding link_beq of_columns
link_beq_iff a b = (
  λ h. ap of_columns ((==_iff (columns a) (columns b)).0 h),
  λ p. (==_iff (columns a) (columns b)).1 (ap columns p),
)

instance abbrev pub link_eq : Eq LinkRow
link_eq = record { beq = link_beq; beq_iff = link_beq_iff }

abbrev pub projects : List Str
projects = codes "wikipedia" ∷ codes "wikivoyage" ∷ []

-- the parts of a document's identifier that the checks read
second : List Str → Option Str
second (a ∷ b ∷ rest) = some b
second _ = none

third_of_four : List Str → Option Str
third_of_four (a ∷ b ∷ c ∷ d ∷ rest) = some c
third_of_four _ = none

first_qid : List Str → Option Str
first_qid [] = none
first_qid (a ∷ rest) = if is_valid_qid a then some a else none

known_project : Option Str → Option Str
known_project none = none
known_project (some p) = if contains projects p then some p else none

unfoldable pub document_id_project : Str → Option Str
unfolding second known_project
document_id_project document_id = known_project (second (split b':' document_id))

unfoldable pub document_id_wikidata : Str → Option Str
unfolding first_qid
document_id_wikidata document_id = first_qid (split b':' document_id)

unfoldable pub document_id_language : Str → Option Str
unfolding third_of_four
document_id_language document_id = third_of_four (split b':' document_id)
