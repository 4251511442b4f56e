-- ===== src/Examples/Links.antt =====
-- Links of one polygon and one article, and tags.
use osm_polygon_wikidata_onl.Prelude.{
  ◌≡◌, refl, sym, true, List, [], ◌∷◌, Str, codes, ok, arith, ◌&&◌, all, distinct, contains, str_eq,
  traverse, ==_iff, ◌∙◌, ap₂,
}
use osm_polygon_wikidata_onl.Domain.Chars.{split, strip, is_space, is_decimal}
use osm_polygon_wikidata_onl.Domain.Stems.{is_safe_stem}
use osm_polygon_wikidata_onl.Domain.Qids.{qids_from_osm_tag, is_valid_qid, components}
use osm_polygon_wikidata_onl.Domain.Qids.Laws.{qids_from_osm_tag_lem}
use osm_polygon_wikidata_onl.Domain.Values.{pos, text, int, Row, str_of, int_of, same_type}
use osm_polygon_wikidata_onl.Domain.Links.{
  LinkRow, link_eq, link_beq, document_id_project, document_id_language, document_id_wikidata,
}
use osm_polygon_wikidata_onl.Domain.Links.Validate.{coerce_row, validate_polygon_document_links}
use osm_polygon_wikidata_onl.Domain.Links.Validate.Order.{IsValidated, validate-IsValidated}
use osm_polygon_wikidata_onl.Domain.Links.Validate.Total.{validate_ok}
use osm_polygon_wikidata_onl.Domain.Links.Build.{build_polygon_document_links}
use osm_polygon_wikidata_onl.Domain.Links.Build.Join.{
  reference_links, build_polygon_document_links_lem,
}

abbrev paris : LinkRow
paris = record {
  polygon_id = text (codes "fr-1");
  document_id = text (codes "Q90:wikipedia:fr:Paris");
  project = text (codes "wikipedia");
  wikidata = text (codes "Q90");
  language = text (codes "fr");
  source_pbf = text (codes "fr.osm.pbf");
  region = text (codes "fr");
  osm_type = text (codes "way");
  osm_id = pos 7;
  page_id = pos 681;
  revision_id = pos 3;
}

abbrev paris_row : Row
paris_row =
    (codes "polygon_id", text (codes "fr-1"))
    ∷ (codes "document_id", text (codes "Q90:wikipedia:fr:Paris"))
    ∷ (codes "project", text (codes "wikipedia"))
    ∷ (codes "wikidata", text (codes "Q90"))
    ∷ (codes "language", text (codes "fr"))
    ∷ (codes "source_pbf", text (codes "fr.osm.pbf"))
    ∷ (codes "region", text (codes "fr"))
    ∷ (codes "osm_type", text (codes "way"))
    ∷ (codes "osm_id", text (codes " 7"))
    ∷ (codes "page_id", int (pos 681))
    ∷ (codes "revision_id", int (pos 3))
    ∷ []

-- The row is given twice.
validated_twice : validate_polygon_document_links (paris_row ∷ paris_row ∷ []) ≡ ok (paris ∷ [])
unfolding validate_polygon_document_links coerce_row is_safe_stem str_of document_id_project split
    document_id_language is_valid_qid is_decimal document_id_wikidata int_of strip is_space link_beq
validated_twice = refl

validate-IsValidated_example : IsValidated (paris_row ∷ paris_row ∷ []) (paris ∷ [])
validate-IsValidated_example =
    validate-IsValidated (paris_row ∷ paris_row ∷ []) (paris ∷ []) validated_twice

coerced : traverse coerce_row (paris_row ∷ []) ≡ ok (paris ∷ [])
unfolding coerce_row is_safe_stem str_of document_id_project split document_id_language is_valid_qid
    is_decimal document_id_wikidata int_of strip is_space
coerced = refl

member : (r : LinkRow) → contains (paris ∷ []) r ≡ true → paris ≡ r
member r m = (==_iff paris r).0 (ground (arith, m))

validate_ok_example :
    (links : List LinkRow) × (validate_polygon_document_links (paris_row ∷ []) ≡ ok links)
validate_ok_example =
    validate_ok (paris_row ∷ []) (paris ∷ []) coerced
      (λ r s m n.
        ap₂ (λ (a b : LinkRow). same_type a.polygon_id b.polygon_id) (sym (member r m))
          (sym (member s n)))
      (λ r s m n same. sym (member r m) ∙ member s n)

abbrev polygon : Row
polygon =
    (codes "polygon_id", text (codes "fr-1"))
    ∷ (codes "wikidata", text (codes "Q90; Q1"))
    ∷ (codes "source_pbf", text (codes "fr.osm.pbf"))
    ∷ (codes "region", text (codes "fr"))
    ∷ (codes "osm_type", text (codes "way"))
    ∷ (codes "osm_id", int (pos 7))
    ∷ []

abbrev article : Row
article =
    (codes "document_id", text (codes "Q90:wikipedia:fr:Paris"))
    ∷ (codes "project", text (codes "wikipedia"))
    ∷ (codes "wikidata", text (codes "Q90"))
    ∷ (codes "language", text (codes "fr"))
    ∷ (codes "page_id", int (pos 681))
    ∷ (codes "revision_id", int (pos 3))
    ∷ []

build_polygon_document_links_lem_example :
    build_polygon_document_links (polygon ∷ []) (article ∷ []) []
    ≡ reference_links (polygon ∷ []) (article ∷ []) []
build_polygon_document_links_lem_example =
    build_polygon_document_links_lem (polygon ∷ []) (article ∷ []) []

qids_from_osm_tag_lem_example :
    (all is_valid_qid (qids_from_osm_tag (codes "Q1; Q42 ;Q1")) ≡ true)
    × (distinct (qids_from_osm_tag (codes "Q1; Q42 ;Q1")) ≡ true)
    × ((q : Str)
        → contains (qids_from_osm_tag (codes "Q1; Q42 ;Q1")) q ≡ (
            all is_valid_qid (components (codes "Q1; Q42 ;Q1"))
            && contains (components (codes "Q1; Q42 ;Q1")) q))
qids_from_osm_tag_lem_example = qids_from_osm_tag_lem (codes "Q1; Q42 ;Q1")
