-- ===== src/Augmentation/WikivoyageMembership.antt =====
-- augmentation/_wikivoyage_membership.py: which Wikivoyage documents belong to a polygon.
use osm_polygon_wikidata_onl.Prelude.{
  List, [], ◌∷◌, map, if◌then◌else◌, Str, codes, str_eq, contains,
}
use osm_polygon_wikidata_onl.Domain.Values.{null, text, Row, get_or, str_of}

abbrev pub document_columns : List Str
document_columns =
    codes "document_id"
    ∷ codes "article_id"
    ∷ codes "wikidata"
    ∷ codes "project"
    ∷ codes "language"
    ∷ codes "site"
    ∷ codes "title"
    ∷ codes "url"
    ∷ codes "page_id"
    ∷ codes "revision_id"
    ∷ codes "revision_timestamp"
    ∷ codes "retrieved_at"
    ∷ codes "full_text"
    ∷ codes "full_text_format"
    ∷ codes "article_length_chars"
    ∷ codes "article_length_words"
    ∷ codes "article_length_tokens_estimate"
    ∷ codes "license"
    ∷ codes "attribution"
    ∷ codes "source_api"
    ∷ codes "fetch_status"
    ∷ codes "fetch_error"
    ∷ codes "content_hash"
    ∷ []

-- `{column: row.get(column) for column in columns}`
unfoldable pub projected : List Str → Row → Row
projected columns row = map (λ column. (column, get_or column null row)) columns

-- `str(row.get(column, ""))`
unfoldable pub cell_text : Str → Row → Str
cell_text column row = str_of (get_or column (text []) row)

pub record RejectedDocument : Type 0 where
  pub document_id : Str
  pub wikidata : Str

pub record Partition : Type 0 where
  pub retained_rows : List Row
  pub rejected_documents : List RejectedDocument

-- the two appends of the loop, in front of what the rest of the rows gives
unfoldable pub place : List Str → Row → Partition → Partition
unfolding cell_text projected
place valid_qids row rest =
    if contains valid_qids (cell_text (codes "wikidata") row)
    then record rest { retained_rows = projected document_columns row ∷ rest.retained_rows }
    else record rest {
      rejected_documents =
          record {
            document_id = cell_text (codes "document_id") row;
            wikidata = cell_text (codes "wikidata") row;
          }
          ∷ rest.rejected_documents;
    }

unfoldable pub partition_wikivoyage_documents : List Row → List Str → Partition
unfolding place
partition_wikivoyage_documents [] valid_qids = record {
  retained_rows = [];
  rejected_documents = [];
}
partition_wikivoyage_documents (row ∷ rows) valid_qids =
    place valid_qids row (partition_wikivoyage_documents rows valid_qids)
