-- ===== src/Domain/Links/Validate/Order.antt =====
-- The validated rows: sorted by identity, unique, canonical, and the rows that were given.
use osm_polygon_wikidata_onl.Prelude.{
  ◌≡◌, ◌∙◌, sym, Bool, true, List, [], arith, ok, >>=-eq-ok, traverse, map, contains, distinct,
  pair_leq, pair_leq_total, pair_leq_trans, pair_eq, pair_ord, is_sorted, sort, values,
  contains-values-sort, ◌||◌, sorted_values, sorted_values-distinct, row_of_member,
  Reads-of_traverse,
}
use osm_polygon_wikidata_onl.Domain.Values.{Row, value_eq, value_ord}
use osm_polygon_wikidata_onl.Domain.Links.{LinkRow, link_eq, Key, key_of}
use osm_polygon_wikidata_onl.Domain.Links.Validate.{
  coerce_row, Merged, merge_rows, entry_leq, sorted_rows, validate_polygon_document_links,
}
use osm_polygon_wikidata_onl.Domain.Links.Validate.Rows.{IsCanonical, coerce_row-IsCanonical}
use osm_polygon_wikidata_onl.Domain.Links.Validate.Merge.{
  merged-Collected, merged-distinct, merged-indexed, contains-values-merged,
}

abbrev pub link_leq : LinkRow → LinkRow → Bool
link_leq a b = pair_leq (key_of a) (key_of b)

-- What a successful validation returns.
pub record IsValidated (raws : List Row) (links : List LinkRow) : Type 0 where
  pub rows : List LinkRow
  pub coerced : traverse coerce_row raws ≡ ok rows
  pub members : (r : LinkRow) → contains links r ≡ contains rows r
  pub canonical : (r : LinkRow) → contains links r ≡ true → IsCanonical r
  pub sorted : is_sorted link_leq links ≡ true
  pub unique : distinct (map key_of links) ≡ true

IsCanonical-of_member :
    (raws : List Row) (rows : List LinkRow)
    → traverse coerce_row raws ≡ ok rows
    → (r : LinkRow) → contains rows r ≡ true
    → IsCanonical r
IsCanonical-of_member raws rows coerced r m =
    let (raw, was_read) =
      row_of_member coerce_row r (Reads-of_traverse coerce_row raws rows coerced) m in
    coerce_row-IsCanonical raw r was_read

pub sorted_rows_inv :
    (out : Merged) (links : List LinkRow)
    → sorted_rows out ≡ ok links
    → links ≡ values (sort entry_leq out)
unfolding sorted_rows
sorted_rows_inv out links h = ground arith

pub order_total : (a b : Key) → (pair_leq a b || pair_leq b a) ≡ true
order_total = pair_leq_total

pub order_trans : (a b c : Key) → pair_leq a b ≡ true → pair_leq b c ≡ true → pair_leq a c ≡ true
order_trans = pair_leq_trans

-- Validated links are the given rows, coerced: none is lost and none is added; each satisfies the
-- identity invariants; they are in order of (polygon_id, project, document_id), and no identity
-- occurs twice.
pub validate-IsValidated :
    (raws : List Row) (links : List LinkRow)
    → validate_polygon_document_links raws ≡ ok links
    → IsValidated raws links
unfolding validate_polygon_document_links
validate-IsValidated raws links h =
    let (merged, looped, listed) = >>=-eq-ok (merge_rows [] raws) sorted_rows h in
    let c = merged-Collected raws merged looped in
    let in_place = merged-indexed raws merged looped in
    let members = λ (r : LinkRow).
      contains-values-sort entry_leq merged r ∙ contains-values-merged raws merged looped r in
    rw (sorted_rows_inv merged links listed) (record {
      rows = c.rows;
      coerced = c.all_read;
      members = members;
      canonical = λ r m. IsCanonical-of_member raws c.rows c.all_read r (sym (members r) ∙ m);
      sorted = sorted_values key_of pair_leq merged in_place order_total order_trans;
      unique =
          sorted_values-distinct key_of pair_leq merged in_place
            (merged-distinct raws merged looped);
    })
