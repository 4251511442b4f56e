-- ===== src/Domain/Links/Validate/Idempotence.antt =====
-- Validated rows are validated to themselves.
use osm_polygon_wikidata_onl.Prelude.{
  ◌≡◌, refl, ap, ◌∙◌, true, List, [], ◌∷◌, arith, ok, >>=-eq-ok, map, contains, distinct, pair_eq,
  pair_ord, is_sorted, sort-is_sorted, sort, values, keys, indexed, all-sort, insert, all-insert,
  ==_refl, sort-indexed, distinct-keys-sort, Reads, all_read, reads, entries_of_indexed,
  collect_of_distinct, sort_of_sorted, pair_leq,
}
use osm_polygon_wikidata_onl.Domain.Values.{Row, value_eq, value_ord, same_type, same_type_sym}
use osm_polygon_wikidata_onl.Domain.Links.{LinkRow, link_eq, Key, key_of}
use osm_polygon_wikidata_onl.Domain.Links.Validate.{
  coerce_row, Merged, merge_rows, comparable, entry_leq, sorted_rows,
  validate_polygon_document_links,
}
use osm_polygon_wikidata_onl.Domain.Links.Validate.Rows.{IsCanonical, to_row, coerce_row-to_row}
use osm_polygon_wikidata_onl.Domain.Links.Validate.Merge.{
  merged-distinct, merged-indexed, merge_rows_lem,
}
use osm_polygon_wikidata_onl.Domain.Links.Validate.Order.{
  sorted_rows_inv, order_total, order_trans, validate-IsValidated,
}

comparable-insert :
    (x : Key × LinkRow) (d : Merged) → comparable (insert entry_leq x d) ≡ comparable (x ∷ d)
comparable-insert x [] = refl
comparable-insert x (y ∷ d) = ground (
  arith,
  comparable-insert x d,
  all-insert entry_leq (λ (e : Key × LinkRow). same_type y.0.0 e.0.0) x d,
  same_type_sym x.0.0 y.0.0,
)

comparable-sort : (d : Merged) → comparable (sort entry_leq d) ≡ comparable d
comparable-sort [] = refl
comparable-sort (x ∷ d) = ground (
  arith,
  comparable-insert x (sort entry_leq d),
  comparable-sort d,
  all-sort entry_leq (λ (e : Key × LinkRow). same_type x.0.0 e.0.0) d,
)

Reads-to_row :
    (links : List LinkRow)
    → ((r : LinkRow) → contains links r ≡ true → IsCanonical r)
    → Reads coerce_row (map to_row links) links
Reads-to_row [] c = all_read
Reads-to_row (r ∷ rs) c =
    reads (coerce_row-to_row r (c r (ground (arith, ==_refl r))))
      (Reads-to_row rs (λ s m. c s (ground (arith, m))))

sorted_rows-comparable :
    (out : Merged) (links : List LinkRow) → sorted_rows out ≡ ok links → comparable out ≡ true
unfolding sorted_rows
sorted_rows-comparable out links h = ground arith

sorted_rows_of_sorted :
    (d : Merged)
    → comparable d ≡ true
    → is_sorted entry_leq d ≡ true
    → sorted_rows d ≡ ok (values d)
unfolding sorted_rows
sorted_rows_of_sorted d c s =
    rw c (ap (λ (t : Merged). ok (values t)) (sort_of_sorted entry_leq d s))

-- A dictionary in order, of canonical rows under their identities, is rebuilt from its rows.
rebuilt :
    (d : Merged)
    → indexed key_of d ≡ true
    → distinct (keys d) ≡ true
    → ((r : LinkRow) → contains (values d) r ≡ true → IsCanonical r)
    → merge_rows [] (map to_row (values d)) ≡ ok d
rebuilt d in_place unique canonical =
    let same = entries_of_indexed key_of d in_place in
    merge_rows_lem [] (map to_row (values d))
    ∙ collect_of_distinct coerce_row key_of [] (Reads-to_row (values d) canonical)
        (ap (λ (t : Merged). distinct (keys t)) same ∙ unique)
    ∙ ap ok same

-- Validation is idempotent: validated links, given again as rows, are returned as they are.
pub validate-to_row :
    (raws : List Row) (links : List LinkRow)
    → validate_polygon_document_links raws ≡ ok links
    → validate_polygon_document_links (map to_row links) ≡ ok links
unfolding validate_polygon_document_links
validate-to_row raws links h =
    let (merged, looped, listed) = >>=-eq-ok (merge_rows [] raws) sorted_rows h in
    let d = sort entry_leq merged in
    let is_values = sorted_rows_inv merged links listed in
    let valid = validate-IsValidated raws links h in
    let ordered =
      sort-is_sorted entry_leq (λ x y. order_total x.0 y.0) (λ x y z. order_trans x.0 y.0 z.0)
        merged in
    let can_sort = comparable-sort merged ∙ sorted_rows-comparable merged links listed in
    let again =
      rebuilt d (sort-indexed key_of pair_leq merged (merged-indexed raws merged looped))
        (distinct-keys-sort entry_leq merged ∙ merged-distinct raws merged looped)
        (λ r m. valid.canonical r (ap (λ (t : List LinkRow). contains t r) is_values ∙ m)) in
    rw is_values (rw again (sorted_rows_of_sorted d can_sort ordered))
