-- ===== src/Domain/Links/Validate/Total.antt =====
-- When validation returns.
use osm_polygon_wikidata_onl.Prelude.{
  ◌≡◌, refl, ap, ap₂, ok_injective, ◌∙◌, sym, true, inl, inr, List, [], ◌∷◌, arith, ok, traverse,
  contains, pair_eq, sort, values, all_of_contains, ==_refl, Reads-of_traverse, collect_ok,
  get_of_entry,
}
use osm_polygon_wikidata_onl.Domain.Values.{Row, value_eq, same_type}
use osm_polygon_wikidata_onl.Domain.Links.{LinkRow, link_eq, Key, key_of}
use osm_polygon_wikidata_onl.Domain.Links.Validate.{
  coerce_row, Merged, merge_rows, comparable, entry_leq, sorted_rows,
  validate_polygon_document_links,
}
use osm_polygon_wikidata_onl.Domain.Links.Validate.Merge.{
  merge_rows_lem, merged-Collected, merged-distinct,
}

comparable_of_pairs :
    (d : Merged)
    → ((x y : Key × LinkRow)
        → contains d x ≡ true
        → contains d y ≡ true
        → same_type x.0.0 y.0.0 ≡ true)
    → comparable d ≡ true
comparable_of_pairs [] h = refl
comparable_of_pairs (x ∷ d) h =
    let here =
      all_of_contains (λ (y : Key × LinkRow). same_type x.0.0 y.0.0) d
        (λ y m. h x y (ground (arith, ==_refl x)) (ground (arith, m))) in
    let later = comparable_of_pairs d (λ y z m n. h y z (ground (arith, m)) (ground (arith, n))) in
    rw here later

module _ (raws : List Row) (rows : List LinkRow) (coerced : traverse coerce_row raws ≡ ok rows)
    (same_types : (r s : LinkRow)
      → contains rows r ≡ true
      → contains rows s ≡ true
      → same_type r.polygon_id s.polygon_id ≡ true) where
  merged-comparable : (merged : Merged) → merge_rows [] raws ≡ ok merged → comparable merged ≡ true
  merged-comparable merged h = comparable_of_pairs merged pairs
    where
      stored :
          (x : Key × LinkRow)
          → contains merged x ≡ true
          → (contains rows x.1 ≡ true) × (key_of x.1 ≡ x.0)
      stored x m =
          let c = merged-Collected raws merged h in
          elim (c.found x.0 x.1 (get_of_entry x.0 x.1 merged (merged-distinct raws merged h) m)) [
            | inl old ↦ cc old
            | inr (member, key) ↦ (
              ap (λ (t : List LinkRow). contains t x.1) (ok_injective (sym coerced ∙ c.all_read))
                  ∙ member,
              key,
            )
          ]

      pairs :
          (x y : Key × LinkRow)
          → contains merged x ≡ true
          → contains merged y ≡ true
          → same_type x.0.0 y.0.0 ≡ true
      pairs x y m n =
          let (member_x, key_x) = stored x m in
          let (member_y, key_y) = stored y n in
          ap₂ (λ (a b : Key). same_type a.0 b.0) (sym key_x) (sym key_y)
          ∙ same_types x.1 y.1 member_x member_y

  -- Rows that are each valid are accepted, if no two of them stand for one identity with different
  -- values and their polygon identifiers are of one type.
  pub validate_ok :
      ((r s : LinkRow)
        → contains rows r ≡ true
        → contains rows s ≡ true
        → key_of r ≡ key_of s
        → r ≡ s)
      → (links : List LinkRow) × (validate_polygon_document_links raws ≡ ok links)
  unfolding validate_polygon_document_links sorted_rows
  validate_ok consistent =
      let (merged, collected) =
        collect_ok coerce_row key_of [] (Reads-of_traverse coerce_row raws rows coerced) consistent
          (λ v w m p. cc p) in
      let looped = merge_rows_lem [] raws ∙ collected in
      (values (sort entry_leq merged), rw looped (rw (merged-comparable merged looped)))
