-- ===== src/Domain/Links/Validate/Merge.antt =====
-- The dictionary that the merge loop builds: which row stands under each identity.
use osm_polygon_wikidata_onl.Prelude.{
  ◌≡◌, refl, ap, ◌∙◌, true, inl, inr, List, [], ◌∷◌, arith, ok, ◌>>=◌, insert_new, collect,
  Collected, collect-Collected, distinct, keys, indexed, all_of_contains, get_of_entry, pair_eq,
  ==_iff, fun_ext, Result, sym, contains, ◌==◌, values, get_of_value, value_of_get, Bool_ext,
}
use osm_polygon_wikidata_onl.Domain.Values.{Row, value_eq}
use osm_polygon_wikidata_onl.Domain.Links.{LinkRow, link_eq, Key, key_of}
use osm_polygon_wikidata_onl.Domain.Links.Validate.{coerce_row, Merged, merge_link_row, merge_rows}

-- A merge is an insertion under the row's identity.
pub merge_link_row_lem :
    (out : Merged) (row : LinkRow) → merge_link_row out row ≡ insert_new (key_of row) row out
unfolding merge_link_row insert_new
merge_link_row_lem out row = ground arith

pub merge_rows_lem :
    (out : Merged) (raws : List Row) → merge_rows out raws ≡ collect coerce_row key_of out raws
unfolding merge_rows collect
merge_rows_lem out [] = refl
merge_rows_lem out (raw ∷ rest) =
    let step = λ (row : LinkRow).
      ap (λ (r : Result Merged). r >>= λ merged. merge_rows merged rest)
        (merge_link_row_lem out row)
      ∙ ap (λ (g : Merged → Result Merged). insert_new (key_of row) row out >>= g)
          (fun_ext (λ merged. merge_rows_lem merged rest)) in
    ap (λ (g : LinkRow → Result Merged). coerce_row raw >>= g) (fun_ext step)

module _ (raws : List Row) (merged : Merged) (h : merge_rows [] raws ≡ ok merged) where
  pub merged-Collected : Collected coerce_row key_of [] raws merged
  merged-Collected =
      collect-Collected coerce_row key_of [] raws merged (sym (merge_rows_lem [] raws) ∙ h)

  pub merged-distinct : distinct (keys merged) ≡ true
  merged-distinct = merged-Collected.unique refl

  -- Each row stands under its own identity.
  pub merged-indexed : indexed key_of merged ≡ true
  merged-indexed = all_of_contains _ merged entry
    where
      entry : (x : Key × LinkRow) → contains merged x ≡ true → (x.0 == key_of x.1) ≡ true
      entry x m =
          elim (merged-Collected.found x.0 x.1 (get_of_entry x.0 x.1 merged merged-distinct m)) [
            | inl old ↦ cc old
            | inr fresh ↦ (==_iff x.0 (key_of x.1)).1 (sym fresh.1)
          ]

  -- The rows that stand there are the rows that were read.
  pub contains-values-merged :
      (r : LinkRow) → contains (values merged) r ≡ contains merged-Collected.rows r
  contains-values-merged r =
      Bool_ext
        (λ m.
          let (k, p) = get_of_value r merged merged-distinct m in
          elim (merged-Collected.found k r p) [ inl old ↦ cc old | inr fresh ↦ fresh.0 ])
        (λ m. value_of_get (key_of r) r merged (merged-Collected.stored r m))
